-- ===== src/Blueprint/Termination.antt =====
-- engine/open_hollywood_engine/workflows/blueprint_graph.py: an invocation ends within the limit on steps.
use open_hollywood.Blueprint.Failures.{is_limit, select_inputs-Spares, run_nodes-Spares}
use open_hollywood.Blueprint.Graph.{
  continue_blueprint, route_after_approval, entry_frontier, approval_node, route_entry,
  run_blueprint, resume_blueprint, start_blueprint, superstep, advance, Frontier,
}
use open_hollywood.Blueprint.Nodes.{
  EntryMode, BlueprintGraphState, select_inputs, new_entry, fork_entry, retry_entry,
}
use open_hollywood.Blueprint.Contracts.{
  is_retryable, BlueprintDecisionAction, BlueprintDecisionResume, blueprint_node_definition,
  node_sort_key, BlueprintNodeExecutor, BlueprintNode, recursion_limit, approve, revise, reject,
  fork, no_retry_node, not_retryable,
}
use mathlib.Core.Option.{some-injective}
use open_hollywood.Prelude.{
  ok-injective, >>=-eq-raise, inl, inr, zero, suc, Spares-raise, Spares-guard, Spares-ok, Spares,
  [], ◌∷◌, some, none, ℕ, ◌-◌, ◌≤◌, ◌<◌, ◌≡◌, ◌≢◌, refl, sym, subst, ap, Option, arith, ok, raise,
  ◌>>=◌, >>=-eq-ok, guard-bind, string_eq, nat_eq, run-ne-limit,
}

-- The frontiers of a run: one node, or the two specialists.
data IsStage : Frontier → Type 0 where
  single : (node : BlueprintNode) → IsStage (node ∷ [])
  siblings : IsStage (BlueprintNode.world_specialist ∷ BlueprintNode.character_specialist ∷ [])

-- The supersteps that are left, the approval's included.
abbrev supersteps_left : Frontier → ℕ
supersteps_left [] = 1
supersteps_left (node ∷ nodes) = 8 - node_sort_key node

-- One superstep leads to a later stage.
record Follows (frontier next : Frontier) : Type 0 where
  stage : IsStage next
  fewer : supersteps_left next < supersteps_left frontier

to_follow :
    {frontier next t : Frontier}
    → IsStage t
    → supersteps_left t < supersteps_left frontier
    → ◌≡◌ {A = Option Frontier} (some t) (some next)
    → Follows frontier next
to_follow {frontier} stage fewer h =
    subst (Follows frontier) (some-injective _ _ h) (record { stage = stage; fewer = fewer })

follows :
    (frontier next : Frontier) (s : BlueprintGraphState)
    → IsStage frontier
    → advance frontier s ≡ some next
    → Follows frontier next
follows _ next s siblings h = to_follow (single BlueprintNode.integration) (omega arith) h
follows _ next s (single BlueprintNode.intake) h =
    to_follow (single BlueprintNode.brief) (omega arith) h
follows _ next s (single BlueprintNode.brief) h =
    to_follow (single BlueprintNode.premise) (omega arith) h
follows _ next s (single BlueprintNode.premise) h = to_follow siblings (omega arith) h
follows _ next s (single BlueprintNode.world_specialist) h =
    to_follow (single BlueprintNode.integration) (omega arith) h
follows _ next s (single BlueprintNode.character_specialist) h =
    to_follow (single BlueprintNode.integration) (omega arith) h
follows _ next s (single BlueprintNode.integration) h =
    to_follow (single BlueprintNode.evaluation) (omega arith) h
follows _ next s (single BlueprintNode.evaluation) h =
    to_follow (single BlueprintNode.approval) (omega arith) h
follows _ next s (single BlueprintNode.approval) h = cc h

left-positive : (frontier : Frontier) → IsStage frontier → 0 < supersteps_left frontier
left-positive _ siblings = omega arith
left-positive _ (single BlueprintNode.intake) = omega arith
left-positive _ (single BlueprintNode.brief) = omega arith
left-positive _ (single BlueprintNode.premise) = omega arith
left-positive _ (single BlueprintNode.world_specialist) = omega arith
left-positive _ (single BlueprintNode.character_specialist) = omega arith
left-positive _ (single BlueprintNode.integration) = omega arith
left-positive _ (single BlueprintNode.evaluation) = omega arith
left-positive _ (single BlueprintNode.approval) = omega arith

run_blueprint-ne-limit :
    (executor : BlueprintNodeExecutor) (limit n : ℕ) (frontier : Frontier) (s : BlueprintGraphState)
    → IsStage frontier
    → supersteps_left frontier ≤ limit
    → run_blueprint executor limit n frontier s ≢ raise recursion_limit
unfolding superstep
run_blueprint-ne-limit executor limit n frontier s stage enough =
    run-ne-limit (superstep executor) advance recursion_limit (λ f t. IsStage f)
      (λ f t. supersteps_left f) (λ k f f' t t' p h r. (follows f f' t' p r).stage)
      (λ k f f' t t' p h r. (follows f f' t' p r).fewer) (λ f t p. left-positive f p)
      (λ k f t p h. cc ((run_nodes-Spares executor k t f t).spares recursion_limit h)) limit n
      frontier s stage enough

head-le : (node : BlueprintNode) → supersteps_left (node ∷ []) ≤ 8
head-le node = omega arith

entry-Spares :
    (mode : EntryMode) (retried : Option BlueprintNode)
    → Spares is_limit (entry_frontier mode retried)
unfolding entry_frontier
entry-Spares new_entry retried = Spares-ok is_limit _
entry-Spares fork_entry retried = Spares-ok is_limit _
entry-Spares retry_entry none = Spares-raise is_limit no_retry_node refl
entry-Spares retry_entry (some node) =
    Spares-guard is_limit (is_retryable node) not_retryable _ refl (Spares-ok is_limit _)

-- An invocation enters at one node.
entry-single :
    (mode : EntryMode) (retried : Option BlueprintNode) (frontier : Frontier)
    → entry_frontier mode retried ≡ ok frontier
    → (node : BlueprintNode) × (frontier ≡ node ∷ [])
unfolding entry_frontier
entry-single new_entry retried frontier h = (BlueprintNode.intake, sym (ok-injective h))
entry-single fork_entry retried frontier h = (BlueprintNode.premise, sym (ok-injective h))
entry-single retry_entry none frontier h = cc h
entry-single retry_entry (some node) frontier h =
    (node, sym (ok-injective (guard-bind (is_retryable node) _ _ h).1))

continued :
    (executor : BlueprintNodeExecutor) (limit : ℕ) (s : BlueprintGraphState)
    (action : BlueprintDecisionAction)
    → 7 ≤ limit
    → (route_after_approval (some action) >>= continue_blueprint executor limit s)
      ≢ raise recursion_limit
continued executor limit s approve enough h = cc h
continued executor limit s fork enough h = cc h
continued executor limit s revise enough h =
    run_blueprint-ne-limit executor limit 1 _ s (single BlueprintNode.integration)
      (omega (arith, enough)) h
continued executor limit s reject enough h =
    run_blueprint-ne-limit executor limit 1 _ s (single BlueprintNode.premise)
      (omega (arith, enough)) h

-- Under a limit of at least 8, and so under the default of 12, a first invocation from any checkpoint
-- does not reach the limit, whatever the executor answers.
pub start_blueprint-ne-recursion_limit :
    (executor : BlueprintNodeExecutor) (limit : ℕ) (s : BlueprintGraphState)
    → 8 ≤ limit
    → start_blueprint executor limit s ≢ raise recursion_limit
unfolding start_blueprint
start_blueprint-ne-recursion_limit executor limit s enough h =
    elim (>>=-eq-raise (route_entry s) _ h) [
      | inl e ↦ cc ((entry-Spares s.entry_mode s.retry_node).spares recursion_limit e)
      | inr (frontier, e, h1) ↦
          let node_is_first = entry-single s.entry_mode s.retry_node frontier e in
          run_blueprint-ne-limit executor limit 0 frontier s
            (subst IsStage (sym node_is_first.1) (single node_is_first.0))
            (subst (λ f. supersteps_left f ≤ limit) (sym node_is_first.1)
              (omega (arith, head-le node_is_first.0)))
            h1
    ]

-- Under such a limit a resumed invocation does not reach it either, whatever was decided.
pub resume_blueprint-ne-recursion_limit :
    (executor : BlueprintNodeExecutor) (limit : ℕ) (resumed : BlueprintDecisionResume)
    (s : BlueprintGraphState)
    → 8 ≤ limit
    → resume_blueprint executor limit resumed s ≢ raise recursion_limit
unfolding resume_blueprint approval_node
resume_blueprint-ne-recursion_limit executor zero resumed s enough h = ground arith
resume_blueprint-ne-recursion_limit executor (suc limit) resumed s enough h =
    elim (>>=-eq-raise (approval_node resumed s) _ h) [
      | inl e ↦
          elim (>>=-eq-raise
            (select_inputs s.artifacts (blueprint_node_definition BlueprintNode.approval)) _ e) [
              | inl e' ↦ cc (
                  (select_inputs-Spares s.artifacts
                      (blueprint_node_definition BlueprintNode.approval)).spares
                    recursion_limit e')
              | inr (inputs, e', k) ↦ cc k
            ]
      | inr (s', e, h1) ↦
          let (inputs, e', k) =
            >>=-eq-ok (select_inputs s.artifacts (blueprint_node_definition BlueprintNode.approval))
              _ e in
          let decided = sym (ap (λ x. x.human_action) (ok-injective k)) in
          continued executor limit s' resumed.action (omega (arith, enough)) (
            subst
              (λ o.
                (route_after_approval o >>= continue_blueprint executor limit s')
                ≡ raise recursion_limit)
              decided h1)
    ]
