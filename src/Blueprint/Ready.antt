-- ===== src/Blueprint/Ready.antt =====
-- engine/open_hollywood_engine/workflows/blueprint_graph.py: what an invocation leaves for the approval.
use open_hollywood.Blueprint.Nodes.{
  task_for, validate_outputs, answer, role_of, merge_artifact_states, select_inputs, Update,
  merge_completed_nodes, apply_update, specialist_node, contains_node, BlueprintGraphState,
}
use open_hollywood.Blueprint.Contracts.{
  node_is, blueprint_node_definition, blueprint_node_order, BlueprintNode, BlueprintNodeExecutor,
}
use open_hollywood.Blueprint.Graph.{
  initial_blueprint_state, entry_frontier, start_blueprint, applied, advance, superstep, run_nodes,
  node_update, Frontier,
}
use open_hollywood.Artifacts.{ArtifactReference}
use open_hollywood.Blueprint.Contracts.{recursion_limit}
use mathlib.Core.Option.{some-injective}
use open_hollywood.Prelude.{
  ok-injective, ℕ, ◌≡◌, refl, sym, ◌∙◌, subst, ap, Bool, true, false, not, Option, none, some, List,
  [], ◌∷◌, arith, ok, ◌>>=◌, >>=-eq-ok, string_eq, nat_eq, take, run_inv,
}

-- The stages of a first invocation, each with the nodes that are completed before it.
data OnPath : Frontier → List BlueprintNode → Type 0 where
  at_intake : OnPath (BlueprintNode.intake ∷ []) []
  at_brief : OnPath (BlueprintNode.brief ∷ []) (take 1 blueprint_node_order)
  at_premise : OnPath (BlueprintNode.premise ∷ []) (take 2 blueprint_node_order)
  at_specialists :
      OnPath
        (BlueprintNode.world_specialist ∷ BlueprintNode.character_specialist ∷ [])
        (take 3 blueprint_node_order)
  at_integration : OnPath (BlueprintNode.integration ∷ []) (take 5 blueprint_node_order)
  at_evaluation : OnPath (BlueprintNode.evaluation ∷ []) (take 6 blueprint_node_order)
  at_approval : OnPath (BlueprintNode.approval ∷ []) (take 7 blueprint_node_order)

record Reached (frontier : Frontier) (s : BlueprintGraphState) : Type 0 where
  done_before : List BlueprintNode
  on_path : OnPath frontier done_before
  completed : s.completed_nodes ≡ done_before

-- The nodes that are completed after a superstep without the approval.
abbrev completed_after : Frontier → List BlueprintNode → List BlueprintNode
completed_after [] xs = xs
completed_after (node ∷ nodes) xs = completed_after nodes (merge_completed_nodes xs (node ∷ []))

abbrev autonomous : Frontier → Bool
autonomous frontier = not (contains_node BlueprintNode.approval frontier)

module _ (executor : BlueprintNodeExecutor) (n : ℕ) where
  specialist-node :
      (node : BlueprintNode) (s : BlueprintGraphState) (update : Option Update)
      → (specialist_node executor n node s >>= λ u. ok (some u)) ≡ ok update
      → (outputs : List ArtifactReference) × (update ≡ some (outputs, node))
  unfolding specialist_node
  specialist-node node s update h =
      let d = blueprint_node_definition node in
      let (u, hu, h1) = >>=-eq-ok (specialist_node executor n node s) _ h in
      let (inputs, p1, e1) = >>=-eq-ok (select_inputs s.artifacts d) _ hu in
      let (role, p2, e2) = >>=-eq-ok (role_of node d.specialist_role) _ e1 in
      let (outputs, p3, e3) =
        >>=-eq-ok (answer (executor.execute n (task_for node role inputs s))) _ e2 in
      let (checked, p4, e4) = >>=-eq-ok (validate_outputs d outputs) _ e3 in
      (outputs, sym (ok-injective h1) ∙ ap some (sym (ok-injective e4)))

  update-node :
      (node : BlueprintNode) (s : BlueprintGraphState) (update : Option Update)
      → node_is BlueprintNode.approval node ≡ false
      → node_update executor n s node ≡ ok update
      → (outputs : List ArtifactReference) × (update ≡ some (outputs, node))
  unfolding node_update
  update-node BlueprintNode.intake s update a h = ([], sym (ok-injective h))
  update-node BlueprintNode.approval s update a h = cc a
  update-node BlueprintNode.brief s update a h = specialist-node _ s update h
  update-node BlueprintNode.premise s update a h = specialist-node _ s update h
  update-node BlueprintNode.world_specialist s update a h = specialist-node _ s update h
  update-node BlueprintNode.character_specialist s update a h = specialist-node _ s update h
  update-node BlueprintNode.integration s update a h = specialist-node _ s update h
  update-node BlueprintNode.evaluation s update a h = specialist-node _ s update h

  apply_update-completed :
      (t t' : BlueprintGraphState) (outputs : List ArtifactReference) (node : BlueprintNode)
      → apply_update t (outputs, node) ≡ ok t'
      → t'.completed_nodes ≡ merge_completed_nodes t.completed_nodes (node ∷ [])
  unfolding apply_update
  apply_update-completed t t' outputs node h =
      let (merged, p, h1) = >>=-eq-ok (merge_artifact_states t.artifacts outputs) _ h in
      ap (λ x. x.completed_nodes) (sym (ok-injective h1))

  run_nodes-completed :
      (s : BlueprintGraphState) (frontier : Frontier) (t t' : BlueprintGraphState)
      → autonomous frontier ≡ true
      → run_nodes executor n s frontier t ≡ ok t'
      → t'.completed_nodes ≡ completed_after frontier t.completed_nodes
  unfolding run_nodes
  run_nodes-completed s [] t t' a h = ap (λ x. x.completed_nodes) (sym (ok-injective h))
  run_nodes-completed s (node ∷ nodes) t t' a h =
      let (update, p, h1) = >>=-eq-ok (node_update executor n s node) _ h in
      let (outputs, same) = update-node node s update (ground (arith, a)) p in
      let (u, q, h2) = >>=-eq-ok (applied t update) _ h1 in
      let first =
        apply_update-completed t u outputs node (subst (λ o. applied t o ≡ ok u) same q) in
      run_nodes-completed s nodes u t' (ground (arith, a)) h2 ∙ ap (completed_after nodes) first

  -- The approval leaves the checkpoint, when its inputs are there.
  approval-superstep :
      (s s' : BlueprintGraphState)
      → superstep executor n (BlueprintNode.approval ∷ []) s ≡ ok s'
      → (inputs : List ArtifactReference) × (select_inputs s'.artifacts
            (blueprint_node_definition BlueprintNode.approval)
          ≡ ok inputs)
        × (s ≡ s')
  unfolding superstep run_nodes node_update
  approval-superstep s s' h =
      let (update, p, h1) = >>=-eq-ok (node_update executor n s BlueprintNode.approval) _ h in
      let (inputs, q, k) =
        >>=-eq-ok (select_inputs s.artifacts (blueprint_node_definition BlueprintNode.approval)) _
          p in
      let (t, e, h2) = >>=-eq-ok (applied s update) _ h1 in
      let stays : s ≡ s' =
        ok-injective (subst (λ o. applied s o ≡ ok t) (sym (ok-injective k)) e) ∙ ok-injective h2 in
      (
        inputs,
        subst
            (λ x.
              select_inputs x.artifacts (blueprint_node_definition BlueprintNode.approval)
              ≡ ok inputs)
            stays q,
        stays,
      )

-- A checkpoint that is ready for the approval: every node before it is completed, and there is a
-- blueprint and a critique.
pub record IsReady (s : BlueprintGraphState) : Type 0 where
  pub all_completed : s.completed_nodes ≡ take 7 blueprint_node_order
  pub inputs : List ArtifactReference
  pub selected :
      select_inputs s.artifacts (blueprint_node_definition BlueprintNode.approval) ≡ ok inputs

module _ (executor : BlueprintNodeExecutor) (n : ℕ) where
  reach :
      {frontier next : Frontier} {xs : List BlueprintNode} (s : BlueprintGraphState)
      → OnPath frontier xs
      → s.completed_nodes ≡ xs
      → ◌≡◌ {A = Option Frontier} (some frontier) (some next)
      → Reached next s
  reach {frontier} {xs} s on done same =
      subst (λ f. Reached f s) (some-injective _ _ same)
        (record { done_before = xs; on_path = on; completed = done })

  step_on :
      (frontier next : Frontier) (xs : List BlueprintNode) (s s' : BlueprintGraphState)
      → OnPath frontier xs
      → s.completed_nodes ≡ xs
      → superstep executor n frontier s ≡ ok s'
      → advance frontier s' ≡ some next
      → Reached next s'
  unfolding superstep
  step_on _ next _ s s' at_intake before h adv =
      reach s' at_brief
        (run_nodes-completed executor n s _ s s' refl h
          ∙ ap (completed_after (BlueprintNode.intake ∷ [])) before)
        adv
  step_on _ next _ s s' at_brief before h adv =
      reach s' at_premise
        (run_nodes-completed executor n s _ s s' refl h
          ∙ ap (completed_after (BlueprintNode.brief ∷ [])) before)
        adv
  step_on _ next _ s s' at_premise before h adv =
      reach s' at_specialists
        (run_nodes-completed executor n s _ s s' refl h
          ∙ ap (completed_after (BlueprintNode.premise ∷ [])) before)
        adv
  step_on _ next _ s s' at_specialists before h adv =
      reach s' at_integration
        (run_nodes-completed executor n s _ s s' refl h
          ∙ ap
              (completed_after
                (BlueprintNode.world_specialist ∷ BlueprintNode.character_specialist ∷ []))
              before)
        adv
  step_on _ next _ s s' at_integration before h adv =
      reach s' at_evaluation
        (run_nodes-completed executor n s _ s s' refl h
          ∙ ap (completed_after (BlueprintNode.integration ∷ [])) before)
        adv
  step_on _ next _ s s' at_evaluation before h adv =
      reach s' at_approval
        (run_nodes-completed executor n s _ s s' refl h
          ∙ ap (completed_after (BlueprintNode.evaluation ∷ [])) before)
        adv
  step_on _ next _ s s' at_approval before h adv = cc adv

  -- Only the approval is followed by nothing.
  last_on :
      (frontier : Frontier) (xs : List BlueprintNode) (s s' : BlueprintGraphState)
      → OnPath frontier xs
      → s.completed_nodes ≡ xs
      → superstep executor n frontier s ≡ ok s'
      → advance frontier s' ≡ none
      → IsReady s'
  last_on _ _ s s' at_intake before h adv = cc adv
  last_on _ _ s s' at_brief before h adv = cc adv
  last_on _ _ s s' at_premise before h adv = cc adv
  last_on _ _ s s' at_specialists before h adv = cc adv
  last_on _ _ s s' at_integration before h adv = cc adv
  last_on _ _ s s' at_evaluation before h adv = cc adv
  last_on _ _ s s' at_approval before h adv =
      let (inputs, found, stays) = approval-superstep executor n s s' h in
      record {
        all_completed = ap (λ x. x.completed_nodes) (sym stays) ∙ before;
        inputs = inputs;
        selected = found;
      }

-- A first invocation of a new run that returns has completed every node but the approval, and its
-- checkpoint holds the artifacts that the approval presents.
pub start_blueprint-IsReady :
    (executor : BlueprintNodeExecutor) (limit run_id : ℕ) (t : BlueprintGraphState)
    → start_blueprint executor limit (initial_blueprint_state run_id) ≡ ok t
    → IsReady t
unfolding start_blueprint entry_frontier
start_blueprint-IsReady executor limit run_id t h =
    run_inv (superstep executor) advance recursion_limit Reached IsReady
      (λ n f f' s s' p e a. step_on executor n f f' p.done_before s s' p.on_path p.completed e a)
      (λ n f s s' p e a. last_on executor n f p.done_before s s' p.on_path p.completed e a) limit 0
      (BlueprintNode.intake ∷ []) (initial_blueprint_state run_id)
      (record { done_before = []; on_path = at_intake; completed = refl }) h
