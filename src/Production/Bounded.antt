-- ===== src/Production/Bounded.antt =====
-- The production graph ends within `max_graph_steps`, and so do the dialogue subgraphs in it.
use open_hollywood.Production.Errors.{
  avoid_accept, avoid_story_bible_update, avoid_continuity_adjudication, avoid_critic_adjudication,
  avoid_continuity, avoid_critique, avoid_dialogue_integration, avoid_draft, Avoids, is_unreachable,
}
use open_hollywood.Dialogue.Rounds.{run_dialogue-ne-recursion_limit}
use open_hollywood.Dialogue.{
  DialogueError, run_dialogue, director_briefing, initial_dialogue_state, DialogueExecutor,
}
use open_hollywood.Prelude.{
  length, Result-cases, run-ne-error, ℕ, ◌+◌, ◌-◌, ◌≤◌, ◌<◌, ◌≡◌, ◌≢◌, refl, sym, subst, inl, inr,
  true, some, List, [], ◌∷◌, arith, ok, raise, string_eq, nat_eq, run-ne-limit,
}
use open_hollywood.Production.Rules.{dialogue_steps, max_graph_steps, production_valid}
use open_hollywood.Production.State.{initial_production_state, ProductionState}
use open_hollywood.Production.Settlement.{
  accept-Advance, continuity_adjudication-Advance, continuity-Advance,
}
use open_hollywood.Production.Advance.{
  story_bible_update-Advance, critic_adjudication-Advance, critique-Advance,
  dialogue_integration-Advance, dialogue_pass-Advance, draft-Advance,
}
use open_hollywood.Production.Envelope.{one_more, attempt, Ready, remaining, Advance, Within}
use open_hollywood.Production.Nodes.{dialogue_outcome, dialogue_pass_node}
use open_hollywood.Production.Contracts.{
  ProductionNode, SceneProductionExecutor, ProductionError, SceneProductionInput, draft,
  dialogue_pass, dialogue_integration, critique, continuity, critic_adjudication,
  continuity_adjudication, story_bible_update, accept,
}
use open_hollywood.Production.Graph.{produce, node_step, route}

pub advance :
    (p : SceneProductionInput) (ex : SceneProductionExecutor) (actors : DialogueExecutor)
    (top n : ℕ) (node node' : ProductionNode) (s s' : ProductionState)
    → Within p node s
    → node_step ex actors top n node s ≡ ok s'
    → route node s' ≡ some node'
    → Advance p node node' s s'
unfolding node_step
advance p ex actors top n draft node' s s' w h r = draft-Advance p ex n node' s s' w h r
advance p ex actors top n dialogue_pass node' s s' w h r =
    dialogue_pass-Advance p ex n node' s s' actors top w h r
advance p ex actors top n dialogue_integration node' s s' w h r =
    dialogue_integration-Advance p ex n node' s s' w h r
advance p ex actors top n critique node' s s' w h r = critique-Advance p ex n node' s s' w h r
advance p ex actors top n continuity node' s s' w h r = continuity-Advance p ex n node' s s' w h r
advance p ex actors top n critic_adjudication node' s s' w h r =
    critic_adjudication-Advance p ex n node' s s' w h r
advance p ex actors top n continuity_adjudication node' s s' w h r =
    continuity_adjudication-Advance p ex n node' s s' w h r
advance p ex actors top n story_bible_update node' s s' w h r =
    story_bible_update-Advance p ex n node' s s' w h r
advance p ex actors top n accept node' s s' w h r = accept-Advance p ex n node' s s' w h r

-- The subgraph's run fits the limit that it is given.
avoid_dialogue_pass :
    (actors : DialogueExecutor) (top n : ℕ) (s : ProductionState)
    → Ready dialogue_pass s
    → max_graph_steps s.production ≤ top
    → Avoids (dialogue_pass_node actors top n s)
unfolding dialogue_pass_node Ready dialogue_outcome
avoid_dialogue_pass actors top n s (old, scene, set, some_round, fits) le =
    let fine = run_dialogue-ne-recursion_limit actors top n old scene some_round (omega arith) in
    record {
      spares = λ e h.
          elim (Result-cases
            (run_dialogue actors top n director_briefing (initial_dialogue_state old scene))) [
              | inl (DialogueError.recursion_limit, he) ↦ absurd (fine he)
              | inl (e', he) ↦ ground (arith, set, he)
              | inr (d, hd) ↦ ground (arith, set, hd)
            ];
    }

own :
    (p : SceneProductionInput) (ex : SceneProductionExecutor) (actors : DialogueExecutor)
    (top n : ℕ) (node : ProductionNode) (s : ProductionState)
    → max_graph_steps p ≤ top
    → Within p node s
    → Avoids (node_step ex actors top n node s)
unfolding node_step Ready
own p ex actors top n draft s le w = avoid_draft ex n s
own p ex actors top n dialogue_pass s le w =
    avoid_dialogue_pass actors top n s w.ready
      (subst (λ q. max_graph_steps q ≤ top) (sym w.same) le)
own p ex actors top n dialogue_integration s le w = avoid_dialogue_integration ex n s
own p ex actors top n critique s le w = avoid_critique ex n s
own p ex actors top n continuity s le w = avoid_continuity ex n s
own p ex actors top n critic_adjudication s le w = avoid_critic_adjudication ex n s w.ready
own p ex actors top n continuity_adjudication s le w = avoid_continuity_adjudication ex n s w.ready
own p ex actors top n story_bible_update s le w = avoid_story_bible_update ex n s
own p ex actors top n accept s le w = avoid_accept ex n s

remaining_pos : (node : ProductionNode) (s : ProductionState) → 0 < remaining node s
unfolding remaining
remaining_pos draft s = omega arith
remaining_pos dialogue_pass s = omega arith
remaining_pos dialogue_integration s = omega arith
remaining_pos critique s = omega arith
remaining_pos continuity s = omega arith
remaining_pos critic_adjudication s = omega arith
remaining_pos continuity_adjudication s = omega arith
remaining_pos story_bible_update s = omega arith
remaining_pos accept s = omega arith

has_first : {A : Type 0} (xs : List A) → 1 ≤ length xs → (x : A) × (ys : List A) × (xs ≡ x ∷ ys)
has_first [] h = ground arith
has_first (x ∷ xs) h = (x, xs, refl)

-- A valid assignment has a first unit, and its initial measure is the envelope.
initial_remaining :
    (p : SceneProductionInput)
    → production_valid p ≡ true
    → remaining draft (initial_production_state p) ≤ max_graph_steps p
unfolding remaining initial_production_state max_graph_steps attempt
initial_remaining p valid =
    let some_units : 1 ≤ length p.units = unfold production_valid in ground arith in
    let (unit, units, e) = has_first p.units some_units in
    let all_left : p.maximum_revision_cycles - 0 ≡ p.maximum_revision_cycles = omega arith in
    rw (e, all_left)
      (omega (
        arith,
        one_more p.maximum_revision_cycles (3 + dialogue_steps unit.dialogue_configuration),
      ))

initial-Within : (p : SceneProductionInput) → Within p draft (initial_production_state p)
unfolding initial_production_state Ready
initial-Within p = record { same = refl; bounded = omega arith; ready = tt }

module _ (p : SceneProductionInput) (ex : SceneProductionExecutor) (actors : DialogueExecutor)
    (top : ℕ) where
  -- An error that no node raises is none of a run.
  pub produce-ne-unreachable :
      (e : ProductionError)
      → is_unreachable e ≡ true
      → ProductionError.recursion_limit ≢ e
      → max_graph_steps p ≤ top
      → produce ex actors top (initial_production_state p) ≢ raise e
  unfolding produce
  produce-ne-unreachable e known other le =
      run-ne-error (node_step ex actors top) route ProductionError.recursion_limit (Within p) e
        other (λ n node node' s s' w h r. (advance p ex actors top n node node' s s' w h r).0)
        (λ n node s w h. cc ((own p ex actors top n node s le w).spares e h, known)) top 0 draft _
        (initial-Within p)

  -- A production run from the initial state of a valid assignment, under a limit on steps of at least
  -- `max_graph_steps`, reaches neither its own limit on steps nor that of a dialogue subgraph in it: it
  -- returns, or it raises an error of a node or of an executor.
  pub produce-ne-recursion_limit :
      production_valid p ≡ true
      → max_graph_steps p ≤ top
      → (produce ex actors top (initial_production_state p) ≢ raise ProductionError.recursion_limit)
        × (produce ex actors top (initial_production_state p)
            ≢ raise (ProductionError.dialogue_failed DialogueError.recursion_limit))
  unfolding produce
  produce-ne-recursion_limit valid le = (
    run-ne-limit (node_step ex actors top) route ProductionError.recursion_limit (Within p)
        remaining (λ n node node' s s' w h r. (advance p ex actors top n node node' s s' w h r).0)
        (λ n node node' s s' w h r. (advance p ex actors top n node node' s s' w h r).1)
        (λ node s w. remaining_pos node s)
        (λ n node s w h. cc ((own p ex actors top n node s le w).spares _ h)) top 0 draft _
        (initial-Within p) (omega (arith, initial_remaining p valid)),
    produce-ne-unreachable (ProductionError.dialogue_failed DialogueError.recursion_limit) refl
        (λ h. cc h) le,
  )

  -- In a production run from the initial state of an assignment, under a limit on steps of at least
  -- `max_graph_steps`, the gates of the two adjudications always hold when their nodes are reached: a
  -- continuity check opens an adjudication only in its terminal conditions.
  pub produce-ne-not_terminal :
      max_graph_steps p ≤ top
      → (produce ex actors top (initial_production_state p)
          ≢ raise ProductionError.critic_adjudication_not_terminal)
        × (produce ex actors top (initial_production_state p)
            ≢ raise ProductionError.adjudication_not_terminal)
  produce-ne-not_terminal le = (
    produce-ne-unreachable ProductionError.critic_adjudication_not_terminal refl (λ h. cc h) le,
    produce-ne-unreachable ProductionError.adjudication_not_terminal refl (λ h. cc h) le,
  )
