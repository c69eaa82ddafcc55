-- ===== src/Dialogue/Outcome.antt =====
-- How many rounds a dialogue has when it completes.
use open_hollywood.Prelude.{
  run_inv, false, ℕ, ◌*◌, ◌≤◌, ◌≡◌, refl, true, none, some, [], ◌∷◌, arith, ok, length,
  length-append, is_some,
}
use open_hollywood.Dialogue.Contracts.{
  DialogueError, DialogueExecutor, DialogueSceneInput, DialogueNode, director_briefing,
  character_one, character_two, director_evaluation,
}
use open_hollywood.Dialogue.Nodes.{DialogueState, close_round, initial_dialogue_state}
use open_hollywood.Dialogue.Graph.{node_step, route, run_dialogue}
use open_hollywood.Dialogue.Steps.{
  briefing_node-Briefed, character_node-Spoken, director_node-Directed,
}

-- What a completed dialogue holds.
pub record Completed (scene : DialogueSceneInput) (s : DialogueState) : Type 0 where
  pub same_scene : s.scene ≡ scene
  pub enough : scene.minimum_rounds ≤ length s.evaluation_artifacts
  pub bounded : length s.evaluation_artifacts ≤ scene.maximum_rounds
  pub two_turns : length s.dialogue_turn_artifacts ≡ length s.evaluation_artifacts * 2
  pub complete : is_some s.completion_reason ≡ true

-- A first dialogue: no completion has been recorded yet.
record Fresh (scene : DialogueSceneInput) (s : DialogueState) : Type 0 where
  same_scene : s.scene ≡ scene
  started : 1 ≤ s.current_round
  bounded : s.current_round ≤ scene.maximum_rounds
  open_ended : s.completion_reason ≡ none

module _ (ex : DialogueExecutor) (scene : DialogueSceneInput) where
  Fresh-step :
      (n : ℕ) (node node' : DialogueNode) (s s' : DialogueState)
      → Fresh scene s
      → node_step ex n node s ≡ ok s'
      → route node s' ≡ some node'
      → Fresh scene s'
  unfolding node_step
  Fresh-step n director_briefing node' s s' p h r =
      let b = briefing_node-Briefed ex n s s' h in ground (arith, b.result)
  Fresh-step n character_one node' s s' p h r =
      let b = character_node-Spoken ex n s s' false h in ground (arith, b.result)
  Fresh-step n character_two node' s s' p h r =
      let b = character_node-Spoken ex n s s' true h in ground (arith, b.result)
  Fresh-step n director_evaluation node' s s' p h r =
      let b = director_node-Directed ex n s s' h in
      unfold close_round route in ground (arith, b.result)

  Fresh-end :
      (n : ℕ) (node : DialogueNode) (s s' : DialogueState)
      → Fresh scene s
      → node_step ex n node s ≡ ok s'
      → route node s' ≡ none
      → Completed scene s'
  unfolding node_step route
  Fresh-end n director_evaluation s s' p h r =
      let b = director_node-Directed ex n s s' h in
      let grown = length-append s.evaluation_artifacts (b.output.artifact ∷ []) in
      unfold close_round in ground (arith, b.result, grown)
  Fresh-end n _ s s' p h r = ground arith

  -- A first dialogue that completes has had at least the minimum and at most the maximum number of
  -- rounds, two turns in each, under the assignment that it began with, and records why it ended.
  -- At least one round must be allowed.
  pub run_dialogue-Completed :
      (limit n : ℕ) {t : DialogueState}
      → 1 ≤ scene.maximum_rounds
      → run_dialogue ex limit n director_briefing (initial_dialogue_state none scene) ≡ ok t
      → Completed scene t
  unfolding initial_dialogue_state
  run_dialogue-Completed limit n some_round h =
      run_inv (node_step ex) route DialogueError.recursion_limit (λ node s. Fresh scene s)
        (Completed scene) Fresh-step Fresh-end limit n director_briefing _
        (record {
          same_scene = refl;
          started = omega arith;
          bounded = some_round;
          open_ended = refl;
        })
        h

-- A later dialogue: the checkpoint still holds the reason for which an earlier one completed.
record Stale (s : DialogueState) : Type 0 where
  first_round : s.current_round ≡ 1
  recorded : is_some s.completion_reason ≡ true

module _ (ex : DialogueExecutor) where
  Stale-step :
      (n : ℕ) (node node' : DialogueNode) (s s' : DialogueState)
      → Stale s
      → node_step ex n node s ≡ ok s'
      → route node s' ≡ some node'
      → Stale s'
  unfolding node_step
  Stale-step n director_briefing node' s s' p h r =
      let b = briefing_node-Briefed ex n s s' h in ground (arith, b.result)
  Stale-step n character_one node' s s' p h r =
      let b = character_node-Spoken ex n s s' false h in ground (arith, b.result)
  Stale-step n character_two node' s s' p h r =
      let b = character_node-Spoken ex n s s' true h in ground (arith, b.result)
  Stale-step n director_evaluation node' s s' p h r =
      let b = director_node-Directed ex n s s' h in
      unfold close_round route in ground (arith, b.result)

  Stale-end :
      (n : ℕ) (node : DialogueNode) (s s' : DialogueState)
      → Stale s
      → node_step ex n node s ≡ ok s'
      → route node s' ≡ none
      → length s'.evaluation_artifacts ≡ 1
  unfolding node_step route
  Stale-end n director_evaluation s s' p h r =
      let b = director_node-Directed ex n s s' h in
      let grown = length-append s.evaluation_artifacts (b.output.artifact ∷ []) in
      unfold close_round in ground (arith, b.result, grown)
  Stale-end n _ s s' p h r = ground arith

  -- A dialogue that starts from a checkpoint in which an earlier one recorded its completion ends after
  -- its first round, whatever minimum is configured and whatever the director answers: the reason
  -- recorded before is still there, and the route after the director reads it.
  pub run_dialogue_stale :
      (limit n : ℕ) (old : DialogueState) (scene : DialogueSceneInput) {t : DialogueState}
      → is_some old.completion_reason ≡ true
      → run_dialogue ex limit n director_briefing (initial_dialogue_state (some old) scene) ≡ ok t
      → length t.evaluation_artifacts ≡ 1
  unfolding initial_dialogue_state
  run_dialogue_stale limit n old scene e h =
      run_inv (node_step ex) route DialogueError.recursion_limit (λ node s. Stale s)
        (λ t. length t.evaluation_artifacts ≡ 1) Stale-step Stale-end limit n director_briefing _
        (record { first_round = refl; recorded = e }) h
