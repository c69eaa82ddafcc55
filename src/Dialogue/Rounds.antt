-- ===== src/Dialogue/Rounds.antt =====
-- The dialogue subgraph ends, within its envelope and after an allowed number of rounds.
use open_hollywood.Dialogue.Steps.{
  director_node-Directed, character_node-Spoken, briefing_node-Briefed,
}
use open_hollywood.Prelude.{
  run-ne-limit, none, some, Option, subst, [], ◌∷◌, ◌++◌, true, false, raise, ◌≢◌, ok, ℕ, ◌+◌, ◌-◌,
  ◌*◌, ◌≤◌, ◌<◌, ◌≡◌, some, arith,
}
use open_hollywood.Dialogue.Contracts.{
  dialogue_max_graph_steps, DialogueError, DialogueExecutor, DialogueSceneInput,
  DirectorEvaluationResult, DialogueNode, director_briefing, character_one, character_two,
  director_evaluation,
}
use open_hollywood.Dialogue.Nodes.{
  initial_dialogue_state, validate_evaluation, validate_turn, validate_briefing, scene_from_state,
  director_node, character_node, briefing_node, DialogueState, close_round,
}
use open_hollywood.Dialogue.Graph.{run_dialogue, node_step, route}

-- The steps that a run may still take from a node.
remaining : DialogueNode → DialogueState → ℕ
remaining director_briefing s = 1 + (s.scene.maximum_rounds + 1 - s.current_round) * 3
remaining character_one s = (s.scene.maximum_rounds + 1 - s.current_round) * 3
remaining character_two s = (s.scene.maximum_rounds + 1 - s.current_round) * 3 - 1
remaining director_evaluation s = (s.scene.maximum_rounds + 1 - s.current_round) * 3 - 2

record InRounds (node : DialogueNode) (s : DialogueState) : Type 0 where
  started : 1 ≤ s.current_round
  bounded : s.current_round ≤ s.scene.maximum_rounds

-- The director's node keeps the assignment, and goes on only to a round that is allowed.
close_round_next :
    (scene : DialogueSceneInput) (r : ℕ) (result : DirectorEvaluationResult) (base : DialogueState)
    (node' : DialogueNode)
    → route director_evaluation (close_round scene r result base) ≡ some node'
    → (node' ≡ character_one)
      × (r < scene.maximum_rounds)
      × ((close_round scene r result base).current_round ≡ r + 1)
      × ((close_round scene r result base).scene ≡ base.scene)
unfolding close_round route
close_round_next scene r result base node' h = ground arith

-- The node that follows, and what it finds: the measure falls and the bounds on the round hold.
record Advance (node node' : DialogueNode) (s s' : DialogueState) : Type 0 where
  keeps : InRounds node' s'
  falls : remaining node' s' < remaining node s

advance :
    (ex : DialogueExecutor) (n : ℕ) (node node' : DialogueNode) (s s' : DialogueState)
    → InRounds node s
    → node_step ex n node s ≡ ok s'
    → route node s' ≡ some node'
    → Advance node node' s s'
unfolding node_step route remaining
advance ex n director_briefing node' s s' p h r =
    let b = briefing_node-Briefed ex n s s' h in ground (arith, b.result)
advance ex n character_one node' s s' p h r =
    let b = character_node-Spoken ex n s s' false h in ground (arith, b.result)
advance ex n character_two node' s s' p h r =
    let b = character_node-Spoken ex n s s' true h in ground (arith, b.result)
advance ex n director_evaluation node' s s' p h r =
    let b = director_node-Directed ex n s s' h in
    let c =
      close_round_next s.scene s.current_round b.output
        (record s { evaluation_artifacts = s.evaluation_artifacts ++ b.output.artifact ∷ [] }) node'
        (subst (λ x. route director_evaluation x ≡ some node') b.result r) in
    ground (arith, b.result, c)

own_errors :
    (ex : DialogueExecutor) (n : ℕ) (node : DialogueNode) (s : DialogueState)
    → node_step ex n node s ≢ raise DialogueError.recursion_limit
unfolding node_step briefing_node character_node director_node scene_from_state validate_briefing
    validate_turn validate_evaluation
own_errors ex n director_briefing s h = ground arith
own_errors ex n character_one s h = ground arith
own_errors ex n character_two s h = ground arith
own_errors ex n director_evaluation s h = ground arith

remaining_pos : (node : DialogueNode) (s : DialogueState) → InRounds node s → 0 < remaining node s
unfolding remaining
remaining_pos director_briefing s p = omega arith
remaining_pos _ s p = omega arith

-- From the state that a draft sets up, whatever the checkpoint held before, a dialogue run whose limit
-- on steps is at least `max_graph_steps` does not reach that limit, provided that at least one round is
-- allowed: it returns, or it raises one of the nodes' own errors or an executor's failure.
pub run_dialogue-ne-recursion_limit :
    (ex : DialogueExecutor) (limit n : ℕ) (old : Option DialogueState) (scene : DialogueSceneInput)
    → 1 ≤ scene.maximum_rounds
    → dialogue_max_graph_steps scene ≤ limit
    → run_dialogue ex limit n director_briefing (initial_dialogue_state old scene)
      ≢ raise DialogueError.recursion_limit
unfolding initial_dialogue_state remaining dialogue_max_graph_steps
run_dialogue-ne-recursion_limit ex limit n none scene some_round le =
    run-ne-limit (node_step ex) route DialogueError.recursion_limit InRounds remaining
      (λ n node node' s s' p h r. (advance ex n node node' s s' p h r).keeps)
      (λ n node node' s s' p h r. (advance ex n node node' s s' p h r).falls) remaining_pos
      (λ n node s _. own_errors ex n node s) limit n director_briefing _
      (record { started = omega arith; bounded = some_round }) (omega arith)
run_dialogue-ne-recursion_limit ex limit n (some old) scene some_round le =
    run-ne-limit (node_step ex) route DialogueError.recursion_limit InRounds remaining
      (λ n node node' s s' p h r. (advance ex n node node' s s' p h r).keeps)
      (λ n node node' s s' p h r. (advance ex n node node' s s' p h r).falls) remaining_pos
      (λ n node s _. own_errors ex n node s) limit n director_briefing _
      (record { started = omega arith; bounded = some_round }) (omega arith)
