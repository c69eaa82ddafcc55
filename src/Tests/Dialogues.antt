-- ===== src/Tests/Dialogues.antt =====
-- Runs of the dialogue subgraph.
use open_hollywood.Dialogue.{
  DialogueError, DialogueState, director_briefing, initial_dialogue_state, run_dialogue, node_step,
  route, briefing_node, character_node, director_node, close_round, is_actor_turn,
  is_round_complete, scene_from_state, validate_briefing, validate_turn, validate_evaluation,
  character_task, director_task, dialogue_max_graph_steps,
}
use open_hollywood.Dialogue.Outcome.{Completed, run_dialogue-Completed, run_dialogue_stale}
use open_hollywood.Dialogue.Rounds.{run_dialogue-ne-recursion_limit}
use open_hollywood.Prelude.{
  is_blank, ◌≤◌, ◌≡◌, ◌≢◌, refl, true, none, some, arith, Result, ok, raise, string_eq, nat_eq,
  length, run, is_some,
}
use open_hollywood.Tests.Samples.{actors, quarrel}

abbrev spoken : Result DialogueError DialogueState → DialogueState
spoken (ok s) = s
spoken (raise e) = initial_dialogue_state none quarrel

abbrev ended : DialogueState
ended = spoken (run_dialogue actors 7 0 director_briefing (initial_dialogue_state none quarrel))

ends : run_dialogue actors 7 0 director_briefing (initial_dialogue_state none quarrel) ≡ ok ended
unfolding run node_step route initial_dialogue_state briefing_node character_node director_node
    close_round is_actor_turn is_round_complete scene_from_state validate_briefing validate_turn
    validate_evaluation character_task director_task is_blank
ends = refl

run_dialogue-Completed_example : Completed quarrel ended
run_dialogue-Completed_example = run_dialogue-Completed actors quarrel 7 0 (omega arith) ends

fits : dialogue_max_graph_steps quarrel ≤ 7
unfolding dialogue_max_graph_steps
fits = omega arith

run_dialogue-ne-recursion_limit_example :
    run_dialogue actors 7 0 director_briefing (initial_dialogue_state (some ended) quarrel)
    ≢ raise DialogueError.recursion_limit
run_dialogue-ne-recursion_limit_example =
    run_dialogue-ne-recursion_limit actors 7 0 (some ended) quarrel (omega arith) fits

-- The same dialogue again, in a checkpoint in which the first one has completed.
abbrev ended_again : DialogueState
ended_again =
    spoken (run_dialogue actors 7 0 director_briefing (initial_dialogue_state (some ended) quarrel))

ends_again :
    run_dialogue actors 7 0 director_briefing (initial_dialogue_state (some ended) quarrel)
    ≡ ok ended_again
unfolding run node_step route initial_dialogue_state briefing_node character_node director_node
    close_round is_actor_turn is_round_complete scene_from_state validate_briefing validate_turn
    validate_evaluation character_task director_task is_blank
ends_again = refl

completed_before : is_some ended.completion_reason ≡ true
unfolding run node_step route initial_dialogue_state briefing_node character_node director_node
    close_round is_actor_turn is_round_complete scene_from_state validate_briefing validate_turn
    validate_evaluation character_task director_task is_blank
completed_before = refl

run_dialogue_stale_example : length ended_again.evaluation_artifacts ≡ 1
run_dialogue_stale_example = run_dialogue_stale actors 7 0 ended quarrel completed_before ends_again
