-- ===== src/Dialogue/Nodes.antt =====
-- The nodes of dialogue_graph.py. The checkpoint is kept in its decoded form: a reference is an
-- `ArtifactReference`, and a key that may be absent is an `Option`.
use open_hollywood.Prelude.{
  ℕ, ◌+◌, ◌-◌, ◌*◌, Bool, true, false, Option, none, some, List, [], ◌∷◌, ◌++◌, map, ◌&&◌, ◌||◌,
  not, ◌==◌, nat_eq, string_eq, elem, leb, Result, ok, raise, ◌>>=◌, ◌>>◌, guard, length, opt_list,
  nat_beq, if◌then◌else◌, is_some, all,
}
use open_hollywood.Artifacts.{
  ArtifactKind, ArtifactReference, kind_eq, dialogue_briefing, dialogue_turn, dialogue_evaluation,
  EmotionalArcStage, climax, resolution,
}
use open_hollywood.Dialogue.Contracts.{
  DialogueSceneInput, dialogue_character_valid, DialogueCompletionReason, director_ended,
  maximum_rounds, DirectorBriefingResult, CharacterTurnTask, CharacterTurnResult,
  DirectorEvaluationTask, DirectorEvaluationResult, DialogueSceneResult, DialogueError,
  DialogueExecutor, scene_input_valid,
}
use open_hollywood.Models.{call_budget_valid}

-- `DialogueGraphState`
pub record DialogueState : Type 0 where
  pub scene : DialogueSceneInput
  pub current_round : ℕ
  pub briefing_artifact : Option ArtifactReference
  pub dialogue_turn_artifacts : List ArtifactReference
  pub evaluation_artifacts : List ArtifactReference
  pub completion_reason : Option DialogueCompletionReason

-- `initial_dialogue_state`, merged into the checkpoint that there is: the keys `briefing_artifact` and
-- `completion_reason` are not among those that it sets.
unfoldable pub initial_dialogue_state : Option DialogueState → DialogueSceneInput → DialogueState
initial_dialogue_state none scene = record {
  scene = scene;
  current_round = 1;
  briefing_artifact = none;
  dialogue_turn_artifacts = [];
  evaluation_artifacts = [];
  completion_reason = none;
}
initial_dialogue_state (some old) scene = record {
  scene = scene;
  current_round = 1;
  briefing_artifact = old.briefing_artifact;
  dialogue_turn_artifacts = [];
  evaluation_artifacts = [];
  completion_reason = old.completion_reason;
}

-- `dialogue_result_from_state`
unfoldable pub dialogue_result_from_state : DialogueState → Result DialogueError DialogueSceneResult
dialogue_result_from_state s = elim s.completion_reason [
  | none ↦ raise DialogueError.not_complete
  | some reason ↦ elim s.briefing_artifact [
    | none ↦ raise DialogueError.not_complete
    | some briefing ↦ ok (record {
      scene_id = s.scene.scene_id;
      briefing_artifact = briefing;
      dialogue_turn_artifacts = s.dialogue_turn_artifacts;
      evaluation_artifacts = s.evaluation_artifacts;
      rounds_completed = length s.evaluation_artifacts;
      completion_reason = reason;
    })
  ]
]

abbrev pub lift {ℓ} : {A : Type ℓ} → Result ℕ A → Result DialogueError A
lift (ok a) = ok a
lift (raise e) = raise (DialogueError.executor_failed e)

-- `_scene_from_state`: the assignment is validated each time it is read.
unfoldable pub scene_from_state : DialogueState → Result DialogueError DialogueSceneInput
scene_from_state s = do
  guard
      (call_budget_valid s.scene.call_budget
        && dialogue_character_valid s.scene.first
        && dialogue_character_valid s.scene.second
        && scene_input_valid s.scene)
      DialogueError.invalid_scene_input
  ok s.scene

-- `_briefing_reference`
abbrev pub briefing_reference : DialogueState → Result DialogueError ArtifactReference
briefing_reference s = elim s.briefing_artifact [
  | none ↦ raise DialogueError.missing_briefing
  | some r ↦ ok r
]

-- `_require_artifact_kind`
abbrev pub require_artifact_kind :
    ArtifactReference → ArtifactKind → Result DialogueError (Unit {0})
require_artifact_kind reference expected =
    guard (reference.kind == expected) DialogueError.wrong_kind

-- `_require_new_version`
abbrev pub require_new_version :
    ArtifactReference → List ArtifactReference → Result DialogueError (Unit {0})
require_new_version output inputs =
    guard (not (elem output.version_id (map (λ r. r.version_id) inputs)))
      DialogueError.reused_version

-- `_validate_briefing`
unfoldable pub validate_briefing :
    DialogueSceneInput → DirectorBriefingResult → Result DialogueError (Unit {0})
validate_briefing scene result = do
  require_artifact_kind result.artifact dialogue_briefing
  require_new_version result.artifact (
      scene.scene_plan_artifact ∷ scene.first.artifact ∷ scene.second.artifact
      ∷ scene.context_artifacts)
  guard (elem result.briefing.chosen_ending scene.ending_options) DialogueError.undeclared_ending

-- `_validate_turn`
unfoldable pub validate_turn :
    CharacterTurnTask → CharacterTurnResult → Result DialogueError (Unit {0})
validate_turn task result = do
  require_artifact_kind result.artifact dialogue_turn
  require_new_version result.artifact
      (task.briefing_artifact ∷ (task.dialogue_history ++ opt_list task.previous_evaluation))
  guard
      (result.turn.scene_id == task.scene.scene_id
        && result.turn.character_id == task.character.character_id
        && result.turn.round_number == task.round_number
        && result.turn.sequence_number == task.sequence_number)
      DialogueError.turn_mismatch

-- `_validate_evaluation`
unfoldable pub validate_evaluation :
    DirectorEvaluationTask → DirectorEvaluationResult → Result DialogueError (Unit {0})
validate_evaluation task result = do
  require_artifact_kind result.artifact dialogue_evaluation
  require_new_version result.artifact
      (task.briefing_artifact ∷ (task.dialogue_history ++ opt_list task.previous_evaluation))
  guard (result.evaluation.round_number == task.round_number) DialogueError.round_mismatch
  guard
      (all (λ ending. elem ending task.scene.ending_options)
        (opt_list result.evaluation.ending_type))
      DialogueError.undeclared_ending
  guard (not result.evaluation.scene_end || is_some result.evaluation.ending_type)
      DialogueError.unnamed_ending

-- `evaluations[-1] if evaluations else None`
abbrev pub last : List ArtifactReference → Option ArtifactReference
last [] = none
last (x ∷ []) = some x
last (x ∷ y ∷ xs) = last (y ∷ xs)

-- `_briefing_node`
unfoldable pub briefing_node :
    DialogueExecutor → ℕ → DialogueState → Result DialogueError DialogueState
briefing_node ex n s = do
  scene ← scene_from_state s
  result ← lift (ex.brief n (record { scene = scene }))
  validate_briefing scene result
  ok (record s { briefing_artifact = some result.artifact })

-- The assignment of one actor's turn.
unfoldable pub character_task :
    Bool → DialogueSceneInput → ArtifactReference → DialogueState → CharacterTurnTask
character_task second scene briefing s = record {
  scene = scene;
  character = if second then scene.second else scene.first;
  round_number = s.current_round;
  sequence_number = length s.dialogue_turn_artifacts + 1;
  briefing_artifact = briefing;
  dialogue_history = s.dialogue_turn_artifacts;
  previous_evaluation = last s.evaluation_artifacts;
}

-- The turns and the evaluations that there must be before an actor's turn.
unfoldable pub is_actor_turn : Bool → DialogueState → Bool
is_actor_turn second s =
    nat_beq (length s.dialogue_turn_artifacts)
      ((s.current_round - 1) * 2 + (if second then 1 else 0))
    && nat_beq (length s.evaluation_artifacts) (s.current_round - 1)

-- `_character_node`; the second actor's index is 1.
unfoldable pub character_node :
    DialogueExecutor → ℕ → Bool → DialogueState → Result DialogueError DialogueState
character_node ex n second s = do
  scene ← scene_from_state s
  briefing ← briefing_reference s
  guard (is_actor_turn second s) DialogueError.invalid_actor_sequence
  let task = character_task second scene briefing s
  result ← lift (ex.perform n task)
  validate_turn task result
  ok (record s { dialogue_turn_artifacts = s.dialogue_turn_artifacts ++ result.artifact ∷ [] })

abbrev pub is_ending_stage : EmotionalArcStage → Bool
is_ending_stage climax = true
is_ending_stage resolution = true
is_ending_stage _ = false

-- What the director's node writes beside the new evaluation.
unfoldable pub close_round :
    DialogueSceneInput → ℕ → DirectorEvaluationResult → DialogueState → DialogueState
close_round scene round_number result s =
    if leb scene.minimum_rounds round_number
      && result.evaluation.scene_end
      && result.evaluation.closure_detected
      && is_ending_stage result.evaluation.emotional_arc
    then record s { completion_reason = some director_ended }
    else if leb scene.maximum_rounds round_number
    then record s { completion_reason = some maximum_rounds }
    else record s { current_round = round_number + 1 }

-- The assignment of the director at the end of a round.
unfoldable pub director_task :
    DialogueSceneInput → ArtifactReference → DialogueState → DirectorEvaluationTask
director_task scene briefing s = record {
  scene = scene;
  round_number = s.current_round;
  briefing_artifact = briefing;
  dialogue_history = s.dialogue_turn_artifacts;
  previous_evaluation = last s.evaluation_artifacts;
}

-- The turns and the evaluations that there must be before the director's.
unfoldable pub is_round_complete : DialogueState → Bool
is_round_complete s =
    nat_beq (length s.dialogue_turn_artifacts) (s.current_round * 2)
    && nat_beq (length s.evaluation_artifacts) (s.current_round - 1)

-- `_director_node`
unfoldable pub director_node :
    DialogueExecutor → ℕ → DialogueState → Result DialogueError DialogueState
director_node ex n s = do
  scene ← scene_from_state s
  guard (is_round_complete s) DialogueError.incomplete_round
  briefing ← briefing_reference s
  let task = director_task scene briefing s
  result ← lift (ex.evaluate n task)
  validate_evaluation task result
  ok (
      close_round scene s.current_round result
        (record s { evaluation_artifacts = s.evaluation_artifacts ++ result.artifact ∷ [] }))
