-- ===== src/Dialogue/Contracts.antt =====
-- dialogue_contracts.py: the assignment, the tasks and results of the executor, and the errors.
use open_hollywood.Prelude.{
  nat_beq, ℕ, ◌+◌, ◌*◌, String, Bool, Option, List, [], ◌∷◌, map, ◌&&◌, not, ◌==◌, nat_eq,
  string_eq, is_unique, is_blank, any, leb, Result, length,
}
use open_hollywood.Artifacts.{
  ArtifactReference, character, scene_plan, DialogueBriefing, DialogueTurn, DialogueEvaluation,
  kind_eq,
}
use open_hollywood.Models.{ModelCallBudget}

abbrev pub default_max_dialogue_rounds : ℕ
default_max_dialogue_rounds = 30

pub data DialogueNode : Type 0 where
  director_briefing character_one character_two director_evaluation : DialogueNode

pub data DialogueCompletionReason : Type 0 where
  director_ended maximum_rounds : DialogueCompletionReason

pub record DialogueCharacterReference : Type 0 where
  pub character_id : String
  pub artifact : ArtifactReference

-- `DialogueCharacterReference.__post_init__`
abbrev pub dialogue_character_valid : DialogueCharacterReference → Bool
dialogue_character_valid c = not (is_blank c.character_id) && c.artifact.kind == character

pub record DialogueSceneInput : Type 0 where
  pub workflow_run_id : ℕ
  pub model_profile_id : ℕ
  pub scene_id : String
  pub scene_plan_artifact : ArtifactReference
  pub first : DialogueCharacterReference
  pub second : DialogueCharacterReference
  pub context_artifacts : List ArtifactReference
  pub ending_options : List String
  pub call_budget : ModelCallBudget
  pub prompt_template_version : String
  pub minimum_rounds : ℕ
  pub maximum_rounds : ℕ

-- `_require_unique_text`
abbrev pub unique_text : List String → Bool
unique_text values =
    not (nat_beq (length values) 0) && not (any is_blank values) && is_unique values

abbrev pub scene_references : DialogueSceneInput → List ArtifactReference
scene_references s =
    s.scene_plan_artifact ∷ s.first.artifact ∷ s.second.artifact ∷ s.context_artifacts

-- `DialogueSceneInput.__post_init__`
abbrev pub scene_input_valid : DialogueSceneInput → Bool
scene_input_valid s =
    not (is_blank s.scene_id)
    && not (is_blank s.prompt_template_version)
    && s.scene_plan_artifact.kind == scene_plan
    && is_unique (s.first.character_id ∷ s.second.character_id ∷ [])
    && is_unique (s.first.artifact.version_id ∷ s.second.artifact.version_id ∷ [])
    && leb 1 s.minimum_rounds
    && leb s.minimum_rounds s.maximum_rounds
    && leb s.maximum_rounds default_max_dialogue_rounds
    && unique_text s.ending_options
    && is_unique (map (λ r. r.version_id) (scene_references s))

-- `DialogueSceneInput.max_graph_steps`
unfoldable pub dialogue_max_graph_steps : DialogueSceneInput → ℕ
dialogue_max_graph_steps s = 1 + s.maximum_rounds * 3

pub record DirectorBriefingTask : Type 0 where
  pub scene : DialogueSceneInput

pub record DirectorBriefingResult : Type 0 where
  pub briefing : DialogueBriefing
  pub artifact : ArtifactReference

pub record CharacterTurnTask : Type 0 where
  pub scene : DialogueSceneInput
  pub character : DialogueCharacterReference
  pub round_number : ℕ
  pub sequence_number : ℕ
  pub briefing_artifact : ArtifactReference
  pub dialogue_history : List ArtifactReference
  pub previous_evaluation : Option ArtifactReference

pub record CharacterTurnResult : Type 0 where
  pub turn : DialogueTurn
  pub artifact : ArtifactReference

pub record DirectorEvaluationTask : Type 0 where
  pub scene : DialogueSceneInput
  pub round_number : ℕ
  pub briefing_artifact : ArtifactReference
  pub dialogue_history : List ArtifactReference
  pub previous_evaluation : Option ArtifactReference

pub record DirectorEvaluationResult : Type 0 where
  pub evaluation : DialogueEvaluation
  pub artifact : ArtifactReference

pub record DialogueSceneResult : Type 0 where
  pub scene_id : String
  pub briefing_artifact : ArtifactReference
  pub dialogue_turn_artifacts : List ArtifactReference
  pub evaluation_artifacts : List ArtifactReference
  pub rounds_completed : ℕ
  pub completion_reason : DialogueCompletionReason

-- The messages of `DialogueStateError`; `executor_failed` for what an executor raises, and
-- `recursion_limit` for the graph runtime's own limit on steps.
pub data DialogueError : Type 0 where
  invalid_scene_input missing_briefing invalid_actor_sequence incomplete_round : DialogueError
  wrong_kind reused_version undeclared_ending turn_mismatch round_mismatch unnamed_ending :
      DialogueError
  not_complete recursion_limit : DialogueError
  executor_failed : ℕ → DialogueError

-- `DialogueSubgraphExecutor`. The number tells an answer's place in the run, so that an executor may
-- answer equal tasks differently; a failure is a code.
pub record DialogueExecutor : Type 0 where
  pub brief : ℕ → DirectorBriefingTask → Result ℕ DirectorBriefingResult
  pub perform : ℕ → CharacterTurnTask → Result ℕ CharacterTurnResult
  pub evaluate : ℕ → DirectorEvaluationTask → Result ℕ DirectorEvaluationResult
