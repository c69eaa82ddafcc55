-- ===== src/Production/Contracts.antt =====
-- production_contracts.py: the assignment, the tasks and results of the executor, and the errors.
use open_hollywood.Prelude.{ℕ, String, Bool, Option, List, [], ◌∷◌, Result}
use open_hollywood.Artifacts.{
  ArtifactReference, SceneDraft, Critique, ContinuityReport, StoryBible, StoryBibleUpdate,
}
use open_hollywood.Artifacts.BibleRules.{SchemaError}
use open_hollywood.Models.{ModelCallBudget}
use open_hollywood.StoryBible.{ReduceError}
use open_hollywood.Dialogue.{DialogueSceneResult, DialogueError}

abbrev pub default_max_revision_cycles : ℕ
default_max_revision_cycles = 2

abbrev pub max_revision_cycles : ℕ
max_revision_cycles = 5

abbrev pub min_production_units : ℕ
min_production_units = 3

abbrev pub max_production_units : ℕ
max_production_units = 8

abbrev pub adjudicable_critic_categories : List String
adjudicable_critic_categories =
    "scene_assignment:point_of_view_character_id" ∷ "scene_assignment:assigned_character_ids"
    ∷ "scene_assignment:location_id" ∷ "scene_assignment:scene_id"
    ∷ "scene_assignment:turning_point" ∷ "scene_assignment:outcome" ∷ []

pub data ProductionNode : Type 0 where
  draft dialogue_pass dialogue_integration critique continuity : ProductionNode
  critic_adjudication continuity_adjudication story_bible_update accept : ProductionNode

pub data UnitAcceptanceReason : Type 0 where
  passed_rubric revision_limit_reached : UnitAcceptanceReason

pub record ProductionCharacterReference : Type 0 where
  pub character_id : String
  pub artifact : ArtifactReference

pub record DialoguePassConfiguration : Type 0 where
  pub first_id : String
  pub second_id : String
  pub ending_options : List String
  pub minimum_rounds : ℕ
  pub maximum_rounds : ℕ

pub record ProductionUnitInput : Type 0 where
  pub unit_id : String
  pub unit_number : ℕ
  pub plan : ArtifactReference
  pub characters : List ProductionCharacterReference
  pub context_artifacts : List ArtifactReference
  pub dialogue_configuration : Option DialoguePassConfiguration

pub record SceneProductionInput : Type 0 where
  pub workflow_run_id : ℕ
  pub model_profile_id : ℕ
  pub approved_blueprint : ArtifactReference
  pub initial_story_bible : ArtifactReference
  pub units : List ProductionUnitInput
  pub global_context_artifacts : List ArtifactReference
  pub call_budget : ModelCallBudget
  pub prompt_template_version : String
  pub maximum_revision_cycles : ℕ

pub record SceneWritingTask : Type 0 where
  pub production : SceneProductionInput
  pub unit : ProductionUnitInput
  pub accepted_units : List ArtifactReference
  pub story_bible : ArtifactReference
  pub revision_number : ℕ
  pub previous_draft : Option ArtifactReference
  pub previous_critique : Option ArtifactReference
  pub critique_history : List ArtifactReference
  pub previous_continuity : Option ArtifactReference

pub record SceneDraftResult : Type 0 where
  pub content : SceneDraft
  pub artifact : ArtifactReference

pub record DialogueIntegrationTask : Type 0 where
  pub production : SceneProductionInput
  pub unit : ProductionUnitInput
  pub source_draft : ArtifactReference
  pub dialogue : DialogueSceneResult
  pub revision_number : ℕ

pub record SceneCritiqueTask : Type 0 where
  pub production : SceneProductionInput
  pub unit : ProductionUnitInput
  pub draft_artifact : ArtifactReference
  pub accepted_units : List ArtifactReference
  pub story_bible : ArtifactReference
  pub revision_number : ℕ
  pub critique_history : List ArtifactReference
  pub disputed_critique : Option ArtifactReference
  pub continuity_report : Option ArtifactReference

pub record SceneCritiqueResult : Type 0 where
  pub content : Critique
  pub artifact : ArtifactReference

pub record ContinuityCheckTask : Type 0 where
  pub production : SceneProductionInput
  pub unit : ProductionUnitInput
  pub story_bible : ArtifactReference
  pub draft_artifact : ArtifactReference
  pub accepted_units : List ArtifactReference
  pub revision_number : ℕ
  pub previous_continuity : Option ArtifactReference
  pub continuity_history : List ArtifactReference
  pub adjudication : Bool

pub record ContinuityCheckResult : Type 0 where
  pub report : ContinuityReport
  pub artifact : ArtifactReference

pub record StoryBibleUpdateTask : Type 0 where
  pub production : SceneProductionInput
  pub unit : ProductionUnitInput
  pub source_story_bible : ArtifactReference
  pub accepted_draft : ArtifactReference
  pub continuity_report : ArtifactReference
  pub accepted_units : List ArtifactReference

pub record StoryBibleUpdateResult : Type 0 where
  pub source_story_bible : StoryBible
  pub update : StoryBibleUpdate
  pub story_bible : StoryBible
  pub update_artifact : ArtifactReference
  pub story_bible_artifact : ArtifactReference

pub record AcceptedProductionUnit : Type 0 where
  pub unit_id : String
  pub unit_number : ℕ
  pub artifact : ArtifactReference
  pub critique_artifact : ArtifactReference
  pub continuity_artifact : ArtifactReference
  pub story_bible_update_artifact : ArtifactReference
  pub story_bible_artifact : ArtifactReference
  pub revision_cycles_used : ℕ
  pub dialogue_runs : ℕ
  pub acceptance_reason : UnitAcceptanceReason

pub record SceneProductionResult : Type 0 where
  pub workflow_run_id : ℕ
  pub accepted_units : List AcceptedProductionUnit
  pub final_story_bible : ArtifactReference

-- The messages of `SceneProductionStateError` and its two subclasses for the revision limits.
-- `invalid_snapshot` is a validator's `ValidationError` and `invalid_dialogue_scene` a constructor's
-- `ValueError`, which the nodes let pass; the last three come from the subgraph, from an executor and
-- from the graph runtime's own limit on steps.
pub data ProductionError : Type 0 where
  invalid_run_input no_current_unit invalid_accepted_unit conflicting_continuity : ProductionError
  missing_previous missing_artifact missing_critique_history missing_reason : ProductionError
  wrong_kind reused_version draft_mismatch incomplete_draft critique_mismatch : ProductionError
  continuity_mismatch update_mismatch bible_versions_mismatch bible_identities_mismatch :
      ProductionError
  dialogue_not_configured invalid_dialogue_scene : ProductionError
  critic_adjudication_not_terminal adjudication_not_terminal : ProductionError
  continuity_revision_limit critique_revision_limit : ProductionError
  not_complete missing_units invalid_result recursion_limit : ProductionError
  invalid_transition : ReduceError → ProductionError
  invalid_snapshot : SchemaError → ProductionError
  dialogue_failed : DialogueError → ProductionError
  executor_failed : ℕ → ProductionError

-- `SceneProductionExecutor`. The number tells an answer's place in the run, so that an executor may
-- answer equal tasks differently; a failure is a code.
pub record SceneProductionExecutor : Type 0 where
  pub write : ℕ → SceneWritingTask → Result ℕ SceneDraftResult
  pub integrate_dialogue : ℕ → DialogueIntegrationTask → Result ℕ SceneDraftResult
  pub critique_scene : ℕ → SceneCritiqueTask → Result ℕ SceneCritiqueResult
  pub check_continuity : ℕ → ContinuityCheckTask → Result ℕ ContinuityCheckResult
  pub update_story_bible : ℕ → StoryBibleUpdateTask → Result ℕ StoryBibleUpdateResult
