-- ===== src/Production/State.antt =====
-- The checkpoint of the production graph, in its decoded form: a reference is an `ArtifactReference`,
-- and a key that may be absent or null is an `Option`.
use open_hollywood.Prelude.{
  ℕ, ◌-◌, Bool, false, Option, none, some, List, [], ◌∷◌, map, Result, ok, raise, ◌>>=◌, ◌>>◌,
  guard, all, length, leb, drop, get_elem?, nat_beq,
}
use open_hollywood.Artifacts.{ArtifactReference}
use open_hollywood.Dialogue.{DialogueState}
use open_hollywood.Production.Contracts.{
  ProductionUnitInput, SceneProductionInput, AcceptedProductionUnit, UnitAcceptanceReason,
  ProductionError, SceneProductionResult,
}
use open_hollywood.Production.Rules.{production_valid, accepted_valid, result_valid}

-- `ProductionGraphState`
pub record ProductionState : Type 0 where
  pub production : SceneProductionInput
  pub current_story_bible_artifact : ArtifactReference
  pub current_unit_index : ℕ
  pub current_revision_number : ℕ
  pub current_draft_artifact : Option ArtifactReference
  pub current_critique_artifact : Option ArtifactReference
  pub current_continuity_artifact : Option ArtifactReference
  pub pending_continuity_artifact : Option ArtifactReference
  pub current_story_bible_update_artifact : Option ArtifactReference
  pub current_dialogue_runs : ℕ
  pub current_acceptance_reason : Option UnitAcceptanceReason
  pub critique_requires_revision : Bool
  pub critique_adjudicable_issue_count : ℕ
  pub critique_blocking_issue_count : ℕ
  pub critique_blocking_issue_indexes : List ℕ
  pub revision_scheduled : Bool
  pub adjudication_required : Bool
  pub adjudication_completed : Bool
  pub draft_artifacts : List ArtifactReference
  pub critique_artifacts : List ArtifactReference
  pub continuity_artifacts : List ArtifactReference
  pub current_continuity_history : List ArtifactReference
  pub story_bible_update_artifacts : List ArtifactReference
  pub story_bible_artifacts : List ArtifactReference
  pub accepted_units : List AcceptedProductionUnit
  pub production_complete : Bool
  pub dialogue : Option DialogueState

-- `initial_production_state`
unfoldable pub initial_production_state : SceneProductionInput → ProductionState
initial_production_state p = record {
  production = p;
  current_story_bible_artifact = p.initial_story_bible;
  current_unit_index = 0;
  current_revision_number = 0;
  current_draft_artifact = none;
  current_critique_artifact = none;
  current_continuity_artifact = none;
  pending_continuity_artifact = none;
  current_story_bible_update_artifact = none;
  current_dialogue_runs = 0;
  current_acceptance_reason = none;
  critique_requires_revision = false;
  critique_adjudicable_issue_count = 0;
  critique_blocking_issue_count = 0;
  critique_blocking_issue_indexes = [];
  revision_scheduled = false;
  adjudication_required = false;
  adjudication_completed = false;
  draft_artifacts = [];
  critique_artifacts = [];
  continuity_artifacts = [];
  current_continuity_history = [];
  story_bible_update_artifacts = [];
  story_bible_artifacts = p.initial_story_bible ∷ [];
  accepted_units = [];
  production_complete = false;
  dialogue = none;
}

abbrev pub found {ℓ} : {A : Type ℓ} → ProductionError → Option A → Result ProductionError A
found e none = raise e
found e (some a) = ok a

abbrev pub lift {ℓ} : {A : Type ℓ} → Result ℕ A → Result ProductionError A
lift (ok a) = ok a
lift (raise e) = raise (ProductionError.executor_failed e)

-- `_production_from_state`: the assignment is validated each time it is read.
unfoldable pub production_from_state : ProductionState → Result ProductionError SceneProductionInput
production_from_state s = do
  guard (production_valid s.production) ProductionError.invalid_run_input
  ok s.production

-- `_current_unit`
unfoldable pub current_unit :
    ProductionState → SceneProductionInput → Result ProductionError ProductionUnitInput
current_unit s production =
    found ProductionError.no_current_unit (get_elem? production.units s.current_unit_index)

-- `_accepted_artifacts`
unfoldable pub accepted_artifacts :
    ProductionState → Result ProductionError (List ArtifactReference)
accepted_artifacts s = do
  guard (all accepted_valid s.accepted_units) ProductionError.invalid_accepted_unit
  ok (map (λ a. a.artifact) s.accepted_units)

-- `_required_current_artifact`
abbrev pub required : Option ArtifactReference → Result ProductionError ArtifactReference
required = found ProductionError.missing_artifact

-- `_current_critique_history`, over the list of critiques: its last `revision_number` entries.
unfoldable pub current_critique_history :
    List ArtifactReference → ℕ → Result ProductionError (List ArtifactReference)
current_critique_history history revision_number = do
  guard (leb revision_number (length history)) ProductionError.missing_critique_history
  ok (drop (length history - revision_number) history)

-- `production_result_from_state`
unfoldable pub production_result_from_state :
    ProductionState → Result ProductionError SceneProductionResult
production_result_from_state s = do
  guard s.production_complete ProductionError.not_complete
  production ← production_from_state s
  guard (all accepted_valid s.accepted_units) ProductionError.invalid_accepted_unit
  guard (nat_beq (length s.accepted_units) (length production.units)) ProductionError.missing_units
  let result : SceneProductionResult = record {
    workflow_run_id = production.workflow_run_id;
    accepted_units = s.accepted_units;
    final_story_bible = s.current_story_bible_artifact;
  }
  guard (result_valid result) ProductionError.invalid_result
  ok result
