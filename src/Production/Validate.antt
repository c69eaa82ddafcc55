-- ===== src/Production/Validate.antt =====
-- The checks that production_graph.py makes of each executor result.
use open_hollywood.Prelude.{
  ℕ, String, Bool, true, false, List, [], ◌∷◌, ◌++◌, map, ◌&&◌, not, ◌==◌, nat_eq, string_eq, elem,
  opt_list, Result, ok, raise, ◌>>◌, guard, length, take,
}
use open_hollywood.Artifacts.{
  ArtifactKind, ArtifactReference, kind_eq, scene_draft, critique, continuity_report,
  story_bible_update, story_bible, bible_is,
}
use open_hollywood.StoryBible.{ReduceError, invalid, validate_story_bible_transition}
use open_hollywood.Production.Contracts.{
  ProductionUnitInput, SceneDraftResult, SceneCritiqueTask, SceneCritiqueResult,
  ContinuityCheckTask, ContinuityCheckResult, StoryBibleUpdateTask, StoryBibleUpdateResult,
  SceneWritingTask, ProductionError,
}

-- `_require_artifact_kind`
abbrev pub require_artifact_kind :
    ArtifactReference → ArtifactKind → Result ProductionError (Unit {0})
require_artifact_kind reference expected =
    guard (reference.kind == expected) ProductionError.wrong_kind

abbrev pub versions : List ArtifactReference → List ℕ
versions references = map (λ r. r.version_id) references

-- `_require_new_version`
abbrev pub require_new_version :
    ArtifactReference → List ArtifactReference → Result ProductionError (Unit {0})
require_new_version output inputs =
    guard (not (elem output.version_id (versions inputs))) ProductionError.reused_version

-- `_validate_draft`
unfoldable pub validate_draft :
    ProductionUnitInput
    → ℕ
    → SceneDraftResult
    → List ArtifactReference
    → Result ProductionError (Unit {0})
validate_draft unit revision_number result inputs = do
  require_artifact_kind result.artifact scene_draft
  require_new_version result.artifact inputs
  guard
      (result.content.scene_id == unit.unit_id
        && result.content.scene_number == unit.unit_number
        && result.content.revision_number == revision_number)
      ProductionError.draft_mismatch
  guard result.content.is_complete ProductionError.incomplete_draft

-- `_validate_critique`
unfoldable pub validate_critique :
    SceneCritiqueTask → SceneCritiqueResult → Result ProductionError (Unit {0})
validate_critique task result = do
  require_artifact_kind result.artifact critique
  require_new_version result.artifact
      (task.draft_artifact ∷ (task.critique_history ++ opt_list task.disputed_critique))
  guard
      (result.content.target_artifact_kind == scene_draft
        && result.content.target_artifact_key == task.draft_artifact.artifact_key
        && result.content.target_artifact_version_id == task.draft_artifact.version_id)
      ProductionError.critique_mismatch

-- `_validate_continuity`
unfoldable pub validate_continuity :
    ContinuityCheckTask → ContinuityCheckResult → Result ProductionError (Unit {0})
validate_continuity task result = do
  require_artifact_kind result.artifact continuity_report
  require_new_version result.artifact (
      task.story_bible
      ∷ task.draft_artifact
      ∷ task.unit.plan
      ∷ (task.continuity_history ++ opt_list task.previous_continuity))
  guard
      (result.report.story_bible_version_id == task.story_bible.version_id
        && result.report.scene_version_id == task.draft_artifact.version_id
        && result.report.scene_plan_version_id == task.unit.plan.version_id
        && result.report.scene_id == task.unit.unit_id
        && result.report.scene_number == task.unit.unit_number)
      ProductionError.continuity_mismatch

-- `except StoryBibleInvariantError`, which a `ValidationError` is not.
abbrev pub transition_error : ReduceError → ProductionError
transition_error (invalid e) = ProductionError.invalid_snapshot e
transition_error e = ProductionError.invalid_transition e

abbrev pub lift_transition : Result ReduceError (Unit {0}) → Result ProductionError (Unit {0})
lift_transition (ok a) = ok a
lift_transition (raise e) = raise (transition_error e)

-- Equality of two sequences of texts or numbers.
abbrev pub same_texts : List String → List String → Bool
same_texts [] [] = true
same_texts (x ∷ xs) (y ∷ ys) = x == y && same_texts xs ys
same_texts _ _ = false

abbrev pub same_numbers : List ℕ → List ℕ → Bool
same_numbers [] [] = true
same_numbers (x ∷ xs) (y ∷ ys) = x == y && same_numbers xs ys
same_numbers _ _ = false

-- The identities that an update's result must have, and the scenes its source must know.
unfoldable pub is_update_for : StoryBibleUpdateTask → StoryBibleUpdateResult → Bool
is_update_for task result =
    let scene = result.update.accepted_scene in
    result.source_story_bible.source_blueprint_version_id
      == task.production.approved_blueprint.version_id
    && result.update.source_story_bible_version_id == task.source_story_bible.version_id
    && result.update.continuity_report_version_id == task.continuity_report.version_id
    && scene.scene_id == task.unit.unit_id
    && scene.scene_number == task.unit.unit_number
    && scene.artifact_version_id == task.accepted_draft.version_id

unfoldable pub has_known_versions : StoryBibleUpdateTask → StoryBibleUpdateResult → Bool
has_known_versions task result =
    same_numbers (map (λ s. s.artifact_version_id) result.source_story_bible.accepted_scenes)
      (versions task.accepted_units)

unfoldable pub has_known_identities : StoryBibleUpdateTask → StoryBibleUpdateResult → Bool
has_known_identities task result =
    let known_scenes = result.source_story_bible.accepted_scenes in
    let expected = take (length task.accepted_units) task.production.units in
    same_texts (map (λ s. s.scene_id) known_scenes) (map (λ u. u.unit_id) expected)
    && same_numbers (map (λ s. s.scene_number) known_scenes) (map (λ u. u.unit_number) expected)

-- `_validate_story_bible_update`
unfoldable pub validate_story_bible_update :
    StoryBibleUpdateTask → StoryBibleUpdateResult → Result ProductionError (Unit {0})
validate_story_bible_update task result = do
  let inputs = task.source_story_bible ∷ task.accepted_draft ∷ task.continuity_report ∷ []
  require_artifact_kind result.update_artifact story_bible_update
  require_artifact_kind result.story_bible_artifact story_bible
  require_new_version result.update_artifact inputs
  require_new_version result.story_bible_artifact (inputs ++ result.update_artifact ∷ [])
  guard (is_update_for task result) ProductionError.update_mismatch
  guard (has_known_versions task result) ProductionError.bible_versions_mismatch
  guard (has_known_identities task result) ProductionError.bible_identities_mismatch
  lift_transition (
      validate_story_bible_transition bible_is result.source_story_bible result.update
        result.story_bible)

-- `_all_inputs`
abbrev pub all_inputs : SceneWritingTask → List ArtifactReference
all_inputs task =
    task.production.approved_blueprint
    ∷ task.unit.plan
    ∷ (map (λ c. c.artifact) task.unit.characters
        ++ (task.production.global_context_artifacts
            ++ (task.unit.context_artifacts
                ++ (task.accepted_units
                    ++ (task.story_bible
                        ∷ (opt_list task.previous_draft
                            ++ (task.critique_history
                                ++ (opt_list task.previous_critique
                                    ++ opt_list task.previous_continuity))))))))
