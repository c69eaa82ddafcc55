-- ===== src/Production/Tasks.antt =====
-- The tasks that the nodes of production_graph.py assemble from the checkpoint.
use open_hollywood.Prelude.{
  nat_beq, ℕ, String, Bool, false, Option, none, some, List, [], ◌∷◌, ◌++◌, ◌&&◌, ◌||◌, not,
  string_eq, nat_eq, elem, or_else, is_none, Result, ok, raise, ◌>>=◌, ◌>>◌, guard, if◌then◌else◌,
  get, collect,
}
use open_hollywood.Artifacts.{ArtifactReference, reference_is}
use open_hollywood.Dialogue.{
  DialogueSceneInput, DialogueCharacterReference, dialogue_character_valid, scene_input_valid,
  DialogueSceneResult,
}
use open_hollywood.Production.Contracts.{
  DialoguePassConfiguration, ProductionUnitInput, SceneProductionInput, SceneWritingTask,
  DialogueIntegrationTask, SceneCritiqueTask, ContinuityCheckTask, StoryBibleUpdateTask,
  ProductionError,
}
use open_hollywood.Production.State.{ProductionState, found}

-- Two feedback reports that differ.
abbrev pub conflicts : Option ArtifactReference → Option ArtifactReference → Bool
conflicts (some a) (some b) = not (reference_is a b)
conflicts _ _ = false

-- The previous versions that a revision is written from; a first draft has none.
pub record Previous : Type 0 where
  pub draft_artifact : Option ArtifactReference
  pub critique_artifact : Option ArtifactReference
  pub continuity_artifact : Option ArtifactReference

unfoldable pub previous_inputs : ProductionState → Result ProductionError Previous
previous_inputs s =
    if nat_beq s.current_revision_number 0
    then ok (record { draft_artifact = none; critique_artifact = none; continuity_artifact = none })
    else if is_none s.current_draft_artifact || is_none s.current_critique_artifact
    then raise ProductionError.missing_previous
    else ok (record {
      draft_artifact = s.current_draft_artifact;
      critique_artifact = s.current_critique_artifact;
      continuity_artifact = or_else s.current_continuity_artifact s.pending_continuity_artifact;
    })

unfoldable pub writing_task :
    ProductionState
    → SceneProductionInput
    → ProductionUnitInput
    → List ArtifactReference
    → Previous
    → List ArtifactReference
    → SceneWritingTask
writing_task s production unit accepted previous history = record {
  production = production;
  unit = unit;
  accepted_units = accepted;
  story_bible = s.current_story_bible_artifact;
  revision_number = s.current_revision_number;
  previous_draft = previous.draft_artifact;
  previous_critique = previous.critique_artifact;
  critique_history = history;
  previous_continuity = previous.continuity_artifact;
}

unfoldable pub integration_task :
    ProductionState
    → SceneProductionInput
    → ProductionUnitInput
    → ArtifactReference
    → DialogueSceneResult
    → DialogueIntegrationTask
integration_task s production unit source dialogue = record {
  production = production;
  unit = unit;
  source_draft = source;
  dialogue = dialogue;
  revision_number = s.current_revision_number;
}

unfoldable pub critique_task :
    ProductionState
    → SceneProductionInput
    → ProductionUnitInput
    → ArtifactReference
    → List ArtifactReference
    → List ArtifactReference
    → SceneCritiqueTask
critique_task s production unit candidate accepted history = record {
  production = production;
  unit = unit;
  draft_artifact = candidate;
  accepted_units = accepted;
  story_bible = s.current_story_bible_artifact;
  revision_number = s.current_revision_number;
  critique_history = history;
  disputed_critique = none;
  continuity_report = none;
}

unfoldable pub disputed_critique_task :
    ProductionState
    → SceneProductionInput
    → ProductionUnitInput
    → ArtifactReference
    → List ArtifactReference
    → List ArtifactReference
    → ArtifactReference
    → ArtifactReference
    → SceneCritiqueTask
disputed_critique_task s production unit candidate accepted history disputed report =
    record (critique_task s production unit candidate accepted history) {
      disputed_critique = some disputed;
      continuity_report = some report;
    }

unfoldable pub continuity_task :
    ProductionState
    → SceneProductionInput
    → ProductionUnitInput
    → ArtifactReference
    → List ArtifactReference
    → Option ArtifactReference
    → Bool
    → ContinuityCheckTask
continuity_task s production unit candidate accepted previous adjudication = record {
  production = production;
  unit = unit;
  story_bible = s.current_story_bible_artifact;
  draft_artifact = candidate;
  accepted_units = accepted;
  revision_number = s.current_revision_number;
  previous_continuity = previous;
  continuity_history = s.current_continuity_history;
  adjudication = adjudication;
}

unfoldable pub update_task :
    ProductionState
    → SceneProductionInput
    → ProductionUnitInput
    → ArtifactReference
    → ArtifactReference
    → List ArtifactReference
    → StoryBibleUpdateTask
update_task s production unit candidate report accepted = record {
  production = production;
  unit = unit;
  source_story_bible = s.current_story_bible_artifact;
  accepted_draft = candidate;
  continuity_report = report;
  accepted_units = accepted;
}

-- `_unique_references`: the first reference to each version.
unfoldable pub unique_references_from : List ℕ → List ArtifactReference → List ArtifactReference
unique_references_from seen [] = []
unique_references_from seen (r ∷ rs) =
    let known = elem r.version_id seen in
    let rest = unique_references_from (if known then seen else r.version_id ∷ seen) rs in
    if known then rest else r ∷ rest

unfoldable pub unique_references : List ArtifactReference → List ArtifactReference
unfolding unique_references_from
unique_references = unique_references_from []

-- `ProductionUnitInput.dialogue_characters`, for one of the two configured actors.
unfoldable pub dialogue_character :
    ProductionUnitInput → String → Result ProductionError DialogueCharacterReference
dialogue_character unit wanted = do
  c ←
      found ProductionError.invalid_dialogue_scene
        (get wanted (collect (λ c. c.character_id) [] unit.characters))
  ok (record { character_id = c.character_id; artifact = c.artifact })

-- `_dialogue_scene_input`
unfoldable pub dialogue_scene_input :
    ProductionState
    → SceneProductionInput
    → ProductionUnitInput
    → DialoguePassConfiguration
    → ArtifactReference
    → List ArtifactReference
    → Result ProductionError DialogueSceneInput
dialogue_scene_input s production unit configuration candidate accepted = do
  first ← dialogue_character unit configuration.first_id
  second ← dialogue_character unit configuration.second_id
  let scene : DialogueSceneInput = record {
    workflow_run_id = production.workflow_run_id;
    model_profile_id = production.model_profile_id;
    scene_id = unit.unit_id;
    scene_plan_artifact = unit.plan;
    first = first;
    second = second;
    context_artifacts = unique_references (
        production.approved_blueprint
        ∷ s.current_story_bible_artifact
        ∷ (production.global_context_artifacts
            ++ (unit.context_artifacts ++ (accepted ++ candidate ∷ []))));
    ending_options = configuration.ending_options;
    call_budget = production.call_budget;
    prompt_template_version = "1";
    minimum_rounds = configuration.minimum_rounds;
    maximum_rounds = configuration.maximum_rounds;
  }
  guard
      (dialogue_character_valid first && dialogue_character_valid second && scene_input_valid scene)
      ProductionError.invalid_dialogue_scene
  ok scene
