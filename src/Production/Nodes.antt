-- ===== src/Production/Nodes.antt =====
-- The nodes of production_graph.py. The observer's records of each node's start and end change no state
-- of the graph and are left out.
use open_hollywood.Prelude.{
  ℕ, ◌+◌, true, false, Option, none, some, List, [], ◌∷◌, ◌++◌, not, Result, ok, raise, ◌>>=◌, ◌>>◌,
  guard, length, nat_beq, if◌then◌else◌, is_some,
}
use open_hollywood.Artifacts.{ArtifactReference, is_pass}
use open_hollywood.Dialogue.{
  DialogueState, DialogueExecutor, DialogueError, initial_dialogue_state,
  dialogue_result_from_state, run_dialogue, director_briefing,
}
use open_hollywood.Production.Contracts.{
  ProductionUnitInput, SceneProductionInput, SceneDraftResult, SceneCritiqueResult,
  ContinuityCheckResult, StoryBibleUpdateResult, AcceptedProductionUnit, SceneProductionExecutor,
  ProductionError, DialoguePassConfiguration,
}
use open_hollywood.Production.State.{
  ProductionState, found, lift, required, production_from_state, current_unit, accepted_artifacts,
  current_critique_history,
}
use open_hollywood.Production.Validate.{
  validate_draft, validate_critique, validate_continuity, validate_story_bible_update, all_inputs,
}
use open_hollywood.Production.Review.{
  blocking_count, adjudicable_count, blocking_indexes, adjudication_status, is_eligible,
  review_disposition, dispose,
}
use open_hollywood.Production.Tasks.{
  conflicts, previous_inputs, writing_task, integration_task, critique_task, continuity_task,
  update_task, dialogue_scene_input,
}

-- What the draft node writes, before the keys of a dialogue.
unfoldable pub drafted :
    ProductionState → Option ArtifactReference → SceneDraftResult → ProductionState
drafted s feedback result = record s {
  current_draft_artifact = some result.artifact;
  current_continuity_artifact = none;
  pending_continuity_artifact = feedback;
  draft_artifacts = s.draft_artifacts ++ result.artifact ∷ [];
}

unfoldable pub with_dialogue :
    ProductionState
    → SceneProductionInput
    → ProductionUnitInput
    → List ArtifactReference
    → SceneDraftResult
    → Option DialoguePassConfiguration
    → ProductionState
    → Result ProductionError ProductionState
with_dialogue s production unit accepted result none t = ok t
with_dialogue s production unit accepted result (some configuration) t = do
  scene ← dialogue_scene_input s production unit configuration result.artifact accepted
  ok (record t { dialogue = some (initial_dialogue_state s.dialogue scene) })

-- `_draft_node`
unfoldable pub draft_node :
    SceneProductionExecutor → ℕ → ProductionState → Result ProductionError ProductionState
draft_node ex n s = do
  production ← production_from_state s
  unit ← current_unit s production
  accepted ← accepted_artifacts s
  guard (not (conflicts s.current_continuity_artifact s.pending_continuity_artifact))
      ProductionError.conflicting_continuity
  previous ← previous_inputs s
  history ← current_critique_history s.critique_artifacts s.current_revision_number
  let task = writing_task s production unit accepted previous history
  result ← lift (ex.write n task)
  validate_draft unit s.current_revision_number result (all_inputs task)
  with_dialogue s production unit accepted result unit.dialogue_configuration
      (drafted s previous.continuity_artifact result)

unfoldable pub dialogue_outcome :
    Result DialogueError DialogueState → ProductionState → Result ProductionError ProductionState
dialogue_outcome (ok d) s = ok (record s { dialogue = some d })
dialogue_outcome (raise e) s = raise (ProductionError.dialogue_failed e)

-- The node that is the dialogue subgraph, which the runtime gives the run's limit on steps.
unfoldable pub dialogue_pass_node :
    DialogueExecutor → ℕ → ℕ → ProductionState → Result ProductionError ProductionState
dialogue_pass_node actors limit n s = do
  d ← found ProductionError.dialogue_not_configured s.dialogue
  dialogue_outcome (run_dialogue actors limit n director_briefing d) s

abbrev pub lift_dialogue {ℓ} : {A : Type ℓ} → Result DialogueError A → Result ProductionError A
lift_dialogue (ok a) = ok a
lift_dialogue (raise e) = raise (ProductionError.dialogue_failed e)

unfoldable pub integrated : ProductionState → SceneDraftResult → ProductionState
integrated s result = record s {
  current_draft_artifact = some result.artifact;
  current_dialogue_runs = s.current_dialogue_runs + 1;
  draft_artifacts = s.draft_artifacts ++ result.artifact ∷ [];
}

-- `_dialogue_integration_node`
unfoldable pub dialogue_integration_node :
    SceneProductionExecutor → ℕ → ProductionState → Result ProductionError ProductionState
dialogue_integration_node ex n s = do
  production ← production_from_state s
  unit ← current_unit s production
  guard (is_some unit.dialogue_configuration) ProductionError.dialogue_not_configured
  source ← required s.current_draft_artifact
  d ← found ProductionError.dialogue_not_configured s.dialogue
  dialogue ← lift_dialogue (dialogue_result_from_state d)
  result ← lift (ex.integrate_dialogue n (integration_task s production unit source dialogue))
  validate_draft unit s.current_revision_number result (
      source
      ∷ dialogue.briefing_artifact
      ∷ (dialogue.dialogue_turn_artifacts ++ dialogue.evaluation_artifacts))
  ok (integrated s result)

unfoldable pub critiqued : ProductionState → SceneCritiqueResult → ProductionState
critiqued s result = record s {
  current_critique_artifact = some result.artifact;
  current_acceptance_reason = none;
  critique_requires_revision = not (is_pass result.content.verdict);
  critique_adjudicable_issue_count = adjudicable_count result.content.issues;
  critique_blocking_issue_count = blocking_count result.content.issues;
  critique_blocking_issue_indexes = blocking_indexes 0 result.content.issues;
  revision_scheduled = false;
  critique_artifacts = s.critique_artifacts ++ result.artifact ∷ [];
}

-- `_critique_node`
unfoldable pub critique_node :
    SceneProductionExecutor → ℕ → ProductionState → Result ProductionError ProductionState
critique_node ex n s = do
  production ← production_from_state s
  unit ← current_unit s production
  candidate ← required s.current_draft_artifact
  accepted ← accepted_artifacts s
  history ← current_critique_history s.critique_artifacts s.current_revision_number
  let task = critique_task s production unit candidate accepted history
  result ← lift (ex.critique_scene n task)
  validate_critique task result
  ok (critiqued s result)

unfoldable pub checked : ProductionState → ContinuityCheckResult → ProductionState
checked s result = record s {
  current_continuity_artifact = some result.artifact;
  pending_continuity_artifact = none;
  revision_scheduled = false;
  adjudication_required = false;
  continuity_artifacts = s.continuity_artifacts ++ result.artifact ∷ [];
  current_continuity_history = s.current_continuity_history ++ result.artifact ∷ [];
}

-- The end of the continuity node: the terminal adjudication, or the disposition.
unfoldable pub continuity_outcome :
    ProductionState → ContinuityCheckResult → Result ProductionError ProductionState
continuity_outcome s result =
    if is_eligible (adjudication_status s s.current_revision_number result.report)
    then ok (record (checked s result) { adjudication_required = true })
    else do
      disposition ← review_disposition s s.current_revision_number result.report
      ok (dispose disposition s.current_revision_number (checked s result))

-- `_continuity_node`
unfoldable pub continuity_node :
    SceneProductionExecutor → ℕ → ProductionState → Result ProductionError ProductionState
continuity_node ex n s = do
  production ← production_from_state s
  unit ← current_unit s production
  candidate ← required s.current_draft_artifact
  accepted ← accepted_artifacts s
  let task =
      continuity_task s production unit candidate accepted s.pending_continuity_artifact false
  result ← lift (ex.check_continuity n task)
  validate_continuity task result
  continuity_outcome s result

unfoldable pub bible_updated : ProductionState → StoryBibleUpdateResult → ProductionState
bible_updated s result = record s {
  current_story_bible_artifact = result.story_bible_artifact;
  current_story_bible_update_artifact = some result.update_artifact;
  story_bible_update_artifacts = s.story_bible_update_artifacts ++ result.update_artifact ∷ [];
  story_bible_artifacts = s.story_bible_artifacts ++ result.story_bible_artifact ∷ [];
}

-- `_story_bible_update_node`
unfoldable pub story_bible_update_node :
    SceneProductionExecutor → ℕ → ProductionState → Result ProductionError ProductionState
story_bible_update_node ex n s = do
  production ← production_from_state s
  unit ← current_unit s production
  candidate ← required s.current_draft_artifact
  report ← required s.current_continuity_artifact
  accepted ← accepted_artifacts s
  let task = update_task s production unit candidate report accepted
  result ← lift (ex.update_story_bible n task)
  validate_story_bible_update task result
  ok (bible_updated s result)

-- The record of the accepted unit, and the reset for the next one.
unfoldable pub accept_unit :
    ProductionState → SceneProductionInput → AcceptedProductionUnit → ProductionState
accept_unit s production unit = record s {
  accepted_units = s.accepted_units ++ unit ∷ [];
  current_unit_index = s.current_unit_index + 1;
  current_revision_number = 0;
  current_draft_artifact = none;
  current_critique_artifact = none;
  current_continuity_artifact = none;
  pending_continuity_artifact = none;
  current_continuity_history = [];
  current_story_bible_update_artifact = none;
  current_dialogue_runs = 0;
  current_acceptance_reason = none;
  critique_requires_revision = false;
  critique_blocking_issue_count = 0;
  critique_adjudicable_issue_count = 0;
  critique_blocking_issue_indexes = [];
  revision_scheduled = false;
  adjudication_required = false;
  adjudication_completed = false;
  production_complete = nat_beq (s.current_unit_index + 1) (length production.units);
}

-- `_accept_node`
unfoldable pub accept_node : ProductionState → Result ProductionError ProductionState
accept_node s = do
  production ← production_from_state s
  unit ← current_unit s production
  candidate ← required s.current_draft_artifact
  critique ← required s.current_critique_artifact
  report ← required s.current_continuity_artifact
  update ← required s.current_story_bible_update_artifact
  reason ← found ProductionError.missing_reason s.current_acceptance_reason
  ok (
      accept_unit s production (record {
        unit_id = unit.unit_id;
        unit_number = unit.unit_number;
        artifact = candidate;
        critique_artifact = critique;
        continuity_artifact = report;
        story_bible_update_artifact = update;
        story_bible_artifact = s.current_story_bible_artifact;
        revision_cycles_used = s.current_revision_number;
        dialogue_runs = s.current_dialogue_runs;
        acceptance_reason = reason;
      }))
