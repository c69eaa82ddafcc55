-- ===== src/Production/Acceptance.antt =====
-- What the last two nodes of a unit have checked, and what they wrote: the story bible's update and the
-- acceptance.
use open_hollywood.Production.Tasks.{update_task}
use open_hollywood.Artifacts.{story_bible_update, story_bible, kind_eq, bible_is}
use open_hollywood.Production.Steps.{found-eq-ok, Placed, opening}
use open_hollywood.Production.Contracts.{
  ProductionError, AcceptedProductionUnit, StoryBibleUpdateResult, SceneProductionExecutor,
  StoryBibleUpdateTask, ProductionUnitInput,
}
use open_hollywood.StoryBible.{validate_story_bible_transition, ReduceError}
use open_hollywood.Production.Validate.{
  has_known_identities, has_known_versions, is_update_for, versions, lift_transition,
  validate_story_bible_update,
}
use open_hollywood.Production.Nodes.{
  bible_updated, accept_unit, story_bible_update_node, accept_node,
}
use open_hollywood.Production.State.{lift, accepted_artifacts, found, required, ProductionState}
use open_hollywood.Prelude.{
  ok-injective, sym, elem, ℕ, ◌≡◌, refl, true, not, some, [], ◌∷◌, ◌++◌, Result, ok, raise,
  >>=-eq-ok, guard-bind, ◌==◌, string_eq, nat_eq,
}

-- The state after the update, whose transition the reducer has replayed.
pub record Updated (s s' : ProductionState) : Type 0 where
  pub unit : ProductionUnitInput
  pub placed : Placed s unit
  pub output : StoryBibleUpdateResult
  pub transition :
      (u : Unit {0}) × (validate_story_bible_transition bible_is output.source_story_bible
          output.update output.story_bible
        ≡ ok u)
  pub result : s' ≡ bible_updated s output
  pub update_kind : (output.update_artifact.kind == story_bible_update) ≡ true
  pub bible_kind : (output.story_bible_artifact.kind == story_bible) ≡ true

-- The state after the acceptance.
pub record Accepted (s s' : ProductionState) : Type 0 where
  pub unit : ProductionUnitInput
  pub placed : Placed s unit
  pub accepted : AcceptedProductionUnit
  pub result : s' ≡ accept_unit s s.production accepted
  pub same_id : accepted.unit_id ≡ unit.unit_id
  pub same_number : accepted.unit_number ≡ unit.unit_number
  pub draft_kept : s.current_draft_artifact ≡ some accepted.artifact
  pub critique_kept : s.current_critique_artifact ≡ some accepted.critique_artifact
  pub continuity_kept : s.current_continuity_artifact ≡ some accepted.continuity_artifact
  pub update_kept :
      s.current_story_bible_update_artifact ≡ some accepted.story_bible_update_artifact
  pub bible_kept : accepted.story_bible_artifact ≡ s.current_story_bible_artifact
  pub cycles : accepted.revision_cycles_used ≡ s.current_revision_number
  pub runs : accepted.dialogue_runs ≡ s.current_dialogue_runs
  pub reason : s.current_acceptance_reason ≡ some accepted.acceptance_reason

pub accept_node-Accepted : (s s' : ProductionState) → accept_node s ≡ ok s' → Accepted s s'
unfolding accept_node
accept_node-Accepted s s' h =
    let (unit, placed, h1) = opening s _ h in
    let (candidate, e2, h2) = >>=-eq-ok (required s.current_draft_artifact) _ h1 in
    let (critique, e3, h3) = >>=-eq-ok (required s.current_critique_artifact) _ h2 in
    let (report, e4, h4) = >>=-eq-ok (required s.current_continuity_artifact) _ h3 in
    let (update, e5, h5) = >>=-eq-ok (required s.current_story_bible_update_artifact) _ h4 in
    let (reason, e6, h6) =
      >>=-eq-ok (found ProductionError.missing_reason s.current_acceptance_reason) _ h5 in
    record {
      unit = unit;
      placed = placed;
      accepted = record {
        unit_id = unit.unit_id;
        unit_number = unit.unit_number;
        artifact = candidate;
        critique_artifact = critique;
        continuity_artifact = report;
        story_bible_update_artifact = update;
        story_bible_artifact = s.current_story_bible_artifact;
        revision_cycles_used = s.current_revision_number;
        dialogue_runs = s.current_dialogue_runs;
        acceptance_reason = reason;
      };
      result = sym (ok-injective h6);
      same_id = refl;
      same_number = refl;
      draft_kept = found-eq-ok _ _ candidate e2;
      critique_kept = found-eq-ok _ _ critique e3;
      continuity_kept = found-eq-ok _ _ report e4;
      update_kept = found-eq-ok _ _ update e5;
      bible_kept = refl;
      cycles = refl;
      runs = refl;
      reason = found-eq-ok _ _ reason e6;
    }

-- What the checks of the update's result leave true.
validate_story_bible_update-eq-ok :
    (task : StoryBibleUpdateTask) (output : StoryBibleUpdateResult) {u : Unit {0}}
    → validate_story_bible_update task output ≡ ok u
    → ((output.update_artifact.kind == story_bible_update) ≡ true)
      × ((output.story_bible_artifact.kind == story_bible) ≡ true)
      × (lift_transition (
            validate_story_bible_transition bible_is output.source_story_bible output.update
              output.story_bible)
          ≡ ok u)
unfolding validate_story_bible_update
validate_story_bible_update-eq-ok task output h =
    let inputs = task.source_story_bible ∷ task.accepted_draft ∷ task.continuity_report ∷ [] in
    let (k1, h1) = guard-bind (output.update_artifact.kind == story_bible_update) _ _ h in
    let (k2, h2) = guard-bind (output.story_bible_artifact.kind == story_bible) _ _ h1 in
    let (_, h3) =
      guard-bind (not (elem output.update_artifact.version_id (versions inputs))) _ _ h2 in
    let (_, h4) =
      guard-bind
        (not (
          elem output.story_bible_artifact.version_id
            (versions (inputs ++ output.update_artifact ∷ []))))
        _ _ h3 in
    let (k5, h5) = guard-bind (is_update_for task output) _ _ h4 in
    let (k6, h6) = guard-bind (has_known_versions task output) _ _ h5 in
    let (k7, h7) = guard-bind (has_known_identities task output) _ _ h6 in (k1, k2, h7)

lift_transition-eq-ok :
    (r : Result ReduceError (Unit {0})) {u : Unit {0}}
    → lift_transition r ≡ ok u
    → (v : Unit {0}) × (r ≡ ok v)
lift_transition-eq-ok (ok v) h = (v, refl)
lift_transition-eq-ok (raise e) h = cc h

pub story_bible_update_node-Updated :
    (ex : SceneProductionExecutor) (n : ℕ) (s s' : ProductionState)
    → story_bible_update_node ex n s ≡ ok s'
    → Updated s s'
unfolding story_bible_update_node
story_bible_update_node-Updated ex n s s' h =
    let (unit, placed, h1) = opening s _ h in
    let (candidate, e2, h2) = >>=-eq-ok (required s.current_draft_artifact) _ h1 in
    let (report, e3, h3) = >>=-eq-ok (required s.current_continuity_artifact) _ h2 in
    let (accepted, e4, h4) = >>=-eq-ok (accepted_artifacts s) _ h3 in
    let task = update_task s s.production unit candidate report accepted in
    let (output, e5, h5) = >>=-eq-ok (lift (ex.update_story_bible n task)) _ h4 in
    let (_, e6, h6) = >>=-eq-ok (validate_story_bible_update task output) _ h5 in
    let (k1, k2, moved) = validate_story_bible_update-eq-ok task output e6 in
    record {
      unit = unit;
      placed = placed;
      output = output;
      transition = lift_transition-eq-ok _ moved;
      result = sym (ok-injective h6);
      update_kind = k1;
      bible_kind = k2;
    }
