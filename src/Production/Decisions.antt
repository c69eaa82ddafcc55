-- ===== src/Production/Decisions.antt =====
-- What a node of the production graph that returns has checked, and what it wrote: the reviews, the
-- adjudications, the story bible's update and the acceptance.
use open_hollywood.Production.Tasks.{disputed_critique_task, critique_task, continuity_task}
use open_hollywood.Production.Review.{
  adjudication_status, is_eligible, dispose, review_disposition, Disposition, blocking_count,
}
use open_hollywood.Artifacts.{critique, continuity_report, kind_eq, ArtifactReference}
use open_hollywood.Production.Steps.{found-eq-ok, opening, Placed}
use open_hollywood.Production.Nodes.{
  checked, continuity_outcome, critiqued, continuity_node, critique_node,
}
use open_hollywood.Production.Adjudications.{
  adjudicated, critic_adjudicated, is_continuity_gate, is_critic_gate, continuity_adjudication_node,
  critic_adjudication_node,
}
use open_hollywood.Production.Contracts.{
  ContinuityCheckResult, SceneCritiqueResult, ContinuityCheckTask, SceneCritiqueTask,
  ProductionUnitInput, SceneProductionExecutor,
}
use open_hollywood.Production.Validate.{validate_continuity, validate_critique}
use open_hollywood.Production.State.{
  lift, current_critique_history, accepted_artifacts, required, ProductionState,
}
use open_hollywood.Prelude.{
  ◌∙◌, if-true, if-false, inr, inl, Bool-cases, ◌⊎◌, ok-injective, sym, ℕ, ◌-◌, ◌≡◌, true, false,
  some, ok, >>=-eq-ok, guard-bind, ◌==◌, string_eq, nat_eq, nat_beq, length, take,
}

-- The state after a critique: its report is of the current draft.
pub record Critiqued (s s' : ProductionState) : Type 0 where
  pub unit : ProductionUnitInput
  pub placed : Placed s unit
  pub candidate : ArtifactReference
  pub drafted_before : s.current_draft_artifact ≡ some candidate
  pub output : SceneCritiqueResult
  pub result : s' ≡ critiqued s output
  pub kind : (output.artifact.kind == critique) ≡ true

-- The state after a continuity check, which has found the current draft named by its report.
pub record Checked (s s' : ProductionState) : Type 0 where
  pub unit : ProductionUnitInput
  pub placed : Placed s unit
  pub candidate : ArtifactReference
  pub drafted_before : s.current_draft_artifact ≡ some candidate
  pub output : ContinuityCheckResult
  pub result : continuity_outcome s output ≡ ok s'
  pub kind : (output.artifact.kind == continuity_report) ≡ true

pub record CriticAdjudicated (s s' : ProductionState) : Type 0 where
  pub unit : ProductionUnitInput
  pub placed : Placed s unit
  pub gate : is_critic_gate s ≡ true
  pub output : SceneCritiqueResult
  pub cleared : nat_beq (blocking_count output.content.issues) 0 ≡ true
  pub result : s' ≡ critic_adjudicated s output
  pub kind : (output.artifact.kind == critique) ≡ true

pub record Adjudicated (s s' : ProductionState) : Type 0 where
  pub unit : ProductionUnitInput
  pub placed : Placed s unit
  pub gate : is_continuity_gate s ≡ true
  pub output : ContinuityCheckResult
  pub disposition : Disposition
  pub decided :
      review_disposition
        (record s { adjudication_completed = true })
        s.current_revision_number
        output.report
      ≡ ok disposition
  pub result : s' ≡ adjudicated (dispose disposition s.current_revision_number s) output
  pub kind : (output.artifact.kind == continuity_report) ≡ true

validate_critique-kind :
    (task : SceneCritiqueTask) (output : SceneCritiqueResult) {u : Unit {0}}
    → validate_critique task output ≡ ok u
    → (output.artifact.kind == critique) ≡ true
unfolding validate_critique
validate_critique-kind task output h = (guard-bind (output.artifact.kind == critique) _ _ h).0

validate_continuity-kind :
    (task : ContinuityCheckTask) (output : ContinuityCheckResult) {u : Unit {0}}
    → validate_continuity task output ≡ ok u
    → (output.artifact.kind == continuity_report) ≡ true
unfolding validate_continuity
validate_continuity-kind task output h =
    (guard-bind (output.artifact.kind == continuity_report) _ _ h).0

module _ (ex : SceneProductionExecutor) (n : ℕ) (s s' : ProductionState) where
  pub critique_node-Critiqued : critique_node ex n s ≡ ok s' → Critiqued s s'
  unfolding critique_node
  critique_node-Critiqued h =
      let (unit, placed, h1) = opening s _ h in
      let (candidate, e2, h2) = >>=-eq-ok (required s.current_draft_artifact) _ h1 in
      let (accepted, e3, h3) = >>=-eq-ok (accepted_artifacts s) _ h2 in
      let (history, e4, h4) =
        >>=-eq-ok (current_critique_history s.critique_artifacts s.current_revision_number) _ h3 in
      let task = critique_task s s.production unit candidate accepted history in
      let (output, e5, h5) = >>=-eq-ok (lift (ex.critique_scene n task)) _ h4 in
      let (_, e6, h6) = >>=-eq-ok (validate_critique task output) _ h5 in
      record {
        unit = unit;
        placed = placed;
        candidate = candidate;
        drafted_before = found-eq-ok _ _ candidate e2;
        output = output;
        result = sym (ok-injective h6);
        kind = validate_critique-kind task output e6;
      }

  pub continuity_node-Checked : continuity_node ex n s ≡ ok s' → Checked s s'
  unfolding continuity_node
  continuity_node-Checked h =
      let (unit, placed, h1) = opening s _ h in
      let (candidate, e2, h2) = >>=-eq-ok (required s.current_draft_artifact) _ h1 in
      let (accepted, e3, h3) = >>=-eq-ok (accepted_artifacts s) _ h2 in
      let task =
        continuity_task s s.production unit candidate accepted s.pending_continuity_artifact
          false in
      let (output, e4, h4) = >>=-eq-ok (lift (ex.check_continuity n task)) _ h3 in
      let (_, e5, h5) = >>=-eq-ok (validate_continuity task output) _ h4 in
      record {
        unit = unit;
        placed = placed;
        candidate = candidate;
        drafted_before = found-eq-ok _ _ candidate e2;
        output = output;
        result = h5;
        kind = validate_continuity-kind task output e5;
      }

  pub critic_adjudication_node-CriticAdjudicated :
      critic_adjudication_node ex n s ≡ ok s' → CriticAdjudicated s s'
  unfolding critic_adjudication_node
  critic_adjudication_node-CriticAdjudicated h =
      let (unit, placed, h1) = opening s _ h in
      let (gate, h2) = guard-bind (is_critic_gate s) _ _ h1 in
      let (candidate, e3, h3) = >>=-eq-ok (required s.current_draft_artifact) _ h2 in
      let (accepted, e4, h4) = >>=-eq-ok (accepted_artifacts s) _ h3 in
      let earlier = take (length s.critique_artifacts - 1) s.critique_artifacts in
      let (history, e5, h5) =
        >>=-eq-ok (current_critique_history earlier s.current_revision_number) _ h4 in
      let (disputed, e6, h6) = >>=-eq-ok (required s.current_critique_artifact) _ h5 in
      let (report, e7, h7) = >>=-eq-ok (required s.current_continuity_artifact) _ h6 in
      let task =
        disputed_critique_task s s.production unit candidate accepted history disputed report in
      let (output, e8, h8) = >>=-eq-ok (lift (ex.critique_scene n task)) _ h7 in
      let (_, e9, h9) = >>=-eq-ok (validate_critique task output) _ h8 in
      let (cleared, h10) = guard-bind (nat_beq (blocking_count output.content.issues) 0) _ _ h9 in
      record {
        unit = unit;
        placed = placed;
        gate = gate;
        output = output;
        cleared = cleared;
        result = sym (ok-injective h10);
        kind = validate_critique-kind task output e9;
      }

  pub continuity_adjudication_node-Adjudicated :
      continuity_adjudication_node ex n s ≡ ok s' → Adjudicated s s'
  unfolding continuity_adjudication_node
  continuity_adjudication_node-Adjudicated h =
      let (unit, placed, h1) = opening s _ h in
      let (gate, h2) = guard-bind (is_continuity_gate s) _ _ h1 in
      let (candidate, e3, h3) = >>=-eq-ok (required s.current_draft_artifact) _ h2 in
      let (accepted, e4, h4) = >>=-eq-ok (accepted_artifacts s) _ h3 in
      let (previous, e5, h5) = >>=-eq-ok (required s.current_continuity_artifact) _ h4 in
      let task = continuity_task s s.production unit candidate accepted (some previous) true in
      let (output, e6, h6) = >>=-eq-ok (lift (ex.check_continuity n task)) _ h5 in
      let (_, e7, h7) = >>=-eq-ok (validate_continuity task output) _ h6 in
      let decision =
        review_disposition (record s { adjudication_completed = true }) s.current_revision_number
          output.report in
      let (disposition, e8, h8) = >>=-eq-ok decision _ h7 in
      record {
        unit = unit;
        placed = placed;
        gate = gate;
        output = output;
        disposition = disposition;
        decided = e8;
        result = sym (ok-injective h8);
        kind = validate_continuity-kind task output e7;
      }

-- The two ends of a continuity check: the terminal adjudication, or the disposition.
pub continuity_outcome-eq-ok :
    (s s' : ProductionState) (output : ContinuityCheckResult)
    → continuity_outcome s output ≡ ok s'
    → ((is_eligible (adjudication_status s s.current_revision_number output.report) ≡ true)
        × (s' ≡ record (checked s output) { adjudication_required = true }))
      ⊎ ((is_eligible (adjudication_status s s.current_revision_number output.report) ≡ false)
          × (d : Disposition) × (review_disposition s s.current_revision_number output.report
              ≡ ok d)
          × (s' ≡ dispose d s.current_revision_number (checked s output)))
unfolding continuity_outcome
continuity_outcome-eq-ok s s' output h =
    let test = is_eligible (adjudication_status s s.current_revision_number output.report) in
    elim (Bool-cases test) [
      | inl e ↦ inl (e, sym (ok-injective (sym (if-true _ _ test e) ∙ h)))
      | inr e ↦
          let (d, e1, h1) =
            >>=-eq-ok (review_disposition s s.current_revision_number output.report) _
              (sym (if-false _ _ test e) ∙ h) in
          inr (e, d, e1, sym (ok-injective h1))
    ]
