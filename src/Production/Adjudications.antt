-- ===== src/Production/Adjudications.antt =====
-- The nodes of production_graph.py that settle a dispute.
use open_hollywood.Prelude.{
  ℕ, ◌-◌, Bool, true, false, some, [], ◌∷◌, ◌++◌, ◌&&◌, not, Result, ok, ◌>>=◌, ◌>>◌, guard, length,
  take, nat_beq, ltb, leb,
}
use open_hollywood.Artifacts.{is_pass}
use open_hollywood.Production.Contracts.{
  SceneCritiqueResult, ContinuityCheckResult, SceneProductionExecutor, ProductionError,
}
use open_hollywood.Production.State.{
  ProductionState, lift, required, production_from_state, current_unit, accepted_artifacts,
  current_critique_history,
}
use open_hollywood.Production.Validate.{validate_critique, validate_continuity}
use open_hollywood.Production.Review.{
  blocking_count, review_disposition, dispose, adjudicated_reason,
}
use open_hollywood.Production.Tasks.{disputed_critique_task, continuity_task}

-- The gate of `_critic_adjudication_node`.
unfoldable pub is_critic_gate : ProductionState → Bool
is_critic_gate s =
    s.adjudication_required
    && not s.adjudication_completed
    && leb 1 s.current_revision_number
    && nat_beq s.current_revision_number s.production.maximum_revision_cycles
    && ltb 0 s.critique_blocking_issue_count
    && nat_beq s.critique_adjudicable_issue_count s.critique_blocking_issue_count

unfoldable pub critic_adjudicated : ProductionState → SceneCritiqueResult → ProductionState
critic_adjudicated s result =
    let requires_revision = not (is_pass result.content.verdict) in
    record s {
      current_critique_artifact = some result.artifact;
      critique_artifacts = s.critique_artifacts ++ result.artifact ∷ [];
      critique_blocking_issue_count = 0;
      critique_adjudicable_issue_count = 0;
      critique_blocking_issue_indexes = [];
      critique_requires_revision = requires_revision;
      adjudication_required = false;
      adjudication_completed = true;
      revision_scheduled = false;
      current_acceptance_reason = some (adjudicated_reason requires_revision);
    }

-- `_critic_adjudication_node`; the repair history leaves out the report under dispute.
unfoldable pub critic_adjudication_node :
    SceneProductionExecutor → ℕ → ProductionState → Result ProductionError ProductionState
critic_adjudication_node ex n s = do
  production ← production_from_state s
  unit ← current_unit s production
  guard (is_critic_gate s) ProductionError.critic_adjudication_not_terminal
  candidate ← required s.current_draft_artifact
  accepted ← accepted_artifacts s
  history ←
      current_critique_history (take (length s.critique_artifacts - 1) s.critique_artifacts)
        s.current_revision_number
  disputed ← required s.current_critique_artifact
  report ← required s.current_continuity_artifact
  let task = disputed_critique_task s production unit candidate accepted history disputed report
  result ← lift (ex.critique_scene n task)
  validate_critique task result
  guard (nat_beq (blocking_count result.content.issues) 0) ProductionError.critique_revision_limit
  ok (critic_adjudicated s result)

-- The gate of `_adjudication_node`.
unfoldable pub is_continuity_gate : ProductionState → Bool
is_continuity_gate s =
    not s.adjudication_completed
    && s.adjudication_required
    && nat_beq s.current_revision_number s.production.maximum_revision_cycles

unfoldable pub adjudicated : ProductionState → ContinuityCheckResult → ProductionState
adjudicated s result = record s {
  current_continuity_artifact = some result.artifact;
  adjudication_required = false;
  adjudication_completed = true;
  revision_scheduled = false;
  continuity_artifacts = s.continuity_artifacts ++ result.artifact ∷ [];
  current_continuity_history = s.current_continuity_history ++ result.artifact ∷ [];
}

-- `_adjudication_node`
unfoldable pub continuity_adjudication_node :
    SceneProductionExecutor → ℕ → ProductionState → Result ProductionError ProductionState
continuity_adjudication_node ex n s = do
  production ← production_from_state s
  unit ← current_unit s production
  guard (is_continuity_gate s) ProductionError.adjudication_not_terminal
  candidate ← required s.current_draft_artifact
  accepted ← accepted_artifacts s
  previous ← required s.current_continuity_artifact
  let task = continuity_task s production unit candidate accepted (some previous) true
  result ← lift (ex.check_continuity n task)
  validate_continuity task result
  disposition ←
      review_disposition (record s { adjudication_completed = true }) s.current_revision_number
        result.report
  ok (adjudicated (dispose disposition s.current_revision_number s) result)
