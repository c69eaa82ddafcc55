-- ===== src/ControlStore/Stopping.antt =====
-- apps/api/open_hollywood_api/services/run_controls.py: what stop and a new budget achieve.
use open_hollywood.ControlStore.Transactions.{usual_steps}
use open_hollywood.ControlStore.Transitions.{transact-fresh}
use open_hollywood.ControlStore.Operations.{
  stopped, stop_run, stop_change, cancel_invocation, is_open_invocation,
}
use open_hollywood.RunControls.{RunControlCommand, stop}
use open_hollywood.ControlStore.Boundaries.{before_node, stopped_signal}
use open_hollywood.ControlStore.Contracts.{
  status_is, WorkflowRunControl, RunControlResult, WorkflowRun, Store, AgentInvocation,
  ControlTools, cancelled, succeeded,
}
use open_hollywood.Prelude.{
  ok-injective, get-put_self, Integer, get, Bool-cases, ℕ, ◌≡◌, refl, subst, inl, inr, Bool, false,
  ◌||◌, not, none, some, List, [], ◌∷◌, map, ok, guard-bind, string_eq, nat_eq, String, run, any,
}

-- A run that has been stopped: nothing of it is open, and no node of it may run.
pub record IsStopped (tools : ControlTools) (s : Store) (run_id : ℕ) : Type 0 where
  pub run : WorkflowRun
  pub found : get run_id s.runs ≡ some run
  pub is_cancelled : run.status ≡ cancelled
  pub no_reason : run.pause_reason ≡ none
  pub interval_closed : run.active_started_at ≡ none
  pub invocations_closed : any is_open_invocation run.invocations ≡ false
  pub refuses :
      (now : ℕ) (node : String) (includes : Bool) (steps : Integer)
      → before_node tools now s run_id node includes steps ≡ ok (s, some stopped_signal)

cancel_invocation-closed :
    (now : ℕ) (i : AgentInvocation) → is_open_invocation (cancel_invocation now i) ≡ false
cancel_invocation-closed now i = elim (Bool-cases (is_open_invocation i)) [
  | inl open_call ↦ rw open_call refl
  | inr closed ↦ rw closed closed
]

cancel_invocations-closed :
    (now : ℕ) (is : List AgentInvocation)
    → any is_open_invocation (map (cancel_invocation now) is) ≡ false
cancel_invocations-closed now [] = refl
cancel_invocations-closed now (i ∷ is) =
    rw (cancel_invocation-closed now i) (cancel_invocations-closed now is)

module _ (tools : ControlTools) (now run_id : ℕ) (c : RunControlCommand) where
  stop_change-IsStopped :
      (s after : Store) (run : WorkflowRun) (control : WorkflowRunControl)
      → stop_change tools now run_id c s run control ≡ ok after
      → IsStopped tools after run_id
  unfolding stop_change before_node
  stop_change-IsStopped s after run control h =
      let (open_run, h1) =
        guard-bind (not (status_is run.status succeeded || status_is run.status cancelled)) _ _ h in
      let found = get-put_self run_id (stopped tools now run_id c run) s.runs in
      subst (λ x. IsStopped tools x run_id) (ok-injective h1)
        (record {
          run = stopped tools now run_id c run;
          found = found;
          is_cancelled = refl;
          no_reason = refl;
          interval_closed = refl;
          invocations_closed = cancel_invocations-closed now run.invocations;
          refuses = λ later node includes steps. rw found refl;
        })

-- A new stop command that is accepted leaves its run cancelled, with no pause reason, no open interval
-- and no invocation that is pending or running; and every node of it is then refused.
pub stop_run-IsStopped :
    (tools : ControlTools) (now run_id : ℕ) (c : RunControlCommand) (s after : Store)
    (r : RunControlResult)
    → get c.command_id s.controls ≡ none
    → stop_run tools now s run_id c ≡ ok (after, r)
    → IsStopped tools after run_id
stop_run-IsStopped tools now run_id c s after r fresh h =
    let (run, control, found, recorded, changed) =
      transact-fresh tools now stop usual_steps (stop_change tools now) s after run_id c r fresh
        h in
    stop_change-IsStopped tools now run_id c _ after run control changed
