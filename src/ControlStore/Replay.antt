-- ===== src/ControlStore/Replay.antt =====
-- apps/api/open_hollywood_api/services/run_controls.py: a command that comes again changes nothing.
use open_hollywood.ControlStore.Recorded.{
  Keeps, pause_change-keeps, stop_change-keeps, resume_change-keeps, retry_change-keeps,
  budget_change-keeps, transact-recorded, transact-IsRecorded,
}
use open_hollywood.ControlStore.Usage.{run_usage, seconds_at}
use open_hollywood.ControlStore.Transactions.{
  result_of, or_text, row-some, require_control, require_run, budget_from,
}
use open_hollywood.ControlStore.Operations.{
  transact, change_budget, begin_retry, begin_resume, stop_run, request_pause, Change,
}
use open_hollywood.RunControls.{RunBudget, RunControlAction, Value, RunControlCommand}
use open_hollywood.ControlStore.Contracts.{
  WorkflowRun, RunControlResult, WorkflowRunControl, ControlError, Store, ControlTools,
}
use open_hollywood.Prelude.{
  true, ok-injective, Dict, Integer, get, ℕ, ◌≡◌, refl, subst, true, some, Result, ok, >>=-eq-ok,
  string_eq, nat_eq, String, run,
}

-- The five commands.
pub data Operation : Type 0 where
  requesting_pause stopping resuming retrying : Operation
  changing_budget : Integer → Operation

-- A result as it is given at another time: only the active seconds differ.
abbrev pub at_time : ℕ → WorkflowRun → RunControlResult → RunControlResult
at_time later run r = record r {
  usage = record r.usage { wall_clock_seconds = seconds_at later run };
}

-- A result of the command that a store has given, and what it gives at a later time.
pub record AnsweredLater (tools : ControlTools) (now later : ℕ) (steps : Integer) (s : Store)
    (id : ℕ) (r : RunControlResult) : Type 0 where
  pub run : WorkflowRun
  pub found : get r.result_run_id s.runs ≡ some run
  pub seconds : r.usage.wall_clock_seconds ≡ seconds_at now run
  pub answer : result_of tools later steps s id ≡ ok (at_time later run r)

-- The result of rows that have been found.
abbrev result_from : ℕ → Store → ℕ → WorkflowRunControl → WorkflowRun → RunBudget → RunControlResult
result_from now s id control run held = record {
  result_command_id = id;
  result_run_id = control.control_run_id;
  result_action = control.action;
  command_status = control.control_status;
  workflow_status = run.status;
  result_pause_reason = run.pause_reason;
  result_target_node = control.target_node;
  result_resulting_run_id = control.resulting_workflow_run_id;
  result_checkpoint_id = or_text control.control_checkpoint_id run.checkpoint_id;
  result_budget = held;
  usage = run_usage now s control.control_run_id run;
  result_error_message = control.control_error_message;
}

result_of-found :
    (tools : ControlTools) (now : ℕ) (steps : Integer) (s : Store) (id : ℕ)
    (control : WorkflowRunControl) (run : WorkflowRun) (held : RunBudget)
    → require_control s id ≡ ok control
    → require_run s control.control_run_id ≡ ok run
    → budget_from tools steps run.budget ≡ ok held
    → result_of tools now steps s id ≡ ok (result_from now s id control run held)
unfolding result_of
result_of-found tools now steps s id control run held p q t = rw (p, q, t) refl

result_of-AnsweredLater :
    (tools : ControlTools) (now later : ℕ) (steps : Integer) (s : Store) (id : ℕ)
    (r : RunControlResult)
    → result_of tools now steps s id ≡ ok r
    → AnsweredLater tools now later steps s id r
unfolding result_of run_usage
result_of-AnsweredLater tools now later steps s id r h =
    let (control, p, h1) = >>=-eq-ok (require_control s id) _ h in
    let (run, q, h2) = >>=-eq-ok (require_run s control.control_run_id) _ h1 in
    let (held, t, h3) = >>=-eq-ok (budget_from tools steps run.budget) _ h2 in
    subst (AnsweredLater tools now later steps s id) (ok-injective h3) (record {
      run = run;
      found = row-some _ _ _ q;
      seconds = refl;
      answer = result_of-found tools later steps s id control run held p q t;
    })

module _ (tools : ControlTools) (now : ℕ) where
  abbrev pub perform :
      Operation → Store → ℕ → RunControlCommand → Result ControlError (Store × RunControlResult)
  perform requesting_pause = request_pause tools now
  perform stopping = stop_run tools now
  perform resuming = begin_resume tools now
  perform retrying = begin_retry tools now
  perform (changing_budget steps) = change_budget tools now steps

-- The answer of an operation that is performed again, later, on the store that it left.
pub record PerformedAgain (now later : ℕ) (after : Store) (r : RunControlResult)
    (answer : Result ControlError (Store × RunControlResult)) : Type 0 where
  pub run : WorkflowRun
  pub found : get r.result_run_id after.runs ≡ some run
  pub seconds : r.usage.wall_clock_seconds ≡ seconds_at now run
  pub again : answer ≡ ok (after, at_time later run r)

module _ (tools : ControlTools) (now later : ℕ) (run_id : ℕ) (c : RunControlCommand)
    (reflexive : (d : Dict String Value) → tools.same_object d d ≡ true) (s after : Store)
    (r : RunControlResult) where
  transact-again :
      (wanted : RunControlAction) (steps : Integer) (first second : ℕ → RunControlCommand → Change)
      → Keeps tools now run_id c (first run_id c)
      → transact tools now wanted steps first s run_id c ≡ ok (after, r)
      → PerformedAgain now later after r (transact tools later wanted steps second after run_id c)
  transact-again wanted steps first second keeps h =
      let (right, is, given) =
        transact-IsRecorded tools now run_id c reflexive wanted steps first s after r keeps h in
      let answered = result_of-AnsweredLater tools now later steps after c.command_id r given in
      record {
        run = answered.run;
        found = answered.found;
        seconds = answered.seconds;
        again =
            transact-recorded tools later run_id c reflexive wanted steps second after
              (at_time later answered.run r) right is answered.answer;
      }

-- A command that has been accepted is idempotent: sent again at any time to the store that it left, it
-- changes nothing and has the same result, but for the run's active seconds, which are those at the time
-- of each answer.
pub perform-replay :
    (tools : ControlTools) (now later : ℕ) (operation : Operation) (s after : Store) (run_id : ℕ)
    (c : RunControlCommand) (r : RunControlResult)
    → ((d : Dict String Value) → tools.same_object d d ≡ true)
    → perform tools now operation s run_id c ≡ ok (after, r)
    → PerformedAgain now later after r (perform tools later operation after run_id c)
perform-replay tools now later requesting_pause s after run_id c r reflexive =
    transact-again tools now later run_id c reflexive s after r _ _ _ _
      (pause_change-keeps tools now run_id c)
perform-replay tools now later stopping s after run_id c r reflexive =
    transact-again tools now later run_id c reflexive s after r _ _ _ _
      (stop_change-keeps tools now run_id c)
perform-replay tools now later resuming s after run_id c r reflexive =
    transact-again tools now later run_id c reflexive s after r _ _ _ _
      (resume_change-keeps tools now run_id c)
perform-replay tools now later retrying s after run_id c r reflexive =
    transact-again tools now later run_id c reflexive s after r _ _ _ _
      (retry_change-keeps tools now run_id c)
perform-replay tools now later (changing_budget steps) s after run_id c r reflexive =
    transact-again tools now later run_id c reflexive s after r _ _ _ _
      (budget_change-keeps tools now run_id c steps)
