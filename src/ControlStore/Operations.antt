-- ===== src/ControlStore/Operations.antt =====
-- apps/api/open_hollywood_api/services/run_controls.py: the commands of `RunControlStore`.
use open_hollywood.RunControls.Limits.{budget_can_cover_usage}
use open_hollywood.ControlStore.Transactions.{
  same_target, result_of, record_command, lift_budget, save_run, save_control, require_run,
  mark_applied, usual_steps, budget_from, add_event, apply_pause, require_control,
}
use open_hollywood.ControlStore.Usage.{run_usage, finish_active_interval}
use open_hollywood.RunControls.{
  to_data, replace, action_is, RunControlAction, RunControlCommand, command_failed, pause, resume,
  stop, retry_from_node, update_budget,
}
use open_hollywood.ControlStore.Contracts.{
  RunControlResult, EventDetails, status_is, ControlError, WorkflowRunControl, ControlTools, Store,
  RunPauseReason, WorkflowRun, AgentInvocation, pending, running, paused, succeeded, failed,
  cancelled, user, budget_reason, human_approval, invocation_pending, invocation_running,
  invocation_cancelled, no_details, at_node, new_budget, retry_details, wrong_action, cannot_pause,
  cannot_stop, cannot_change_budget, cannot_resume, cannot_retry, decision_required, reason_invalid,
  below_usage, not_failed, no_checkpoint, wrong_target,
}
use open_hollywood.Prelude.{
  Integer, or_value, ℕ, Bool, true, false, ◌&&◌, ◌||◌, not, Option, none, some, [], map, Result, ok,
  raise, ◌>>=◌, ◌>>◌, guard, if◌then◌else◌, ◌==◌, string_eq, nat_eq, String, run, is_some,
}

abbrev pub is_open_invocation : AgentInvocation → Bool
is_open_invocation i = elim (i.invocation_status) [
  | invocation_pending ↦ true
  | invocation_running ↦ true
  | _ ↦ false
]

-- The loop of `stop` over the invocations.
abbrev pub cancel_invocation : ℕ → AgentInvocation → AgentInvocation
cancel_invocation now i =
    if is_open_invocation i
    then record i {
      invocation_status = invocation_cancelled;
      invocation_completed_at = some now;
      invocation_error_code = some "workflow_stopped";
      invocation_error_message = some "Cancelled by workflow stop command.";
    }
    else i

-- `RunStatus.PENDING` again, without what the last run left
abbrev pub requeue : WorkflowRun → WorkflowRun
requeue run = record run {
  status = pending;
  pause_reason = none;
  completed_at = none;
  error_code = none;
  error_message = none;
}

abbrev pub is_human_approval : Option RunPauseReason → Bool
is_human_approval (some human_approval) = true
is_human_approval _ = false

abbrev pub is_user_or_budget : Option RunPauseReason → Bool
is_user_or_budget (some user) = true
is_user_or_budget (some budget_reason) = true
is_user_or_budget _ = false

-- A command's own part of its transaction.
abbrev pub Change : Type 0
Change = Store → WorkflowRun → WorkflowRunControl → Result ControlError Store

-- A change, on the run and on the new row of the command.
unfoldable pub apply_change : Change → Store → ℕ → RunControlCommand → Result ControlError Store
apply_change change s run_id c = do
  run ← require_run s run_id
  control ← require_control s c.command_id
  change s run control

module _ (tools : ControlTools) (now : ℕ) where
  module _ (run_id : ℕ) (c : RunControlCommand) where
    unfoldable pub pause_change : Change
    pause_change s run control =
        if status_is run.status pending
        then ok (apply_pause now run_id run user (some (c.command_id, control)) [] none s)
        else if status_is run.status running
        then ok (add_event run_id "workflow.pause.requested" (some c.command_id) no_details s)
        else raise (cannot_pause run.status)

    abbrev pub stopped : WorkflowRun → WorkflowRun
    stopped run = record (finish_active_interval now run) {
      status = cancelled;
      pause_reason = none;
      completed_at = some now;
      error_code = none;
      error_message = none;
      invocations = map (cancel_invocation now) run.invocations;
    }

    -- `_mark_applied` and the event, at the end of a change
    abbrev pub conclude : WorkflowRun → WorkflowRunControl → String → EventDetails → Store → Store
    conclude run control name payload s = add_event run_id name (some c.command_id) payload (
        save_control c.command_id (mark_applied now run.checkpoint_id control)
          (save_run run_id run s))

    unfoldable pub stop_change : Change
    stop_change s run control = do
      guard (not (status_is run.status succeeded || status_is run.status cancelled))
          (cannot_stop run.status)
      ok (conclude (stopped run) control "workflow.stopped" (at_node run.current_node) s)

    unfoldable pub budget_change : Integer → Change
    budget_change steps s run control = do
      guard (not (status_is run.status succeeded || status_is run.status cancelled))
          (cannot_change_budget run.status)
      held ← budget_from tools steps run.budget
      updated ← lift_budget (replace tools.parse tools.print held (or_value c.command_updates []))
      let used = run_usage now s run_id run
      guard (budget_can_cover_usage updated used) below_usage
      let written = to_data tools.parse tools.print updated
      ok (
          conclude (record run { budget = written }) control "workflow.budget.updated"
            (new_budget written used) s)

    unfoldable pub resume_change : Change
    resume_change s run control = do
      guard (status_is run.status paused) (cannot_resume run.status)
      guard (not (is_human_approval run.pause_reason)) decision_required
      guard (is_user_or_budget run.pause_reason) reason_invalid
      ok (conclude (requeue run) control "workflow.resumed" no_details s)

    unfoldable pub retry_change : Change
    retry_change s run control = do
      guard (not (status_is run.status pending || status_is run.status running))
          (cannot_retry run.status)
      ok s

  -- What the five commands have in common.
  unfoldable pub transact :
      RunControlAction
      → Integer
      → (ℕ → RunControlCommand → Change)
      → Store
      → ℕ
      → RunControlCommand
      → Result ControlError (Store × RunControlResult)
  transact wanted steps change s run_id c = do
    guard (action_is c.command_action wanted) wrong_action
    recorded ← record_command tools now s run_id c
    after ← if recorded.1 then ok recorded.0 else apply_change (change run_id c) recorded.0 run_id c
    r ← result_of tools now steps after c.command_id
    ok (after, r)

  abbrev pub request_pause :
      Store → ℕ → RunControlCommand → Result ControlError (Store × RunControlResult)
  request_pause = transact pause usual_steps pause_change

  abbrev pub stop_run :
      Store → ℕ → RunControlCommand → Result ControlError (Store × RunControlResult)
  stop_run = transact stop usual_steps stop_change

  -- `update_budget`
  abbrev pub change_budget :
      Integer → Store → ℕ → RunControlCommand → Result ControlError (Store × RunControlResult)
  change_budget steps = transact update_budget steps (λ run_id c. budget_change run_id c steps)

  abbrev pub begin_resume :
      Store → ℕ → RunControlCommand → Result ControlError (Store × RunControlResult)
  begin_resume = transact resume usual_steps resume_change

  abbrev pub begin_retry :
      Store → ℕ → RunControlCommand → Result ControlError (Store × RunControlResult)
  begin_retry = transact retry_from_node usual_steps retry_change

  unfoldable pub complete_retry :
      Store → ℕ → ℕ → String → Result ControlError (Store × RunControlResult)
  complete_retry s id child checkpoint = do
    control ← require_control s id
    let linked =
        mark_applied now (some checkpoint)
          (record control { resulting_workflow_run_id = some child })
    let after =
        add_event control.control_run_id "workflow.retry.created" (some id)
          (retry_details child control.target_node) (save_control id linked s)
    r ← result_of tools now usual_steps after id
    ok (after, r)

  -- `not value`, of an optional text
  abbrev pub is_missing : Option String → Bool
  is_missing none = true
  is_missing (some text) = text == ""

  -- The guards and the changes of `complete_checkpoint_retry`, for a command without a resulting run
  unfoldable pub requeue_at :
      Store → ℕ → WorkflowRunControl → WorkflowRun → Result ControlError Store
  requeue_at s id control run = do
    guard (status_is run.status failed) not_failed
    guard (not (is_missing run.checkpoint_id)) no_checkpoint
    guard (not (is_missing run.current_node) && same_target control.target_node run.current_node)
        wrong_target
    let run_id = control.control_run_id
    let linked =
        mark_applied now run.checkpoint_id
          (record control { resulting_workflow_run_id = some run_id })
    ok (
        add_event run_id "workflow.retry.queued" (some id) (retry_details run_id run.current_node)
          (save_control id linked (save_run run_id (requeue run) s)))

  unfoldable pub complete_checkpoint_retry :
      Store → ℕ → Result ControlError (Store × RunControlResult)
  complete_checkpoint_retry s id = do
    control ← require_control s id
    run ← require_run s control.control_run_id
    after ← if is_some control.resulting_workflow_run_id then ok s else requeue_at s id control run
    r ← result_of tools now usual_steps after id
    ok (after, r)

  -- `message` is the text of the error.
  unfoldable pub fail_command : Store → ℕ → String → Result ControlError Store
  fail_command s id message = do
    control ← require_control s id
    ok (
        save_control id
          (record control {
            control_status = command_failed;
            control_error_message = some (tools.redact message);
          })
          s)
