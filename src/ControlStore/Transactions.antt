-- ===== src/ControlStore/Transactions.antt =====
-- apps/api/open_hollywood_api/services/run_controls.py: what the transactions share. `now` is the one
-- reading of the clock in a transaction.
use open_hollywood.ControlStore.Usage.{finish_active_interval, run_usage}
use open_hollywood.Models.{Decimal}
use open_hollywood.RunControls.Limits.{RunUsage, BudgetLimit}
use open_hollywood.RunControls.{
  from_data, run_budget, action_is, RunBudget, RunControlCommand, BudgetOf, Value, BudgetError,
  command_pending, command_applied,
}
use open_hollywood.ControlStore.Contracts.{
  RunControlResult, RunPauseReason, ControlError, ControlTools, EventDetails, WorkflowRunControl,
  WorkflowRun, Store, paused, pause_details, command_reused, unknown_run, unknown_command,
  budget_error,
}
use open_hollywood.Prelude.{
  ok-injective, ap, ◌≡◌, get, put, Dict, Integer, natural, ℕ, ◌*◌, Bool, true, false, ◌&&◌, Option,
  none, some, List, [], ◌∷◌, ◌++◌, Result, ok, raise, ◌>>=◌, ◌>>◌, guard, if◌then◌else◌, ◌==◌,
  string_eq, nat_eq, nat_beq, String, run,
}

-- A row that `session.get` finds or does not find.
abbrev pub row {ℓ} : {A : Type ℓ} → ControlError → Option A → Result ControlError A
row missing none = raise missing
row missing (some a) = ok a

-- `a or b`, of optional texts: an empty text counts as missing.
abbrev pub or_text : Option String → Option String → Option String
or_text none b = b
or_text (some a) b = if a == "" then b else some a

-- `_require_run`
abbrev pub require_run : Store → ℕ → Result ControlError WorkflowRun
require_run s id = row (unknown_run id) (get id s.runs)

-- `_require_control`
abbrev pub require_control : Store → ℕ → Result ControlError WorkflowRunControl
require_control s id = row (unknown_command id) (get id s.controls)

pub row-some {ℓ} :
    {A : Type ℓ} (missing : ControlError) (o : Option A) (a : A) → row missing o ≡ ok a → o ≡ some a
row-some missing none a h = cc h
row-some missing (some b) a h = ap some (ok-injective h)

abbrev pub save_run : ℕ → WorkflowRun → Store → Store
save_run id run s = record s { runs = put id run s.runs }

abbrev pub save_control : ℕ → WorkflowRunControl → Store → Store
save_control id control s = record s { controls = put id control s.controls }

-- `_add_event`
abbrev pub add_event : ℕ → String → Option ℕ → EventDetails → Store → Store
add_event run_id name command payload s = record s {
  events =
      s.events
      ++ record {
        event_run_id = run_id;
        event_type = name;
        event_command_id = command;
        details = payload;
      }
        ∷ [];
}

-- `_mark_applied`
abbrev pub mark_applied : ℕ → Option String → WorkflowRunControl → WorkflowRunControl
mark_applied now checkpoint control = record control {
  control_status = command_applied;
  control_checkpoint_id = checkpoint;
  applied_at = some now;
  control_error_message = none;
}

abbrev pub paused_run : ℕ → RunPauseReason → WorkflowRun → WorkflowRun
paused_run now reason run = record (finish_active_interval now run) {
  status = paused;
  pause_reason = some reason;
  error_code = none;
  error_message = none;
}

-- `_apply_pause`, with the command that it applies, if there is one
unfoldable pub apply_pause :
    ℕ
    → ℕ
    → WorkflowRun
    → RunPauseReason
    → Option (ℕ × WorkflowRunControl)
    → List BudgetLimit
    → Option RunUsage
    → Store
    → Store
apply_pause now run_id run reason command limits usage s =
    let payload = pause_details reason limits usage in
    let saved = save_run run_id (paused_run now reason run) s in
    elim command [
      | none ↦ add_event run_id "workflow.paused" none payload saved
      | some (id, control) ↦
          add_event run_id "workflow.paused" (some id) payload
            (save_control id (mark_applied now run.checkpoint_id control) saved)
    ]

-- `default_max_graph_steps` of a call without one
abbrev pub usual_steps : Integer
usual_steps = natural 64

abbrev pub lift_budget {ℓ} : {A : Type ℓ} → Result BudgetError A → Result ControlError A
lift_budget (ok a) = ok a
lift_budget (raise e) = raise (budget_error e)

-- `existing.budget_updates or None`, compared with the command's
abbrev pub updates_of : Option (Dict String Value) → Option (Dict String Value)
updates_of (some (entry ∷ entries)) = some (entry ∷ entries)
updates_of _ = none

abbrev pub same_target : Option String → Option String → Bool
same_target none none = true
same_target (some a) (some b) = a == b
same_target _ _ = false

module _ (tools : ControlTools) where
  -- `RunBudget.from_data`, whose defaults are those of the class but for the graph steps
  abbrev pub defaults : Integer → BudgetOf Integer Decimal
  defaults steps = record {
    max_graph_steps = steps;
    max_model_calls = natural 32;
    max_input_tokens = natural 250000;
    max_output_tokens = natural 50000;
    max_cost_usd = Decimal.amount (200 * tools.cent);
    max_wall_clock_seconds = natural 3600;
    per_call_input_tokens = natural 8000;
    per_call_output_tokens = natural 2000;
    per_call_cost_usd = Decimal.amount (25 * tools.cent);
  }

  unfoldable pub budget_from : Integer → Dict String Value → Result ControlError RunBudget
  budget_from steps value =
      lift_budget (run_budget (defaults steps) >>= λ d. from_data tools.parse tools.print d value)

  -- `_result` of the command with this ID
  unfoldable pub result_of : ℕ → Integer → Store → ℕ → Result ControlError RunControlResult
  result_of now steps s id = do
    control ← require_control s id
    run ← require_run s control.control_run_id
    held ← budget_from steps run.budget
    ok (record {
      result_command_id = id;
      result_run_id = control.control_run_id;
      result_action = control.action;
      command_status = control.control_status;
      workflow_status = run.status;
      result_pause_reason = run.pause_reason;
      result_target_node = control.target_node;
      result_resulting_run_id = control.resulting_workflow_run_id;
      result_checkpoint_id = or_text control.control_checkpoint_id run.checkpoint_id;
      result_budget = held;
      usage = run_usage now s control.control_run_id run;
      result_error_message = control.control_error_message;
    })

  abbrev pub same_updates : Option (Dict String Value) → Option (Dict String Value) → Bool
  same_updates none none = true
  same_updates (some a) (some b) = tools.same_object a b
  same_updates _ _ = false

  -- The data of a recorded command are those of the command.
  unfoldable pub same_data : WorkflowRunControl → ℕ → RunControlCommand → Bool
  same_data existing run_id c =
      nat_beq existing.control_run_id run_id
      && action_is existing.action c.command_action
      && same_target existing.target_node c.command_target
      && same_updates (updates_of existing.budget_updates) (updates_of c.command_updates)

  abbrev pub new_control : ℕ → ℕ → RunControlCommand → WorkflowRunControl
  new_control now run_id c = record {
    control_run_id = run_id;
    action = c.command_action;
    target_node = c.command_target;
    budget_updates = c.command_updates;
    control_status = command_pending;
    control_checkpoint_id = none;
    resulting_workflow_run_id = none;
    created_at = now;
    applied_at = none;
    control_error_message = none;
  }

  -- `_record_command`, once the query for the command's row has been answered
  unfoldable pub record_found :
      ℕ
      → Store
      → ℕ
      → RunControlCommand
      → Option WorkflowRunControl
      → Result ControlError (Store × Bool)
  record_found now s run_id c (some existing) =
      guard (same_data existing run_id c) command_reused >> ok (s, true)
  record_found now s run_id c none = require_run s run_id >>= λ run.
      ok (save_control c.command_id (new_control now run_id c) s, false)

  -- `_record_command`: the store, and whether the command was there already
  abbrev pub record_command : ℕ → Store → ℕ → RunControlCommand → Result ControlError (Store × Bool)
  record_command now s run_id c = record_found now s run_id c (get c.command_id s.controls)
