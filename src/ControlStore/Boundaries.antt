-- ===== src/ControlStore/Boundaries.antt =====
-- apps/api/open_hollywood_api/services/run_controls.py: what the runtime asks before it runs a node, and
-- before it takes over a graph's output.
use open_hollywood.RunControls.Limits.{BudgetLimit, RunUsage, projected_budget_limits}
use open_hollywood.ControlStore.Usage.{run_usage}
use open_hollywood.ControlStore.Transactions.{apply_pause, require_run, budget_from}
use open_hollywood.ControlStore.Operations.{is_user_or_budget}
use open_hollywood.RunControls.{action_is, command_pending, pause}
use open_hollywood.ControlStore.Contracts.{
  ControlError, status_is, ControlTools, WorkflowRun, Store, WorkflowRunControl, paused, cancelled,
  user, budget_reason,
}
use open_hollywood.Prelude.{
  some, none, [], ◌∷◌, filter_by, Integer, sort_by, ℕ, Bool, true, false, ◌&&◌, Option, none, some,
  List, [], ◌∷◌, Result, ok, ◌>>=◌, if◌then◌else◌, string_eq, nat_eq, leb, nat_beq, String, run,
}

-- The cooperative signals. `before_node` raises its signal after its transaction has been committed.
pub data Signal : Type 0 where
  paused_signal stopped_signal : Signal

-- A row of the query for a pause that waits.
abbrev pub is_waiting_pause : ℕ → ℕ × WorkflowRunControl → Bool
is_waiting_pause run_id (id, control) =
    nat_beq control.control_run_id run_id
    && action_is control.action pause
    && elim control.control_status [ command_pending ↦ true | _ ↦ false ]

-- `order_by(created_at, id)`
abbrev pub control_leq : ℕ × WorkflowRunControl → ℕ × WorkflowRunControl → Bool
control_leq (i, a) (j, b) =
    if nat_beq a.created_at b.created_at then leb i j else leb a.created_at b.created_at

abbrev pub first_of {ℓ} : {A : Type ℓ} → List A → Option A
first_of [] = none
first_of (x ∷ xs) = some x

abbrev pub waiting_pause : Store → ℕ → Option (ℕ × WorkflowRunControl)
waiting_pause s run_id =
    first_of (sort_by control_leq (filter_by (is_waiting_pause run_id) s.controls))

-- A run that a user or its budget has paused.
abbrev pub is_held : WorkflowRun → Bool
is_held run = status_is run.status paused && is_user_or_budget run.pause_reason

abbrev pub standing_at : String → WorkflowRun → WorkflowRun
standing_at node run = record run { current_node = some node }

-- The pause for the limits that the node would reach.
unfoldable pub hold_for :
    ℕ → String → ℕ → WorkflowRun → RunUsage → Store → List BudgetLimit → Store × Option Signal
hold_for now node run_id run used s [] = (s, none)
hold_for now node run_id run used s (limit ∷ more) = (
  apply_pause now run_id (standing_at node run) budget_reason none (limit ∷ more) (some used) s,
  some paused_signal,
)

-- A pause that waits is applied; otherwise the budget decides.
unfoldable pub gate :
    ControlTools
    → ℕ
    → Integer
    → Bool
    → String
    → ℕ
    → WorkflowRun
    → Store
    → Option (ℕ × WorkflowRunControl)
    → Result ControlError (Store × Option Signal)
gate tools now steps includes_model_call node run_id run s (some waiting) = ok (
  apply_pause now run_id (standing_at node run) user (some waiting) [] none s,
  some paused_signal,
)
gate tools now steps includes_model_call node run_id run s none = do
  held ← budget_from tools steps run.budget
  let used = run_usage now s run_id run
  ok (hold_for now node run_id run used s (projected_budget_limits held used includes_model_call))

-- `RunControlStore.before_node`
unfoldable pub before_node :
    ControlTools
    → ℕ
    → Store
    → ℕ
    → String
    → Bool
    → Integer
    → Result ControlError (Store × Option Signal)
before_node tools now s run_id node includes_model_call steps = require_run s run_id >>= λ run.
    if status_is run.status cancelled
    then ok (s, some stopped_signal)
    else if is_held run
    then ok (s, some paused_signal)
    else gate tools now steps includes_model_call node run_id run s (waiting_pause s run_id)

-- The signal of a run that must not go on.
abbrev pub standing_signal : WorkflowRun → Option Signal
standing_signal run =
    if status_is run.status cancelled
    then some stopped_signal
    else if is_held run
    then some paused_signal
    else none

-- `RunControlStore.execution_boundary`
unfoldable pub execution_boundary : Store → ℕ → Result ControlError (Option Signal)
execution_boundary s run_id = do run ← require_run s run_id; ok (standing_signal run)
