-- ===== src/Tests/Controls.antt =====
-- A run with one call, and the commands that it gets.
use open_hollywood.Tests.Decimals.{parse-print, print, parse}
use open_hollywood.ControlStore.Stopping.{stop_run-IsStopped, IsStopped}
use open_hollywood.ControlStore.Admission.{before_node-admits, before_node-boundary, Admitted}
use open_hollywood.ControlStore.Transitions.{Moves}
use open_hollywood.ControlStore.Budgets.{change_budget-covers, CoversUsage}
use open_hollywood.ControlStore.Pauses.{before_node-KeepsUsage, KeepsUsage}
use open_hollywood.RunControls.Limits.{budget_can_cover_usage, projected_budget_limits, RunUsage}
use open_hollywood.RunControls.{
  with_value, with_values, replace, all_finite, all_positive, run_budget, decimal_of, from_data,
  Value, to_data, RunControlCommand, RunBudget, RunControlAction, pause, stop, update_budget,
  command_pending, command_applied, integer,
}
use open_hollywood.ControlStore.{
  change_budget, stop_run, result_of, budget_change, stop_change, budget_from, pause_change,
  hold_for, new_control, record_found, save_control, conclude, gate, standing_at, apply_change,
  add_event, stopped, execution_boundary, before_node, apply_pause, transact, RunControlResult,
  run_usage, Store, WorkflowRun, AgentInvocation, ControlTools, running, cancelled, user,
  no_details, at_node, new_budget, invocation_running, paused_signal,
}
use open_hollywood.ControlStore.Replay.{
  PerformedAgain, perform-replay, perform, requesting_pause, stopping,
}
use open_hollywood.ControlStore.Finality.{
  Steps-cancelled, Step-Moves, more, done, asking, performing,
}
use open_hollywood.Prelude.{
  ◌+◌, Dict, natural, nat_beq_iff, get, ℕ, ◌≡◌, refl, true, Option, none, some, [], ◌∷◌, ok,
  string_eq, nat_eq, nat_beq, length, String,
}

abbrev tools : ControlTools
tools = record {
  parse = parse;
  print = print;
  cent = 1;
  same_object = λ a b. nat_beq (length a) (length b);
  redact = λ message. message;
}

reflexive : (d : Dict String Value) → tools.same_object d d ≡ true
reflexive d = (nat_beq_iff (length d) (length d)).1 refl

abbrev call : AgentInvocation
call = record {
  invocation_status = invocation_running;
  invocation_input_tokens = 7000;
  invocation_output_tokens = 1500;
  estimated_cost_usd = 20;
  invocation_completed_at = none;
  invocation_error_code = none;
  invocation_error_message = none;
}

abbrev active_run : WorkflowRun
active_run = record {
  status = running;
  pause_reason = none;
  current_node = some "draft";
  checkpoint_id = some "c1";
  budget = [];
  active_elapsed_seconds = 40;
  active_started_at = some 1000000;
  completed_at = none;
  error_code = none;
  error_message = none;
  invocations = call ∷ [];
}

abbrev store : Store
store = record { runs = (1, active_run) ∷ []; controls = []; events = [] }

abbrev now : ℕ
now = 21000000

abbrev command : ℕ → RunControlAction → Option (Dict String Value) → RunControlCommand
command id action updates = record {
  command_id = id;
  command_action = action;
  command_target = none;
  command_updates = updates;
}

abbrev usual_budget : RunBudget
usual_budget = record {
  max_graph_steps = 64;
  max_model_calls = 32;
  max_input_tokens = 250000;
  max_output_tokens = 50000;
  max_cost_usd = 200;
  max_wall_clock_seconds = 3600;
  per_call_input_tokens = 8000;
  per_call_output_tokens = 2000;
  per_call_cost_usd = 25;
}

abbrev used : RunUsage
used = record {
  graph_steps = 0;
  model_calls = 1;
  input_tokens = 7000;
  output_tokens = 1500;
  cost_usd = 20;
  wall_clock_seconds = 60;
}

-- A pause of the running run, which waits for the next node.
abbrev pause_command : RunControlCommand
pause_command = command 100 pause none

abbrev waiting_store : Store
waiting_store =
    add_event 1 "workflow.pause.requested" (some 100) no_details
      (save_control 100 (new_control tools now 1 pause_command) store)

abbrev pause_result : RunControlResult
pause_result = record {
  result_command_id = 100;
  result_run_id = 1;
  result_action = pause;
  command_status = command_pending;
  workflow_status = running;
  result_pause_reason = none;
  result_target_node = none;
  result_resulting_run_id = none;
  result_checkpoint_id = some "c1";
  result_budget = usual_budget;
  usage = used;
  result_error_message = none;
}

requested :
    perform tools now requesting_pause store 1 pause_command ≡ ok (waiting_store, pause_result)
unfolding transact apply_change record_found pause_change result_of budget_from run_usage from_data
    decimal_of run_budget all_positive all_finite
requested = refl

perform-replay_example :
    PerformedAgain now
      (now + 5000000)
      waiting_store
      pause_result
      (perform tools (now + 5000000) requesting_pause waiting_store 1 pause_command)
perform-replay_example =
    perform-replay tools now (now + 5000000) requesting_pause store waiting_store 1 pause_command
      pause_result reflexive requested

-- The next node finds the pause.
abbrev paused_store : Store
paused_store =
    apply_pause now 1 (standing_at "critique" active_run) user
      (some (100, new_control tools now 1 pause_command)) [] none waiting_store

held_back :
    before_node tools now waiting_store 1 "critique" true (natural 64)
    ≡ ok (paused_store, some paused_signal)
unfolding before_node gate
held_back = refl

before_node-boundary_example : execution_boundary paused_store 1 ≡ ok (some paused_signal)
before_node-boundary_example =
    before_node-boundary tools now waiting_store paused_store 1 "critique" true (natural 64)
      (some paused_signal) held_back

before_node-KeepsUsage_example : KeepsUsage now waiting_store paused_store 1 active_run
before_node-KeepsUsage_example =
    before_node-KeepsUsage tools now waiting_store paused_store 1 "critique" true (natural 64)
      active_run refl refl held_back

Step-Moves_example : Moves waiting_store.runs paused_store.runs
Step-Moves_example =
    Step-Moves tools waiting_store paused_store
      (asking now 1 "critique" true (natural 64) held_back)

-- Without a command the node may run.
let_go : before_node tools now store 1 "critique" true (natural 64) ≡ ok (store, none)
unfolding before_node gate hold_for budget_from run_usage from_data decimal_of run_budget
    all_positive all_finite projected_budget_limits
let_go = refl

before_node-admits_example : (store ≡ store) × Admitted tools now store 1 (natural 64)
before_node-admits_example =
    before_node-admits tools now store store 1 "critique" (natural 64) let_go

-- A stop.
abbrev stop_command : RunControlCommand
stop_command = command 101 stop none

abbrev stopped_store : Store
stopped_store =
    conclude tools now 1 stop_command (stopped tools now 1 stop_command active_run)
      (new_control tools now 1 stop_command) "workflow.stopped" (at_node (some "draft"))
      (save_control 101 (new_control tools now 1 stop_command) store)

abbrev stop_result : RunControlResult
stop_result = record pause_result {
  result_command_id = 101;
  result_action = stop;
  command_status = command_applied;
  workflow_status = cancelled;
}

stopped_now : stop_run tools now store 1 stop_command ≡ ok (stopped_store, stop_result)
unfolding transact apply_change record_found stop_change result_of budget_from run_usage from_data
    decimal_of run_budget all_positive all_finite
stopped_now = refl

stop_run-IsStopped_example : IsStopped tools stopped_store 1
stop_run-IsStopped_example =
    stop_run-IsStopped tools now 1 stop_command store stopped_store stop_result refl stopped_now

Steps-cancelled_example :
    (next : WorkflowRun) × (get 1 stopped_store.runs ≡ some next) × (next.status ≡ cancelled)
Steps-cancelled_example =
    Steps-cancelled tools stopped_store stopped_store 1
      (stopped tools now 1 stop_command active_run)
      (more (performing (now + 5000000) 1 stopping stop_command stopped_again.again) done) refl refl
  where
    stopped_again :
        PerformedAgain now
          (now + 5000000)
          stopped_store
          stop_result
          (perform tools (now + 5000000) stopping stopped_store 1 stop_command)
    stopped_again =
        perform-replay tools now (now + 5000000) stopping store stopped_store 1 stop_command
          stop_result reflexive stopped_now

-- A larger budget.
abbrev budget_command : RunControlCommand
budget_command = command 102 update_budget (some (("max_model_calls", integer (natural 40)) ∷ []))

abbrev larger_budget : RunBudget
larger_budget = record usual_budget { max_model_calls = 40 }

abbrev budget_store : Store
budget_store =
    conclude tools now 1 budget_command
      (record active_run { budget = to_data parse print larger_budget })
      (new_control tools now 1 budget_command) "workflow.budget.updated"
      (new_budget (to_data parse print larger_budget) used)
      (save_control 102 (new_control tools now 1 budget_command) store)

abbrev budget_result : RunControlResult
budget_result = record pause_result {
  result_command_id = 102;
  result_action = update_budget;
  command_status = command_applied;
  result_budget = larger_budget;
}

changed :
    change_budget tools now (natural 64) store 1 budget_command ≡ ok (budget_store, budget_result)
unfolding transact apply_change record_found budget_change result_of budget_from run_usage from_data
    decimal_of run_budget all_positive all_finite replace with_values with_value
    budget_can_cover_usage to_data
changed = refl

change_budget-covers_example : CoversUsage tools now (natural 64) store budget_store 1
change_budget-covers_example =
    change_budget-covers tools parse-print now (natural 64) 1 budget_command store budget_store
      budget_result refl changed
