-- ===== src/ControlStore/Usage.antt =====
-- apps/api/open_hollywood_api/services/run_controls.py: what a run has used, and its active intervals.
use open_hollywood.RunControls.Limits.{RunUsage}
use Prim.Native.Nat.{◌/◌}
use open_hollywood.ControlStore.Contracts.{
  status_is, WorkflowRun, Store, WorkflowEvent, AgentInvocation, running,
}
use open_hollywood.Prelude.{
  count_if, or_value, ℕ, ◌+◌, ◌-◌, Bool, ◌&&◌, Option, none, some, List, [], ◌∷◌, if◌then◌else◌,
  ◌==◌, string_eq, nat_eq, nat_beq, length, run,
}

-- `max(0, int((now - started).total_seconds()))`
abbrev pub seconds_between : ℕ → ℕ → ℕ
seconds_between started now = (now - started) / 1000000

-- The seconds of the interval that is open, if there is one.
abbrev pub open_seconds : Option ℕ → ℕ → ℕ
open_seconds none now = 0
open_seconds (some started) now = seconds_between started now

abbrev pub sum_of : (AgentInvocation → ℕ) → List AgentInvocation → ℕ
sum_of amount [] = 0
sum_of amount (i ∷ is) = amount i + sum_of amount is

-- The events that count as graph steps of a run.
abbrev pub is_node_start : ℕ → WorkflowEvent → Bool
is_node_start run e = nat_beq e.event_run_id run && e.event_type == "workflow.node.started"

-- `_active_elapsed_seconds`
abbrev pub seconds_at : ℕ → WorkflowRun → ℕ
seconds_at now run =
    run.active_elapsed_seconds
    + (if status_is run.status running then open_seconds run.active_started_at now else 0)

-- `run_usage`
unfoldable pub run_usage : ℕ → Store → ℕ → WorkflowRun → RunUsage
run_usage now s run_id run = record {
  graph_steps = count_if (is_node_start run_id) s.events;
  model_calls = length run.invocations;
  input_tokens = sum_of (λ i. i.invocation_input_tokens) run.invocations;
  output_tokens = sum_of (λ i. i.invocation_output_tokens) run.invocations;
  cost_usd = sum_of (λ i. i.estimated_cost_usd) run.invocations;
  wall_clock_seconds = seconds_at now run;
}

-- `start_active_interval`
abbrev pub start_active_interval : ℕ → WorkflowRun → WorkflowRun
start_active_interval now run = record run {
  active_started_at = some (or_value run.active_started_at now);
}

-- `abandon_active_interval`
abbrev pub abandon_active_interval : WorkflowRun → WorkflowRun
abandon_active_interval run = record run { active_started_at = none }

-- `finish_active_interval`
abbrev pub finish_active_interval : ℕ → WorkflowRun → WorkflowRun
finish_active_interval now run = record run {
  active_elapsed_seconds = run.active_elapsed_seconds + open_seconds run.active_started_at now;
  active_started_at = none;
}
