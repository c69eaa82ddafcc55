-- ===== src/ControlStore/Contracts.antt =====
-- apps/api/open_hollywood_api/persistence/models.py and services/run_controls.py: the rows of a run and
-- of its control commands. A UUID is a number, and a time a number of microseconds; a row's own ID is
-- its key in the store.
use open_hollywood.Models.{Decimal}
use open_hollywood.RunControls.Limits.{BudgetLimit, RunUsage}
use open_hollywood.RunControls.{RunBudget, RunControlStatus, Value, BudgetError, RunControlAction}
use open_hollywood.Prelude.{Dict, ℕ, Bool, Option, List, string_eq, nat_eq, nat_beq, String}

pub data RunStatus : Type 0 where
  pending running paused succeeded failed cancelled : RunStatus

abbrev pub run_status_index : RunStatus → ℕ
run_status_index pending = 0
run_status_index running = 1
run_status_index paused = 2
run_status_index succeeded = 3
run_status_index failed = 4
run_status_index cancelled = 5

abbrev pub status_is : RunStatus → RunStatus → Bool
status_is a b = nat_beq (run_status_index a) (run_status_index b)

pub data InvocationStatus : Type 0 where
  invocation_pending invocation_running invocation_succeeded invocation_failed
        invocation_cancelled :
      InvocationStatus

pub data RunPauseReason : Type 0 where
  user budget_reason human_approval : RunPauseReason

pub record AgentInvocation : Type 0 where
  pub invocation_status : InvocationStatus
  pub invocation_input_tokens : ℕ
  pub invocation_output_tokens : ℕ
  pub estimated_cost_usd : ℕ
  pub invocation_completed_at : Option ℕ
  pub invocation_error_code : Option String
  pub invocation_error_message : Option String

pub record WorkflowRun : Type 0 where
  pub status : RunStatus
  pub pause_reason : Option RunPauseReason
  pub current_node : Option String
  pub checkpoint_id : Option String
  pub budget : Dict String Value
  pub active_elapsed_seconds : ℕ
  pub active_started_at : Option ℕ
  pub completed_at : Option ℕ
  pub error_code : Option String
  pub error_message : Option String
  pub invocations : List AgentInvocation

pub record WorkflowRunControl : Type 0 where
  pub control_run_id : ℕ
  pub action : RunControlAction
  pub target_node : Option String
  pub budget_updates : Option (Dict String Value)
  pub control_status : RunControlStatus
  pub control_checkpoint_id : Option String
  pub resulting_workflow_run_id : Option ℕ
  pub created_at : ℕ
  pub applied_at : Option ℕ
  pub control_error_message : Option String

-- The payload of an event beside the ID of its command.
pub data EventDetails : Type 0 where
  no_details : EventDetails
  at_node : Option String → EventDetails
  new_budget : Dict String Value → RunUsage → EventDetails
  pause_details : RunPauseReason → List BudgetLimit → Option RunUsage → EventDetails
  retry_details : (resulting : ℕ) (target : Option String) → EventDetails

-- `source` is "human" exactly for an event with the ID of a command.
pub record WorkflowEvent : Type 0 where
  pub event_run_id : ℕ
  pub event_type : String
  pub event_command_id : Option ℕ
  pub details : EventDetails

pub record Store : Type 0 where
  pub runs : Dict ℕ WorkflowRun
  pub controls : Dict ℕ WorkflowRunControl
  pub events : List WorkflowEvent

pub record RunControlResult : Type 0 where
  pub result_command_id : ℕ
  pub result_run_id : ℕ
  pub result_action : RunControlAction
  pub command_status : RunControlStatus
  pub workflow_status : RunStatus
  pub result_pause_reason : Option RunPauseReason
  pub result_target_node : Option String
  pub result_resulting_run_id : Option ℕ
  pub result_checkpoint_id : Option String
  pub result_budget : RunBudget
  pub usage : RunUsage
  pub result_error_message : Option String

-- RunControlError, by its message, and the ValueErrors of a budget and of a wrong method
pub data ControlError : Type 0 where
  wrong_action : ControlError
  command_reused : ControlError
  unknown_run unknown_command : ℕ → ControlError
  cannot_pause cannot_stop cannot_change_budget cannot_resume cannot_retry :
      RunStatus → ControlError
  decision_required reason_invalid : ControlError
  below_usage : ControlError
  not_failed no_checkpoint wrong_target : ControlError
  budget_error : BudgetError → ControlError

-- The code that the store calls: Python's decimals as in `RunBudget`, with the amount that one cent is;
-- `==` of two JSON objects; and the redaction of secrets, which also cuts the text to its limit.
pub record ControlTools : Type 0 where
  pub parse : Value → Option Decimal
  pub print : ℕ → String
  pub cent : ℕ
  pub same_object : Dict String Value → Dict String Value → Bool
  pub redact : String → String
