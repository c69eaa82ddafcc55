-- ===== src/Tests/Budgets.antt =====
-- A run's budget, its usage and an update.
use open_hollywood.Tests.Decimals.{parse, print, parse-print}
use open_hollywood.RunControls.{
  RunBudget, Value, integer, to_data, from_data, replace, with_values, with_value, run_budget,
  all_positive, all_finite, budget_fields,
}
use open_hollywood.RunControls.Limits.{
  RunUsage, AfterCall, projected_budget_limits, budget_can_cover_usage, HasRoom,
  projected_budget_limits-covers,
}
use open_hollywood.RunControls.Budgets.{IsValid, replace-IsValid, from_data-to_data}
use open_hollywood.Prelude.{
  natural, Dict, keys, subset, ℕ, ◌*◌, ◌<◌, ◌≡◌, refl, true, [], ◌∷◌, arith, ok, string_eq, nat_eq,
  String, ◌↔◌,
}

abbrev budget : RunBudget
budget = record {
  max_graph_steps = 64;
  max_model_calls = 32;
  max_input_tokens = 250000;
  max_output_tokens = 50000;
  max_cost_usd = 200;
  max_wall_clock_seconds = 3600;
  per_call_input_tokens = 8000;
  per_call_output_tokens = 2000;
  per_call_cost_usd = 25;
}

abbrev usage : ℕ → RunUsage
usage calls = record {
  graph_steps = 100;
  model_calls = calls;
  input_tokens = calls * 7000;
  output_tokens = calls * 1500;
  cost_usd = calls * 20;
  wall_clock_seconds = calls * 60;
}

room_left : projected_budget_limits budget (usage 8) true ≡ []
unfolding projected_budget_limits
room_left = refl

projected_budget_limits-covers_example :
    (projected_budget_limits budget (usage 8) true ≡ []) ↔ ((480 < 3600) × HasRoom budget (usage 8))
projected_budget_limits-covers_example = projected_budget_limits-covers budget (usage 8)

next_call : AfterCall budget (usage 8) (usage 9)
next_call = record {
  one_call = omega arith;
  input = omega arith;
  output = omega arith;
  cost = omega arith;
}

-- A ninth call within its reservation and its time is covered.
ninth_call : budget_can_cover_usage budget (usage 9) ≡ true
unfolding projected_budget_limits
ninth_call = ((projected_budget_limits-covers budget (usage 8)).0 refl).1 (usage 9) next_call

budget-IsValid : IsValid budget
budget-IsValid = record {
  steps = omega arith;
  calls = omega arith;
  call_input = omega arith;
  call_output = omega arith;
  seconds = omega arith;
  input = omega arith;
  output = omega arith;
  cost = omega arith;
}

from_data-to_data_example : from_data parse print budget (to_data parse print budget) ≡ ok budget
from_data-to_data_example = from_data-to_data parse print budget budget parse-print budget-IsValid

abbrev update : Dict String Value
update = ("max_model_calls", integer (natural 40)) ∷ []

abbrev larger : RunBudget
larger = record budget { max_model_calls = 40 }

replaced : replace parse print budget update ≡ ok larger
unfolding replace with_values with_value run_budget all_positive all_finite
replaced = refl

replace-IsValid_example : IsValid larger × (subset (keys update) budget_fields ≡ true)
replace-IsValid_example = replace-IsValid parse print budget larger update replaced
