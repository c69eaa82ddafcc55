-- ===== src/RunControls/Contracts.antt =====
-- `RunBudget`, its JSON form and its updates, and the control commands.
use open_hollywood.Prelude.{
  Integer, natural, negative, ◌&&◌, false, Dict, keys, get, or_value, subset, ℕ, Bool, Option, none,
  some, List, [], ◌∷◌, Result, ok, raise, ◌>>=◌, ◌>>◌, guard, if◌then◌else◌, ◌==◌, string_eq,
  nat_eq, leb, String,
}
use open_hollywood.Models.{is_amount, Decimal}

-- The fields of `RunBudget`. As the constructor gets them they are any integers and decimals; a budget
-- that it has accepted has natural numbers, its costs in the smallest unit of money.
pub record BudgetOf (I : Type 0) (C : Type 0) : Type 0 where
  pub max_graph_steps : I
  pub max_model_calls : I
  pub max_input_tokens : I
  pub max_output_tokens : I
  pub max_cost_usd : C
  pub max_wall_clock_seconds : I
  pub per_call_input_tokens : I
  pub per_call_output_tokens : I
  pub per_call_cost_usd : C

abbrev pub RunBudget : Type 0
RunBudget = BudgetOf ℕ ℕ

pub data BudgetError : Type 0 where
  not_positive not_finite reservation_exceeds_limit unknown_field not_an_integer not_a_decimal :
      BudgetError

-- `_is_integer(value) and not value < 1`, of an integer
abbrev pub is_positive : Integer → Bool
is_positive (natural n) = leb 1 n
is_positive (negative n) = false

-- The natural number that an integer or an amount is; a budget has no others.
abbrev pub number_of : Integer → ℕ
number_of (natural n) = n
number_of (negative n) = 0

abbrev pub amount_of : Decimal → ℕ
amount_of (Decimal.amount n) = n
amount_of _ = 0

abbrev pub numbers_of : BudgetOf Integer Decimal → RunBudget
numbers_of b = record {
  max_graph_steps = number_of b.max_graph_steps;
  max_model_calls = number_of b.max_model_calls;
  max_input_tokens = number_of b.max_input_tokens;
  max_output_tokens = number_of b.max_output_tokens;
  max_cost_usd = amount_of b.max_cost_usd;
  max_wall_clock_seconds = number_of b.max_wall_clock_seconds;
  per_call_input_tokens = number_of b.per_call_input_tokens;
  per_call_output_tokens = number_of b.per_call_output_tokens;
  per_call_cost_usd = amount_of b.per_call_cost_usd;
}

-- The loops over the integers and over the costs.
unfoldable pub all_positive : BudgetOf Integer Decimal → Bool
all_positive b =
    is_positive b.max_graph_steps
    && is_positive b.max_model_calls
    && is_positive b.max_input_tokens
    && is_positive b.max_output_tokens
    && is_positive b.max_wall_clock_seconds
    && is_positive b.per_call_input_tokens
    && is_positive b.per_call_output_tokens

unfoldable pub all_finite : BudgetOf Integer Decimal → Bool
all_finite b = is_amount b.max_cost_usd && is_amount b.per_call_cost_usd

-- `RunBudget.__post_init__`
unfoldable pub run_budget : BudgetOf Integer Decimal → Result BudgetError RunBudget
run_budget raw = do
  guard (all_positive raw) BudgetError.not_positive
  guard (all_finite raw) BudgetError.not_finite
  let b = numbers_of raw
  guard (leb b.per_call_input_tokens b.max_input_tokens) BudgetError.reservation_exceeds_limit
  guard (leb b.per_call_output_tokens b.max_output_tokens) BudgetError.reservation_exceeds_limit
  guard (leb b.per_call_cost_usd b.max_cost_usd) BudgetError.reservation_exceeds_limit
  ok b

-- The values of a JSON object, as far as the budget tells them apart.
pub data Value : Type 0 where
  integer : Integer → Value
  boolean : Bool → Value
  text : String → Value
  decimal : Decimal → Value
  other : Value

-- `_integer`
abbrev pub integer_of : Value → Result BudgetError Integer
integer_of (integer n) = ok n
integer_of _ = raise BudgetError.not_an_integer

-- A budget's values as they are given back to the constructor.
abbrev pub values_of : RunBudget → BudgetOf Integer Decimal
values_of b = record {
  max_graph_steps = natural b.max_graph_steps;
  max_model_calls = natural b.max_model_calls;
  max_input_tokens = natural b.max_input_tokens;
  max_output_tokens = natural b.max_output_tokens;
  max_cost_usd = Decimal.amount b.max_cost_usd;
  max_wall_clock_seconds = natural b.max_wall_clock_seconds;
  per_call_input_tokens = natural b.per_call_input_tokens;
  per_call_output_tokens = natural b.per_call_output_tokens;
  per_call_cost_usd = Decimal.amount b.per_call_cost_usd;
}

abbrev pub budget_fields : List String
budget_fields =
    "max_graph_steps" ∷ "max_model_calls" ∷ "max_input_tokens" ∷ "max_output_tokens"
    ∷ "max_cost_usd" ∷ "max_wall_clock_seconds" ∷ "per_call_input_tokens" ∷ "per_call_output_tokens"
    ∷ "per_call_cost_usd" ∷ []

-- `parse` is `Decimal(str(value))`, which may fail, and `print` is `str` of an amount.
module _ (parse : Value → Option Decimal) (print : ℕ → String) where
  -- `_decimal`
  unfoldable pub decimal_of : Value → Result BudgetError Decimal
  decimal_of (boolean b) = raise BudgetError.not_a_decimal
  decimal_of v = elim (parse v) [ none ↦ raise BudgetError.not_a_decimal | some d ↦ ok d ]

  -- `RunBudget.to_data`
  unfoldable pub to_data : RunBudget → Dict String Value
  to_data b =
      ("max_graph_steps", integer (natural b.max_graph_steps))
      ∷ ("max_model_calls", integer (natural b.max_model_calls))
      ∷ ("max_input_tokens", integer (natural b.max_input_tokens))
      ∷ ("max_output_tokens", integer (natural b.max_output_tokens))
      ∷ ("max_cost_usd", text (print b.max_cost_usd))
      ∷ ("max_wall_clock_seconds", integer (natural b.max_wall_clock_seconds))
      ∷ ("per_call_input_tokens", integer (natural b.per_call_input_tokens))
      ∷ ("per_call_output_tokens", integer (natural b.per_call_output_tokens))
      ∷ ("per_call_cost_usd", text (print b.per_call_cost_usd))
      ∷ []

  -- `RunBudget.from_data`; `d` is the budget of defaults.
  unfoldable pub from_data : RunBudget → Dict String Value → Result BudgetError RunBudget
  from_data d value = do
    let number =
        λ (name : String) (n : ℕ). integer_of (or_value (get name value) (integer (natural n)))
    let money = λ (name : String) (n : ℕ).
        decimal_of (or_value (get name value) (decimal (Decimal.amount n)))
    graph_steps ← number "max_graph_steps" d.max_graph_steps
    model_calls ← number "max_model_calls" d.max_model_calls
    input_tokens ← number "max_input_tokens" d.max_input_tokens
    output_tokens ← number "max_output_tokens" d.max_output_tokens
    cost ← money "max_cost_usd" d.max_cost_usd
    seconds ← number "max_wall_clock_seconds" d.max_wall_clock_seconds
    call_input ← number "per_call_input_tokens" d.per_call_input_tokens
    call_output ← number "per_call_output_tokens" d.per_call_output_tokens
    call_cost ← money "per_call_cost_usd" d.per_call_cost_usd
    run_budget (record {
      max_graph_steps = graph_steps;
      max_model_calls = model_calls;
      max_input_tokens = input_tokens;
      max_output_tokens = output_tokens;
      max_cost_usd = cost;
      max_wall_clock_seconds = seconds;
      per_call_input_tokens = call_input;
      per_call_output_tokens = call_output;
      per_call_cost_usd = call_cost;
    })

  -- `values[name] = ...`, for a name that is a field.
  unfoldable pub with_value :
      BudgetOf Integer Decimal → String × Value → Result BudgetError (BudgetOf Integer Decimal)
  with_value b (name, v) =
      if name == "max_cost_usd"
      then (decimal_of v >>= λ d. ok (record b { max_cost_usd = d }))
      else if name == "per_call_cost_usd"
      then (decimal_of v >>= λ d. ok (record b { per_call_cost_usd = d }))
      else (integer_of v >>= λ n. ok (
          if name == "max_graph_steps"
          then record b { max_graph_steps = n }
          else if name == "max_model_calls"
          then record b { max_model_calls = n }
          else if name == "max_input_tokens"
          then record b { max_input_tokens = n }
          else if name == "max_output_tokens"
          then record b { max_output_tokens = n }
          else if name == "max_wall_clock_seconds"
          then record b { max_wall_clock_seconds = n }
          else if name == "per_call_input_tokens"
          then record b { per_call_input_tokens = n }
          else if name == "per_call_output_tokens"
          then record b { per_call_output_tokens = n }
          else b))

  unfoldable pub with_values :
      BudgetOf Integer Decimal → Dict String Value → Result BudgetError (BudgetOf Integer Decimal)
  with_values b [] = ok b
  with_values b (update ∷ updates) = with_value b update >>= λ b'. with_values b' updates

  -- `RunBudget.replace`
  unfoldable pub replace : RunBudget → Dict String Value → Result BudgetError RunBudget
  replace b updates = do
    guard (subset (keys updates) budget_fields) BudgetError.unknown_field
    values ← with_values (values_of b) updates
    run_budget values
