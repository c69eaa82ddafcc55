-- ===== src/RunControls/Budgets.antt =====
-- What a budget that the constructor accepts is, and what keeps it so.
use open_hollywood.Prelude.{
  Integer, ℕ, ◌≤◌, ◌≡◌, subst, true, Option, some, arith, ok, >>=-eq-ok, guard-bind, string_eq,
  nat_eq, leb, String, Dict, keys, subset, ok-injective,
}
use open_hollywood.Models.{Decimal}
use open_hollywood.RunControls.Contracts.{
  decimal_of, all_positive, numbers_of, all_finite, all_positive, decimal_of, with_values, to_data,
  budget_fields, from_data, replace, values_of, BudgetOf, Value, run_budget, RunBudget, text,
}

-- The rules of a budget.
pub record IsValid (b : RunBudget) : Type 0 where
  pub steps : 1 ≤ b.max_graph_steps
  pub calls : 1 ≤ b.max_model_calls
  pub call_input : 1 ≤ b.per_call_input_tokens
  pub call_output : 1 ≤ b.per_call_output_tokens
  pub seconds : 1 ≤ b.max_wall_clock_seconds
  pub input : b.per_call_input_tokens ≤ b.max_input_tokens
  pub output : b.per_call_output_tokens ≤ b.max_output_tokens
  pub cost : b.per_call_cost_usd ≤ b.max_cost_usd

-- What the constructor accepts is a valid budget, whose values are the given ones.
run_budget-eq-ok :
    (raw : BudgetOf Integer Decimal) (b : RunBudget) → run_budget raw ≡ ok b → IsValid b
unfolding run_budget all_positive
run_budget-eq-ok raw b h =
    let (t1, h1) = guard-bind (all_positive raw) _ _ h in
    let (t2, h2) = guard-bind (all_finite raw) _ _ h1 in
    let n = numbers_of raw in
    let (t3, h3) = guard-bind (leb n.per_call_input_tokens n.max_input_tokens) _ _ h2 in
    let (t4, h4) = guard-bind (leb n.per_call_output_tokens n.max_output_tokens) _ _ h3 in
    let (t5, h5) = guard-bind (leb n.per_call_cost_usd n.max_cost_usd) _ _ h4 in
    subst IsValid (ok-injective h5) (record {
      steps = ground arith;
      calls = ground arith;
      call_input = ground arith;
      call_output = ground arith;
      seconds = ground arith;
      input = ground arith;
      output = ground arith;
      cost = ground arith;
    })

run_budget-values_of : (b : RunBudget) → IsValid b → run_budget (values_of b) ≡ ok b
unfolding run_budget all_positive all_finite
run_budget-values_of b v = ground arith

module _ (parse : Value → Option Decimal) (print : ℕ → String) where
  -- An update that is accepted names fields of a budget only, and its result keeps every rule of a
  -- budget, whatever values it sets.
  pub replace-IsValid :
      (b b' : RunBudget) (updates : Dict String Value)
      → replace parse print b updates ≡ ok b'
      → IsValid b' × (subset (keys updates) budget_fields ≡ true)
  unfolding replace
  replace-IsValid b b' updates h =
      let (known, h1) = guard-bind (subset (keys updates) budget_fields) _ _ h in
      let (values, e2, h2) = >>=-eq-ok (with_values parse print (values_of b) updates) _ h1 in
      (run_budget-eq-ok values b' h2, known)

  -- A valid budget that is written as JSON data and read again is the same budget, whatever the
  -- defaults are, provided that parsing a printed amount gives the amount back.
  pub from_data-to_data :
      (defaults b : RunBudget)
      → ((n : ℕ) → parse (text (print n)) ≡ some (Decimal.amount n))
      → IsValid b
      → from_data parse print defaults (to_data parse print b) ≡ ok b
  unfolding from_data to_data decimal_of
  from_data-to_data defaults b inverse v =
      rw (inverse b.max_cost_usd, inverse b.per_call_cost_usd) (run_budget-values_of b v)
