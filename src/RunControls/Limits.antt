-- ===== src/RunControls/Limits.antt =====
-- The limits that the next node would reach, and the usage that a budget covers.
use open_hollywood.RunControls.Contracts.{RunBudget}
use open_hollywood.Prelude.{
  ℕ, ◌+◌, ◌≤◌, ◌<◌, ◌≡◌, Bool, true, false, ◌&&◌, List, [], ◌∷◌, ◌++◌, arith, if◌then◌else◌,
  string_eq, nat_eq, ltb, leb, ◌↔◌,
}

pub record RunUsage : Type 0 where
  pub graph_steps : ℕ
  pub model_calls : ℕ
  pub input_tokens : ℕ
  pub output_tokens : ℕ
  pub cost_usd : ℕ
  pub wall_clock_seconds : ℕ

pub data BudgetLimit : Type 0 where
  graph_steps_limit model_calls_limit input_tokens_limit output_tokens_limit cost_limit
        wall_clock_limit :
      BudgetLimit

abbrev pub limit_if : Bool → BudgetLimit → List BudgetLimit
limit_if true l = l ∷ []
limit_if false l = []

-- `projected_budget_limits`
unfoldable pub projected_budget_limits : RunBudget → RunUsage → Bool → List BudgetLimit
projected_budget_limits b u includes_model_call =
    limit_if (leb b.max_wall_clock_seconds u.wall_clock_seconds) wall_clock_limit
    ++ (if includes_model_call
        then limit_if (ltb b.max_model_calls (u.model_calls + 1)) model_calls_limit
          ++ (limit_if (ltb b.max_input_tokens (u.input_tokens + b.per_call_input_tokens))
                input_tokens_limit
              ++ (limit_if (ltb b.max_output_tokens (u.output_tokens + b.per_call_output_tokens))
                    output_tokens_limit
                  ++ limit_if (ltb b.max_cost_usd (u.cost_usd + b.per_call_cost_usd)) cost_limit))
        else [])

-- `budget_can_cover_usage`
unfoldable pub budget_can_cover_usage : RunBudget → RunUsage → Bool
budget_can_cover_usage b u =
    leb u.model_calls b.max_model_calls
    && leb u.input_tokens b.max_input_tokens
    && leb u.output_tokens b.max_output_tokens
    && leb u.cost_usd b.max_cost_usd
    && leb u.wall_clock_seconds b.max_wall_clock_seconds

-- A usage after one more model call that has stayed within the budget's reservation for a call; it may
-- have taken any time.
pub record AfterCall (b : RunBudget) (u v : RunUsage) : Type 0 where
  pub one_call : v.model_calls ≤ u.model_calls + 1
  pub input : v.input_tokens ≤ u.input_tokens + b.per_call_input_tokens
  pub output : v.output_tokens ≤ u.output_tokens + b.per_call_output_tokens
  pub cost : v.cost_usd ≤ u.cost_usd + b.per_call_cost_usd

-- Nothing but time can keep the budget from covering what a call within its reservation leaves.
abbrev pub HasRoom : RunBudget → RunUsage → Type 0
HasRoom b u =
    (v : RunUsage)
    → AfterCall b u v
    → budget_can_cover_usage b v ≡ leb v.wall_clock_seconds b.max_wall_clock_seconds

-- The usage after a call that has used up its reservation in no time.
abbrev reserved : RunBudget → RunUsage → RunUsage
reserved b u = record u {
  model_calls = u.model_calls + 1;
  input_tokens = u.input_tokens + b.per_call_input_tokens;
  output_tokens = u.output_tokens + b.per_call_output_tokens;
  cost_usd = u.cost_usd + b.per_call_cost_usd;
}

reserved-AfterCall : (b : RunBudget) (u : RunUsage) → AfterCall b u (reserved b u)
reserved-AfterCall b u = record {
  one_call = omega arith;
  input = omega arith;
  output = omega arith;
  cost = omega arith;
}

reserved-projected :
    (b : RunBudget) (u : RunUsage)
    → u.wall_clock_seconds < b.max_wall_clock_seconds
    → budget_can_cover_usage b (reserved b u) ≡ leb u.wall_clock_seconds b.max_wall_clock_seconds
    → projected_budget_limits b u true ≡ []
unfolding projected_budget_limits budget_can_cover_usage
reserved-projected b u time covered = ground arith

projected-HasRoom :
    (b : RunBudget) (u : RunUsage)
    → projected_budget_limits b u true ≡ []
    → (u.wall_clock_seconds < b.max_wall_clock_seconds) × HasRoom b u
unfolding projected_budget_limits budget_can_cover_usage
projected-HasRoom b u h = (ground arith, λ v after. ground arith)

-- No limit is projected for a node with a model call exactly if the run has time left and, after any
-- call within its reservation, the budget covers the usage if and only if the run is not over its time.
pub projected_budget_limits-covers :
    (b : RunBudget) (u : RunUsage)
    → (projected_budget_limits b u true ≡ [])
      ↔ ((u.wall_clock_seconds < b.max_wall_clock_seconds) × HasRoom b u)
projected_budget_limits-covers b u = (
  projected-HasRoom b u,
  λ h. reserved-projected b u h.0 (h.1 (reserved b u) (reserved-AfterCall b u)),
)
