-- ===== src/Models.antt =====
-- engine/open_hollywood_engine/models/contracts.py: the envelope of one model call. Python's
-- `Decimal` is a number of some smallest unit of money, so that sums are exact.
use open_hollywood.Prelude.{ℕ, ◌+◌, Bool, true, false, leb, ◌&&◌}

pub data Decimal : Type 0 where
  not_a_number infinity : Decimal
  -- `negative n` is -(n + 1).
  negative : ℕ → Decimal
  amount : ℕ → Decimal

-- `d.is_finite() and not d < 0`
abbrev pub is_amount : Decimal → Bool
is_amount (amount n) = true
is_amount _ = false

pub record ModelCallBudget : Type 0 where
  pub max_input_tokens : ℕ
  pub max_output_tokens : ℕ
  pub max_cost_usd : Decimal

-- `ModelCallBudget.__post_init__`
abbrev pub call_budget_valid : ModelCallBudget → Bool
call_budget_valid b =
    leb 1 b.max_input_tokens && leb 1 b.max_output_tokens && is_amount b.max_cost_usd

pub max_context_tokens : ModelCallBudget → ℕ
max_context_tokens b = b.max_input_tokens + b.max_output_tokens
