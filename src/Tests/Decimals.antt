-- ===== src/Tests/Decimals.antt =====
-- A stand-in for the decimals that the budgets read and print.
use open_hollywood.Prelude.{
  ℕ, zero, suc, ◌≡◌, refl, ap, Option, none, some, string_eq, nat_eq, String,
}
use open_hollywood.RunControls.{Value, text, decimal}
use open_hollywood.Models.{Decimal}

-- A stand-in for Python's decimals: an amount is printed in unary.
abbrev pub print : ℕ → String
print zero = ""
print (suc n) = String.◌∷◌ "i" (print n)

abbrev pub amount_in : String → ℕ
amount_in String.[] = 0
amount_in (String.◌∷◌ c s) = suc (amount_in s)

abbrev pub parse : Value → Option Decimal
parse (text s) = some (Decimal.amount (amount_in s))
parse (decimal d) = some d
parse _ = none

amount_in-print : (n : ℕ) → amount_in (print n) ≡ n
amount_in-print zero = refl
amount_in-print (suc n) = ap suc (amount_in-print n)

pub parse-print : (n : ℕ) → parse (text (print n)) ≡ some (Decimal.amount n)
parse-print n = ap (λ m. some (Decimal.amount m)) (amount_in-print n)
