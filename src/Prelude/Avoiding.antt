-- ===== src/Prelude/Avoiding.antt =====
-- Calls that never raise certain errors.
use mathlib.Core.Path.{◌≡◌, refl, subst}
use mathlib.Core.Bool.{Bool, true, false}
use open_hollywood.Prelude.Checks.{Result, ok, raise, ◌>>=◌, ◌>>◌, guard, error-injective}

module _ {E : Type 0} (excluded : E → Bool) where
  -- A result whose error, if it has one, is not excluded.
  pub record Spares {A : Type 0} (r : Result E A) : Type 0 where
    pub spares : (e : E) → r ≡ raise e → excluded e ≡ false

  pub Spares-ok : {A : Type 0} (a : A) → Spares (ok a)
  Spares-ok a = record { spares = λ e h. cc h }

  pub Spares-raise : {A : Type 0} (e : E) → excluded e ≡ false → Spares {A = A} (raise e)
  Spares-raise e known = record {
    spares = λ e' h. subst (λ x. excluded x ≡ false) (error-injective h) known;
  }

  pub Spares-bind :
      {A B : Type 0} (call : Result E A) (next : A → Result E B)
      → Spares call
      → ((a : A) → Spares (next a))
      → Spares (call >>= next)
  Spares-bind (ok a) next first later = later a
  Spares-bind (raise e') next first later = Spares-raise e' (first.spares e' refl)

  pub Spares-guard :
      {B : Type 0} (c : Bool) (e : E) (rest : Result E B)
      → excluded e ≡ false
      → Spares rest
      → Spares (guard c e >> rest)
  Spares-guard true e rest known later = later
  Spares-guard false e rest known later = Spares-raise e known
