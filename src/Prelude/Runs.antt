-- ===== src/Prelude/Runs.antt =====
-- Runs of a compiled state graph: nodes that return or raise, edges that choose the next node or the
-- end, and the runtime's limit on steps. The rules for such runs: an invariant of the steps, and a
-- measure that falls.
use Prim.Native.Nat.{ℕ, zero, suc, ◌≤◌, ◌<◌}
use mathlib.Core.Path.{◌≡◌, refl, sym, ◌∙◌, subst}
use mathlib.Core.Logic.{◌≢◌, ◌⊎◌, inl, inr}
use mathlib.Core.Option.{Option, none, some}
use native.Mathlib.Omega.{arith}
use open_hollywood.Prelude.Checks.{Result, ok, raise, error-injective}
use open_hollywood.Prelude.Tests.{Option-cases}

pub Result-cases {ℓ κ} :
    {E : Type ℓ} {A : Type κ} (r : Result E A) → ((e : E) × (r ≡ raise e)) ⊎ ((a : A) × (r ≡ ok a))
Result-cases (raise e) = inl (e, refl)
Result-cases (ok a) = inr (a, refl)

module _ {ℓ κ μ} {E : Type ℓ} {N : Type κ} {S : Type μ} (step : ℕ → N → S → Result E S)
    (route : N → S → Option N) (full : E) where
  -- `limit` is what is left of the limit on steps, `n` the number of the step.
  unfoldable pub run : ℕ → ℕ → N → S → Result E S
  run zero n node s = raise full
  run (suc limit) n node s = elim (step n node s) [
    | raise e ↦ raise e
    | ok s' ↦ elim (route node s') [ none ↦ ok s' | some node' ↦ run limit (suc n) node' s' ]
  ]

  module _ (limit n : ℕ) (node : N) (s : S) where
    pub run-raise : (e : E) → step n node s ≡ raise e → run (suc limit) n node s ≡ raise e
    unfolding run
    run-raise e h = rw (h, run)

    pub run-stop :
        (s' : S) → step n node s ≡ ok s' → route node s' ≡ none → run (suc limit) n node s ≡ ok s'
    unfolding run
    run-stop s' h r = rw (h, run) (rw (r, run))

    pub run-next :
        (s' : S) (node' : N)
        → step n node s ≡ ok s'
        → route node s' ≡ some node'
        → run (suc limit) n node s ≡ run limit (suc n) node' s'
    unfolding run
    run-next s' node' h r = rw (h, run) (rw (r, run))

  module _ {ν} (P : N → S → Type ν) where
    abbrev pub Keeps : Type (ν ⊔ ℓ ⊔ κ ⊔ μ)
    Keeps =
        (n : ℕ) (node node' : N) (s s' : S)
        → P node s
        → step n node s ≡ ok s'
        → route node s' ≡ some node'
        → P node' s'

  module _ {ν ρ} (P : N → S → Type ν) where
    -- What the steps keep, and what the last step yields from it, holds of the state that a run returns.
    pub run_inv :
        (Q : S → Type ρ)
        → Keeps P
        → ((n : ℕ) (node : N) (s s' : S)
            → P node s
            → step n node s ≡ ok s'
            → route node s' ≡ none
            → Q s')
        → (limit n : ℕ) (node : N) (s : S) {t : S} → P node s
        → run limit n node s ≡ ok t
        → Q t
    unfolding run
    run_inv Q keep end zero n node s p h = cc
    run_inv Q keep end (suc limit) n node s {t} p h = elim (Result-cases (step n node s)) [
      | inl (e, he) ↦ cc (run-raise limit n node s e he, h)
      | inr (s', hs) ↦ elim (Option-cases (route node s')) [
        | inl hr ↦
            let same : s' ≡ t = ground (arith, run-stop limit n node s s' hs hr) in
            subst Q same (end n node s s' p hs hr)
        | inr (node', hn) ↦
            run_inv Q keep end limit (suc n) node' s' (keep n node node' s s' p hs hn)
              (sym (run-next limit n node s s' node' hs hn) ∙ h)
      ]
    ]

  module _ {ν} (P : N → S → Type ν) where
    -- A run whose measure is within the limit does not reach the limit.
    pub run-ne-limit :
        (measure : N → S → ℕ)
        → Keeps P
        → ((n : ℕ) (node node' : N) (s s' : S)
            → P node s
            → step n node s ≡ ok s'
            → route node s' ≡ some node'
            → measure node' s' < measure node s)
        → ((node : N) (s : S) → P node s → 0 < measure node s)
        → ((n : ℕ) (node : N) (s : S) → P node s → step n node s ≢ raise full)
        → (limit n : ℕ) (node : N) (s : S) → P node s
        → measure node s ≤ limit
        → run limit n node s ≢ raise full
    unfolding run
    run-ne-limit m keep fall pos own zero n node s p le h = absurd (omega (arith, pos node s p))
    run-ne-limit m keep fall pos own (suc limit) n node s p le h =
        elim (Result-cases (step n node s)) [
          | inl (e, he) ↦ own n node s p (he ∙ sym (run-raise limit n node s e he) ∙ h)
          | inr (s', hs) ↦ elim (Option-cases (route node s')) [
            | inl hr ↦ cc (run-stop limit n node s s' hs hr, h)
            | inr (node', hn) ↦
                run-ne-limit m keep fall pos own limit (suc n) node' s'
                  (keep n node node' s s' p hs hn) (omega (arith, fall n node node' s s' p hs hn))
                  (sym (run-next limit n node s s' node' hs hn) ∙ h)
          ]
        ]

    -- An error that no step raises, other than the one for the limit, is no error of the run.
    pub run-ne-error :
        (e : E)
        → full ≢ e
        → Keeps P
        → ((n : ℕ) (node : N) (s : S) → P node s → step n node s ≢ raise e)
        → (limit n : ℕ) (node : N) (s : S) → P node s
        → run limit n node s ≢ raise e
    unfolding run
    run-ne-error e ne keep own zero n node s p h = ne (error-injective h)
    run-ne-error e ne keep own (suc limit) n node s p h = elim (Result-cases (step n node s)) [
      | inl (e', he) ↦ own n node s p (he ∙ sym (run-raise limit n node s e' he) ∙ h)
      | inr (s', hs) ↦ elim (Option-cases (route node s')) [
        | inl hr ↦ cc (run-stop limit n node s s' hs hr, h)
        | inr (node', hn) ↦
            run-ne-error e ne keep own limit (suc n) node' s' (keep n node node' s s' p hs hn)
              (sym (run-next limit n node s s' node' hs hn) ∙ h)
      ]
    ]
