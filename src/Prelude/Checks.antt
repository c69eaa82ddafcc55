-- ===== src/Prelude/Checks.antt =====
-- Guards in the order in which the code makes them: the first that fails decides the error.
use mathlib.Core.Path.{ap, ◌≡◌, refl}
use mathlib.Core.Logic.{◌⊎◌, inl, inr}
use mathlib.Core.Bool.{Bool, true, false}
use mathlib.Core.List.{List, [], ◌∷◌, ◌++◌}
use open_hollywood.Prelude.Tests.{if◌then◌else◌}

-- A Python call that returns or raises.
pub data Result {ℓ κ} (E : Type ℓ) (A : Type κ) : Type (ℓ ⊔ κ) where
  raise : E → Result E A
  ok : A → Result E A

infixl 5 ◌>>=◌ ◌>>◌
-- The call that follows, on the value of the first.
abbrev pub ◌>>=◌ {ℓ κ μ} :
    {E : Type ℓ} {X : Type κ} {Y : Type μ} → Result E X → (X → Result E Y) → Result E Y
raise problem >>= next = raise problem
ok value >>= next = next value

-- The call that follows a guard.
abbrev pub ◌>>◌ {ℓ κ} : {E : Type ℓ} {Y : Type κ} → Result E (Unit {0}) → Result E Y → Result E Y
check >> rest = check >>= λ passed. rest

error_of {ℓ κ} : {E : Type ℓ} {A : Type κ} → E → Result E A → E
error_of e (ok b) = e
error_of e (raise e') = e'

pub error-injective {ℓ κ} :
    {E : Type ℓ} {A : Type κ} {a b : E} → ◌≡◌ {A = Result E A} (raise a) (raise b) → a ≡ b
unfolding error_of
error-injective {a} h = ap (error_of a) h

module _ {ℓ} {E : Type ℓ} where
  -- `if not test: raise error`
  abbrev pub guard : Bool → E → Result E (Unit {0})
  guard test problem = if test then ok tt else raise problem

  -- A sequence of guards.
  abbrev pub require : List (Bool × E) → Result E (Unit {0})
  require [] = ok tt
  require ((b, e) ∷ cs) = let rest = require cs in if b then rest else raise e

  abbrev pub AllPass : List (Bool × E) → Type 0
  AllPass [] = Unit
  AllPass ((b, e) ∷ cs) = (b ≡ true) × AllPass cs

  pub require→AllPass : (cs : List (Bool × E)) → require cs ≡ ok tt → AllPass cs
  require→AllPass [] h = tt
  require→AllPass ((true, e) ∷ cs) h = (refl, require→AllPass cs h)
  require→AllPass ((false, e) ∷ cs) h = cc

  pub AllPass→require : (cs : List (Bool × E)) → AllPass cs → require cs ≡ ok tt
  AllPass→require [] h = refl
  AllPass→require ((true, e) ∷ cs) h = AllPass→require cs h.1
  AllPass→require ((false, e) ∷ cs) h = cc (h.0)

  -- A chain that returns has a first call that returned.
  pub >>=-eq-ok {κ μ} :
      {X : Type κ} {Y : Type μ} (call : Result E X) (next : X → Result E Y) {y : Y}
      → (call >>= next) ≡ ok y
      → (x : X) × (call ≡ ok x) × (next x ≡ ok y)
  >>=-eq-ok (raise problem) next h = cc
  >>=-eq-ok (ok x) next h = (x, refl, h)

  -- A chain that raises an error has a first call that raised it, or returned and left it to the next.
  pub >>=-eq-raise {κ μ} :
      {X : Type κ} {Y : Type μ} (call : Result E X) (next : X → Result E Y) {problem : E}
      → (call >>= next) ≡ raise problem
      → (call ≡ raise problem) ⊎ ((x : X) × (call ≡ ok x) × (next x ≡ raise problem))
  >>=-eq-raise (raise e) next h = inl (ap raise (error-injective h))
  >>=-eq-raise (ok x) next h = inr (x, refl, h)

  pub AllPass-append : (cs ds : List (Bool × E)) → AllPass (cs ++ ds) → AllPass cs × AllPass ds
  AllPass-append [] ds h = (tt, h)
  AllPass-append (c ∷ cs) ds h = let rest = AllPass-append cs ds h.1 in ((h.0, rest.0), rest.1)

  pub append-AllPass : (cs ds : List (Bool × E)) → AllPass cs → AllPass ds → AllPass (cs ++ ds)
  append-AllPass [] ds h k = k
  append-AllPass (c ∷ cs) ds h k = (h.0, append-AllPass cs ds h.1 k)

  -- A block that returns has passed the guards it begins with.
  pub require-bind {κ} :
      {B : Type κ} (cs : List (Bool × E)) (k : Result E B) {b : B}
      → (require cs >> k) ≡ ok b
      → AllPass cs × (k ≡ ok b)
  require-bind [] k h = (tt, h)
  require-bind ((true, e) ∷ cs) k h = let rest = require-bind cs k h in ((refl, rest.0), rest.1)
  require-bind ((false, e) ∷ cs) k h = cc

  pub guard-bind {κ} :
      {B : Type κ} (c : Bool) (e : E) (k : Result E B) {b : B}
      → (guard c e >> k) ≡ ok b
      → (c ≡ true) × (k ≡ ok b)
  guard-bind true e k h = (refl, h)
  guard-bind false e k h = cc

  pub guard-eq-ok : (c : Bool) (e : E) → guard c e ≡ ok tt → c ≡ true
  guard-eq-ok true e h = refl
  guard-eq-ok false e h = cc

  pub require-append : (cs ds : List (Bool × E)) → AllPass cs → require (cs ++ ds) ≡ require ds
  require-append [] ds h = refl
  require-append ((true, e) ∷ cs) ds h = require-append cs ds h.1
  require-append ((false, e) ∷ cs) ds h = cc (h.0)

value_of {ℓ κ} : {E : Type ℓ} {A : Type κ} → A → Result E A → A
value_of a (ok b) = b
value_of a (raise e) = a

pub ok-injective {ℓ κ} :
    {E : Type ℓ} {A : Type κ} {a b : A} → ◌≡◌ {A = Result E A} (ok a) (ok b) → a ≡ b
unfolding value_of
ok-injective {a} h = ap (value_of a) h
