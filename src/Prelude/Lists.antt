-- ===== src/Prelude/Lists.antt =====
-- Lists measured by native numbers, membership tests, and Python's `set` of a sequence.
use Prim.Native.Nat.{ℕ, zero, suc, ◌+◌, ◌-◌, ◌≤◌}
use mathlib.Core.Path.{◌≡◌, refl}
use mathlib.Core.Bool.{Bool, true, false, ◌&&◌, ◌||◌, not}
use mathlib.Core.List.{map, List, [], ◌∷◌, ◌++◌}
use mathlib.Core.Option.{Option, none, some}
use native.Mathlib.Omega.{arith}
use mathlib.Core.Bool.{false}
use open_hollywood.Prelude.Tests.{Eq, ◌==◌, nat_beq, if◌then◌else◌}

module _ {ℓ} {A : Type ℓ} where
  abbrev pub length : List A → ℕ
  length [] = 0
  length (x ∷ xs) = suc (length xs)

  abbrev pub get_elem? : List A → ℕ → Option A
  get_elem? [] i = none
  get_elem? (x ∷ xs) zero = some x
  get_elem? (x ∷ xs) (suc i) = get_elem? xs i

  abbrev pub drop : ℕ → List A → List A
  drop zero xs = xs
  drop (suc n) [] = []
  drop (suc n) (x ∷ xs) = drop n xs

  abbrev pub take : ℕ → List A → List A
  take zero xs = []
  take (suc n) [] = []
  take (suc n) (x ∷ xs) = x ∷ take n xs

  pub length-append : (xs ys : List A) → length (xs ++ ys) ≡ length xs + length ys
  length-append [] ys = omega arith
  length-append (x ∷ xs) ys = omega (arith, length-append xs ys)

  pub length-drop : (n : ℕ) (xs : List A) → length (drop n xs) ≡ length xs - n
  length-drop zero xs = omega arith
  length-drop (suc n) [] = omega arith
  length-drop (suc n) (x ∷ xs) = omega (arith, length-drop n xs)

  abbrev pub filter_by : (A → Bool) → List A → List A
  filter_by p [] = []
  filter_by p (x ∷ xs) = let rest = filter_by p xs in if p x then x ∷ rest else rest

  -- `reversed(xs)`
  abbrev pub reversed : List A → List A
  reversed [] = []
  reversed (x ∷ xs) = reversed xs ++ x ∷ []

  -- `xs[-n:]` and `xs[:-n]`; Python reads -0 as 0.
  abbrev pub last_of : ℕ → List A → List A
  last_of n xs = if nat_beq n 0 then xs else drop (length xs - n) xs

  abbrev pub before_last : ℕ → List A → List A
  before_last n xs = if nat_beq n 0 then [] else take (length xs - n) xs

  -- Python's `all` and `any` of a generator.

  abbrev pub all : (A → Bool) → List A → Bool
  all p [] = true
  all p (x ∷ xs) = p x && all p xs

  abbrev pub any : (A → Bool) → List A → Bool
  any p [] = false
  any p (x ∷ xs) = p x || any p xs

  -- `sum(p(x) for x in xs)`
  abbrev pub count_if : (A → Bool) → List A → ℕ
  count_if p [] = 0
  count_if p (x ∷ xs) = (if p x then 1 else 0) + count_if p xs

module _ {ℓ} {A : Type ℓ} ⦃e : Eq A⦄ where
  -- `x in xs`
  abbrev pub elem : A → List A → Bool
  elem x [] = false
  elem x (y ∷ ys) = x == y || elem x ys

  -- `set(xs)`, as the list of its members.
  abbrev pub set_of : List A → List A
  set_of [] = []
  set_of (x ∷ xs) = let rest = set_of xs in if elem x rest then rest else x ∷ rest

  -- `len(set(xs)) == len(xs)`
  abbrev pub is_unique : List A → Bool
  is_unique xs = nat_beq (length (set_of xs)) (length xs)

  -- No two members are equal.
  abbrev pub distinct : List A → Bool
  distinct [] = true
  distinct (x ∷ xs) = not (elem x xs) && distinct xs

  -- `set(xs) <= set(ys)`
  abbrev pub subset : List A → List A → Bool
  subset xs ys = all (λ x. elem x ys) xs

  -- `set(xs) & set(ys)` is empty.
  abbrev pub disjoint : List A → List A → Bool
  disjoint xs ys = all (λ x. not (elem x ys)) xs

  pub elem-set_of : (y : A) (xs : List A) → elem y (set_of xs) ≡ elem y xs
  elem-set_of y [] = refl
  elem-set_of y (x ∷ xs) = ground (arith, elem-set_of y xs, e.is_same_iff y x, elem-set_of x xs)

  pub length-set_of-le : (xs : List A) → length (set_of xs) ≤ length xs
  length-set_of-le [] = omega arith
  length-set_of-le (x ∷ xs) = ground (arith, length-set_of-le xs)

  -- The test by sizes finds exactly the sequences without a repetition.
  pub is_unique-eq-distinct : (xs : List A) → is_unique xs ≡ distinct xs
  is_unique-eq-distinct [] = refl
  is_unique-eq-distinct (x ∷ xs) =
      ground (arith, is_unique-eq-distinct xs, length-set_of-le xs, elem-set_of x xs)

  pub elem-append : (y : A) (xs zs : List A) → elem y (xs ++ zs) ≡ elem y xs || elem y zs
  elem-append y [] zs = refl
  elem-append y (x ∷ xs) zs = ground (arith, elem-append y xs zs)

  disjoint-cons :
      (x : A) (xs ys : List A)
      → disjoint ys (x ∷ xs) ≡ true
      → (disjoint ys xs ≡ true) × (elem x ys ≡ false)
  disjoint-cons x xs [] h = (refl, refl)
  disjoint-cons x xs (y ∷ ys) h =
      ground (arith, disjoint-cons x xs ys, e.is_same_iff x y, e.is_same_iff y x)

  pub distinct-append :
      (xs ys : List A)
      → distinct xs ≡ true
      → distinct ys ≡ true
      → disjoint ys xs ≡ true
      → distinct (xs ++ ys) ≡ true
  distinct-append [] ys hx hy hd = hy
  distinct-append (x ∷ xs) ys hx hy hd =
      ground (arith, disjoint-cons x xs ys hd, distinct-append xs ys, elem-append x xs ys)

  pub distinct-snoc :
      (xs : List A) (y : A)
      → distinct xs ≡ true
      → elem y xs ≡ false
      → distinct (xs ++ y ∷ []) ≡ true
  distinct-snoc xs y hx hy = distinct-append xs (y ∷ []) hx refl (ground arith)

  pub elem_self : (x : A) (xs : List A) → elem x (x ∷ xs) ≡ true
  elem_self x xs = rw ((e.is_same_iff x x).1 refl)

  pub disjoint-elem :
      (xs ys : List A) (x : A) → disjoint xs ys ≡ true → elem x xs ≡ true → elem x ys ≡ false
  disjoint-elem [] ys x h m = cc
  disjoint-elem (z ∷ xs) ys x h m = ground (arith, disjoint-elem xs ys x, e.is_same_iff x z)

  pub disjoint_of :
      (xs ys : List A) → ((x : A) → elem x xs ≡ true → elem x ys ≡ false) → disjoint xs ys ≡ true
  disjoint_of [] ys h = refl
  disjoint_of (z ∷ xs) ys h =
      let rest = disjoint_of xs ys (λ x m. h x (ground (arith, m))) in
      ground (arith, rest, h z (elem_self z xs))

module _ {ℓ κ} {A : Type ℓ} {B : Type κ} where
  pub length-map : (xs : List A) (f : A → B) → length (map f xs) ≡ length xs
  length-map [] f = refl
  length-map (x ∷ xs) f = omega (arith, length-map xs f)

pub drop-get_elem? {ℓ} :
    {A : Type ℓ} (xs : List A) (i : ℕ) (a : A)
    → get_elem? xs i ≡ some a
    → drop i xs ≡ a ∷ drop (suc i) xs
drop-get_elem? [] i a h = ground arith
drop-get_elem? (x ∷ xs) zero a h = ground arith
drop-get_elem? (x ∷ xs) (suc i) a h = drop-get_elem? xs i a h

pub get_elem?-next {ℓ} :
    {A : Type ℓ} (xs : List A) (i : ℕ) (a : A)
    → get_elem? xs i ≡ some a
    → nat_beq (i + 1) (length xs) ≡ false
    → (b : A) × (get_elem? xs (suc i) ≡ some b)
get_elem?-next [] i a h ne = ground arith
get_elem?-next (x ∷ []) zero a h ne = ground arith
get_elem?-next (x ∷ y ∷ xs) zero a h ne = (y, refl)
get_elem?-next (x ∷ xs) (suc i) a h ne = get_elem?-next xs i a h (ground (arith, ne))
