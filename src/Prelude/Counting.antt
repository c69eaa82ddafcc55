-- ===== src/Prelude/Counting.antt =====
-- How often a number stands in a list, through the operations on lists.
use Prim.Native.Nat.{ℕ, zero, suc, ◌+◌, ◌-◌, ◌≤◌}
use mathlib.Core.Path.{◌≡◌, refl}
use mathlib.Core.Bool.{Bool, true, false}
use mathlib.Core.List.{map, List, [], ◌∷◌, ◌++◌}
use native.Mathlib.Omega.{arith}
use open_hollywood.Prelude.Tests.{nat_eq, nat_beq}
use open_hollywood.Prelude.Lists.{
  length, count_if, take, drop, elem, distinct, reversed, filter_by, last_of, before_last,
}

abbrev pub occurrences : ℕ → List ℕ → ℕ
occurrences n xs = count_if (nat_beq n) xs

module _ {ℓ} {A : Type ℓ} (p : A → Bool) where
  pub count_if-append : (xs ys : List A) → count_if p (xs ++ ys) ≡ count_if p xs + count_if p ys
  count_if-append [] ys = omega arith
  count_if-append (x ∷ xs) ys = omega (arith, count_if-append xs ys)

  pub count_if-reversed : (xs : List A) → count_if p (reversed xs) ≡ count_if p xs
  count_if-reversed [] = refl
  count_if-reversed (x ∷ xs) =
      omega (arith, count_if-append (reversed xs) (x ∷ []), count_if-reversed xs)

  pub count_if-take-drop :
      (n : ℕ) (xs : List A) → count_if p (take n xs) + count_if p (drop n xs) ≡ count_if p xs
  count_if-take-drop zero xs = omega arith
  count_if-take-drop (suc n) [] = omega arith
  count_if-take-drop (suc n) (x ∷ xs) = omega (arith, count_if-take-drop n xs)

  -- A slice and the rest.
  pub count_if-split_last :
      (n : ℕ) (xs : List A)
      → count_if p (before_last n xs) + count_if p (last_of n xs) ≡ count_if p xs
  count_if-split_last n xs = ground (arith, count_if-take-drop (length xs - n) xs)

  pub count_if-filter_by :
      (q : A → Bool) (xs : List A) → count_if p (filter_by q xs) ≤ count_if p xs
  count_if-filter_by q [] = omega arith
  count_if-filter_by q (x ∷ xs) = ground (arith, count_if-filter_by q xs)

pub count_if-map {ℓ κ} :
    {A : Type ℓ} {B : Type κ} (p : B → Bool) (f : A → B) (xs : List A)
    → count_if p (map f xs) ≡ count_if (λ x. p (f x)) xs
count_if-map p f [] = refl
count_if-map p f (x ∷ xs) = omega (arith, count_if-map p f xs)

pub occurrences-absent : (n : ℕ) (xs : List ℕ) → elem n xs ≡ false → occurrences n xs ≡ 0
occurrences-absent n [] h = refl
occurrences-absent n (x ∷ xs) h = ground (arith, occurrences-absent n xs)

pub elem-occurrences : (n : ℕ) (xs : List ℕ) → 1 ≤ occurrences n xs → elem n xs ≡ true
elem-occurrences n [] h = ground arith
elem-occurrences n (x ∷ xs) h = ground (arith, elem-occurrences n xs)

-- Distinct numbers stand once at most, and the other way round.
pub distinct-occurrences : (n : ℕ) (xs : List ℕ) → distinct xs ≡ true → occurrences n xs ≤ 1
distinct-occurrences n [] h = omega arith
distinct-occurrences n (x ∷ xs) h =
    ground (arith, distinct-occurrences n xs, occurrences-absent n xs)

pub distinct_of : (xs : List ℕ) → ((n : ℕ) → occurrences n xs ≤ 1) → distinct xs ≡ true
distinct_of [] h = refl
distinct_of (x ∷ xs) h = ground (
  arith,
  distinct_of xs (λ n. ground (arith, h n)),
  h x,
  elem-occurrences x xs,
  occurrences-self x xs,
)
  where
    occurrences-self : (x : ℕ) (xs : List ℕ) → elem x xs ≡ true → 1 ≤ occurrences x xs
    occurrences-self x [] e = cc
    occurrences-self x (y ∷ ys) e = ground (arith, occurrences-self x ys)
