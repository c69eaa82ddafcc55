-- ===== src/Artifacts/BibleEquality.antt =====
-- Equality of two snapshots: `candidate != expected` compares all fields.
use mathlib.Core.Bool.{decide_iff, decide}
use text.Mathlib.TextEquality.{eq_iff}
use open_hollywood.Prelude.{
  nat_beq, nat_beq_iff, ℕ, String, ◌≡◌, refl, Bool, true, ◌==◌, string_eq, Bool-cases, inl, inr,
}
use open_hollywood.Artifacts.Bible.{StoryBible}

unfoldable pub String-discrete : Discrete String
String-discrete a b = elim (Bool-cases (a == b)) [
  | inl e ↦ yes ((eq_iff a b).0 e)
  | inr e ↦ no (λ p. cc ((eq_iff a b).1 p))
]

unfoldable pub Nat-discrete : Discrete ℕ
Nat-discrete a b = elim (Bool-cases (nat_beq a b)) [
  | inl e ↦ yes ((nat_beq_iff a b).0 e)
  | inr e ↦ no (λ p. cc ((nat_beq_iff a b).1 p))
]

unfoldable pub StoryBible-discrete : Discrete StoryBible
StoryBible-discrete = hlevel (Nat-discrete, String-discrete)

unfoldable pub bible_is : StoryBible → StoryBible → Bool
bible_is a b = decide (StoryBible-discrete a b)

pub bible_is→eq : (a b : StoryBible) → bible_is a b ≡ true → a ≡ b
unfolding bible_is
bible_is→eq a b h = (decide_iff (StoryBible-discrete a b)).0 h

pub bible_is_self : (a : StoryBible) → bible_is a a ≡ true
unfolding bible_is
bible_is_self a = (decide_iff (StoryBible-discrete a a)).1 refl
