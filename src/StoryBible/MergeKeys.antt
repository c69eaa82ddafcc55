-- ===== src/StoryBible/MergeKeys.antt =====
-- The keys of a merged sequence: those of the old records in their order, then the new ones sorted.
use mathlib.Core.List.{map-append}
use open_hollywood.Prelude.{
  elem-map, disjoint_of, distinct-append, distinct-keys-remove, inr, ap, elem_self,
  distinct-keys-collect, inl, elem-keys, Option-cases, collect-IsKeyed, is_some, String, ◌≡◌, refl,
  true, List, [], ◌∷◌, map, string_eq, elem, distinct, arith, Dict, get, keys, remove, collect,
  IsKeyed,
}
use open_hollywood.StoryBible.Upsert.{
  merge, sorted, insert_sorted, select, replace_known, elem-sorted, elem-insert_sorted,
  IsKeyed-remove, get-left, key-or_value,
}
use text.Mathlib.TextEquality.{eq_iff}

distinct-insert_sorted :
    (x : String) (xs : List String) → distinct (insert_sorted x xs) ≡ distinct (x ∷ xs)
distinct-insert_sorted x [] = refl
distinct-insert_sorted x (y ∷ ys) =
    ground (arith, distinct-insert_sorted x ys, elem-insert_sorted y x ys, eq_iff x y, eq_iff y x)

pub distinct-sorted : (xs : List String) → distinct (sorted xs) ≡ distinct xs
distinct-sorted [] = refl
distinct-sorted (x ∷ xs) =
    ground (arith, distinct-insert_sorted x (sorted xs), distinct-sorted xs, elem-sorted x xs)

module _ {ℓ} {T : Type ℓ} (key : T → String) where
  map-replace_known :
      (xs : List T) (d : Dict String T)
      → IsKeyed key d
      → map key (replace_known key xs d).0 ≡ map key xs
  unfolding replace_known
  map-replace_known [] d h = refl
  map-replace_known (x ∷ xs) d h = cc (
    key-or_value key d x h,
    map-replace_known xs (remove (key x) d) (IsKeyed-remove key (key x) d h),
  )

  distinct-keys-left :
      (xs : List T) (d : Dict String T)
      → distinct (keys d) ≡ true
      → distinct (keys (replace_known key xs d).1) ≡ true
  unfolding replace_known
  distinct-keys-left [] d h = h
  distinct-keys-left (x ∷ xs) d h =
      distinct-keys-left xs (remove (key x) d) (distinct-keys-remove (key x) d h)

  -- Selecting keys that are there yields their items, in that order.
  map-select :
      (d : Dict String T) (ks : List String)
      → IsKeyed key d
      → ((k : String) → elem k ks ≡ true → is_some (get k d) ≡ true)
      → map key (select key d ks) ≡ ks
  map-select d [] h known = refl
  map-select d (k ∷ ks) h known = elim (Option-cases (get k d)) [
    | inl e ↦ cc (known k (elem_self k ks), ap is_some e)
    | inr (x, e) ↦ rw e (cc (h k x e, map-select d ks h (λ j m. known j (ground (arith, m)))))
  ]

  pub distinct-merge :
      (current changes : List T)
      → distinct (map key current) ≡ true
      → distinct (map key (merge key current changes)) ≡ true
  distinct-merge current changes h =
      let d = collect key [] changes in
      let keyed = collect-IsKeyed key [] changes (λ j x p. cc) in
      let left = (replace_known key current d).1 in
      let left_keyed : IsKeyed key left =
        λ j x p. keyed j x (ground (arith, get-left key j current d)) in
      let known : (k : String) → elem k (sorted (keys left)) ≡ true → is_some (get k left) ≡ true =
        λ k m. ground (arith, elem-sorted k (keys left), elem-keys k left) in
      let left_distinct =
        distinct-keys-left current d (distinct-keys-collect key [] changes refl) in
      rw
        (
          map-append,
          map-replace_known current d keyed,
          map-select left (sorted (keys left)) left_keyed known,
        )
        (distinct-append (map key current) (sorted (keys left)) h (rw distinct-sorted left_distinct)
          (disjoint_of (sorted (keys left)) (map key current)
            λ k m. ground (arith, known k m, get-left key k current d, elem-map key k current)))
