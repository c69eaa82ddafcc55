-- ===== src/StoryBible/Upsert.antt =====
-- `_upsert`: existing records are replaced in place and new ones appended in the order of their keys.
use text.Mathlib.TextEquality.{eq_iff}
use open_hollywood.Prelude.{
  text_leb, ◌∙◌, is_unique-eq-distinct, sym, Bool-cases, ◌>>=◌, refl, find, find-append, elem-keys,
  get-collect, collect-IsKeyed, or_else, Option-cases, inl, inr,
}
use open_hollywood.Prelude.{
  some, or_else, none, get-remove, true, is_some, arith, distinct, ◌≡◌, IsKeyed, elem, String, List,
  [], ◌∷◌, ◌++◌, map, string_eq, is_unique, if◌then◌else◌, Result, ok, Dict, get, remove, keys,
  collect, or_value, opt_list, guard, ◌>>◌,
}

-- `sorted` of texts.
abbrev pub insert_sorted : String → List String → List String
insert_sorted x [] = x ∷ []
insert_sorted x (y ∷ ys) = if text_leb x y then x ∷ y ∷ ys else y ∷ insert_sorted x ys

abbrev pub sorted : List String → List String
sorted [] = []
sorted (x ∷ xs) = insert_sorted x (sorted xs)

module _ {ℓ} {T : Type ℓ} (key : T → String) where
  -- `[change_by_key.pop(key(item), item) for item in current]`, and what is left of the dictionary
  unfoldable pub replace_known : List T → Dict String T → List T × Dict String T
  replace_known [] d = ([], d)
  replace_known (x ∷ xs) d =
      let item = or_value (get (key x) d) x in
      let (rest, left) = replace_known xs (remove (key x) d) in (item ∷ rest, left)

  -- `[change_by_key[k] for k in ks]`
  abbrev pub select : Dict String T → List String → List T
  select d [] = []
  select d (k ∷ ks) = opt_list (get k d) ++ select d ks

  -- The result list, once the keys of the changes are known to differ.
  abbrev pub merge : List T → List T → List T
  merge current changes =
      let (result, left) = replace_known current (collect key [] changes) in
      result ++ select left (sorted (keys left))

  unfoldable pub upsert {κ} : {E : Type κ} → E → List T → List T → Result E (List T)
  unfolding replace_known
  upsert repeated current changes = do
    guard (is_unique (map key changes)) repeated
    ok (merge current changes)

pub elem-insert_sorted :
    (k x : String) (xs : List String) → elem k (insert_sorted x xs) ≡ elem k (x ∷ xs)
elem-insert_sorted k x [] = refl
elem-insert_sorted k x (y ∷ ys) = ground (arith, elem-insert_sorted k x ys)

pub elem-sorted : (k : String) (xs : List String) → elem k (sorted xs) ≡ elem k xs
elem-sorted k [] = refl
elem-sorted k (x ∷ xs) = ground (arith, elem-insert_sorted k x (sorted xs), elem-sorted k xs)

module _ {ℓ} {T : Type ℓ} (key : T → String) where
  pub key-or_value :
      (d : Dict String T) (x : T) → IsKeyed key d → key (or_value (get (key x) d) x) ≡ key x
  key-or_value d x h = elim (Option-cases (get (key x) d)) [
    | inl e ↦ rw e
    | inr (y, e) ↦ rw e (h (key x) y e)
  ]

  pub IsKeyed-remove : (k : String) (d : Dict String T) → IsKeyed key d → IsKeyed key (remove k d)
  IsKeyed-remove k d h = λ j x p. ground (arith, get-remove k j d, h j x)

  find-replace_known :
      (k : String) (xs : List T) (d : Dict String T)
      → IsKeyed key d
      → find key k (replace_known key xs d).0
        ≡ elim (find key k xs) [ none ↦ none | some x ↦ some (or_value (get k d) x) ]
  unfolding replace_known
  find-replace_known k [] d h = refl
  find-replace_known k (x ∷ xs) d h = ground (
    arith,
    key-or_value d x h,
    eq_iff (key x) k,
    get-remove (key x) k d,
    find-replace_known k xs (remove (key x) d) (IsKeyed-remove (key x) d h),
  )

  pub get-left :
      (k : String) (xs : List T) (d : Dict String T)
      → get k (replace_known key xs d).1 ≡ (if is_some (find key k xs) then none else get k d)
  unfolding replace_known
  get-left k [] d = refl
  get-left k (x ∷ xs) d =
      ground (arith, eq_iff (key x) k, get-remove (key x) k d, get-left k xs (remove (key x) d))

  find-select :
      (k : String) (ks : List String) (d : Dict String T)
      → IsKeyed key d
      → find key k (select key d ks) ≡ (if elem k ks then get k d else none)
  find-select k [] d h = refl
  find-select k (j ∷ js) d h = elim (Option-cases (get j d)) [
    | inl e ↦ ground (arith, find-select k js d h, eq_iff k j)
    | inr (y, e) ↦ ground (
      arith,
      find-append key k (opt_list (get j d)) (select key d js),
      find-select k js d h,
      h j y e,
      eq_iff k j,
      eq_iff (key y) k,
    )
  ]

  -- A merge looks a key up among the changes first, and else among the records there were.
  pub find-merge :
      (k : String) (current changes : List T)
      → distinct (map key changes) ≡ true
      → find key k (merge key current changes) ≡ or_else (find key k changes) (find key k current)
  find-merge k current changes h =
      let d = collect key [] changes in
      let keyed = collect-IsKeyed key [] changes (λ j x p. cc) in
      let left = (replace_known key current d).1 in
      let left_keyed : IsKeyed key left =
        λ j x p. keyed j x (ground (arith, get-left j current d)) in
      ground (
        arith,
        find-append key k (replace_known key current d).0 (select key left (sorted (keys left))),
        find-replace_known k current d keyed,
        find-select k (sorted (keys left)) left left_keyed,
        elem-sorted k (keys left),
        elem-keys k left,
        get-left k current d,
        get-collect key k [] changes h,
      )

  -- A block that returns after `_upsert` went on with the merged records.
  pub upsert-bind {κ μ} :
      {E : Type κ} {B : Type μ} (e : E) (current changes : List T) (f : List T → Result E B) {b : B}
      → (upsert key e current changes >>= f) ≡ ok b
      → (distinct (map key changes) ≡ true) × (f (merge key current changes) ≡ ok b)
  unfolding upsert
  upsert-bind e current changes f h = elim (Bool-cases (is_unique (map key changes))) [
    | inl p ↦ (sym (is_unique-eq-distinct (map key changes)) ∙ p, rw p at h)
    | inr p ↦ cc (rw p at h)
  ]
