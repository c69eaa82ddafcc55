-- ===== src/Prelude/Keys.antt =====
-- Python dictionaries, as lists of entries in insertion order.
use mathlib.Core.Path.{◌≡◌, refl}
use mathlib.Core.Bool.{Bool, true, false, not, ◌&&◌, ◌||◌}
use mathlib.Core.List.{List, [], ◌∷◌, ◌++◌, map}
use mathlib.Core.Option.{Option, none, some}
use native.Mathlib.Omega.{arith}
use open_hollywood.Prelude.Tests.{Eq, ◌==◌, if◌then◌else◌}
use open_hollywood.Prelude.Lists.{elem, distinct}

abbrev pub or_else {ℓ} : {A : Type ℓ} → Option A → Option A → Option A
or_else none b = b
or_else (some a) b = some a

abbrev pub or_value {ℓ} : {A : Type ℓ} → Option A → A → A
or_value none b = b
or_value (some a) b = a

abbrev pub is_some {ℓ} : {A : Type ℓ} → Option A → Bool
is_some none = false
is_some (some a) = true

abbrev pub is_none {ℓ} : {A : Type ℓ} → Option A → Bool
is_none none = true
is_none (some a) = false

abbrev pub opt_list {ℓ} : {A : Type ℓ} → Option A → List A
opt_list none = []
opt_list (some a) = a ∷ []

abbrev pub Dict {ℓ κ} : Type ℓ → Type κ → Type (ℓ ⊔ κ)
Dict K V = List (K × V)

module _ {ℓ κ} {K : Type ℓ} {V : Type κ} ⦃e : Eq K⦄ where
  -- `d.get(k)`
  abbrev pub get : K → Dict K V → Option V
  get k [] = none
  get k ((j, v) ∷ d) = if j == k then some v else get k d

  -- `d[k] = v`: a known key keeps its place.
  abbrev pub put : K → V → Dict K V → Dict K V
  put k v [] = (k, v) ∷ []
  put k v ((j, w) ∷ d) = if j == k then (j, v) ∷ d else (j, w) ∷ put k v d

  -- `d.pop(k, None)`, without the value
  abbrev pub remove : K → Dict K V → Dict K V
  remove k [] = []
  remove k ((j, w) ∷ d) = let rest = remove k d in if j == k then rest else (j, w) ∷ rest

  abbrev pub keys : Dict K V → List K
  keys [] = []
  keys ((k, v) ∷ d) = k ∷ keys d

  pub get-put :
      (k j : K) (v : V) (d : Dict K V) → get j (put k v d) ≡ (if k == j then some v else get j d)
  get-put k j v [] = refl
  get-put k j v ((i, w) ∷ d) =
      ground (arith, e.is_same_iff k j, e.is_same_iff i k, e.is_same_iff i j, get-put k j v d)

  pub get-put_self : (k : K) (v : V) (d : Dict K V) → get k (put k v d) ≡ some v
  get-put_self k v d = ground (arith, get-put k k v d, e.is_same_iff k k)

  pub get-put_other :
      (k j : K) (v : V) (d : Dict K V) → (k == j) ≡ false → get j (put k v d) ≡ get j d
  get-put_other k j v d h = ground (arith, get-put k j v d, h)

  pub get-remove :
      (k j : K) (d : Dict K V) → get j (remove k d) ≡ (if k == j then none else get j d)
  get-remove k j [] = ground arith
  get-remove k j ((i, w) ∷ d) =
      ground (arith, e.is_same_iff k j, e.is_same_iff i k, e.is_same_iff i j, get-remove k j d)

  pub elem-keys : (k : K) (d : Dict K V) → elem k (keys d) ≡ is_some (get k d)
  elem-keys k [] = refl
  elem-keys k ((i, w) ∷ d) = ground (arith, e.is_same_iff k i, e.is_same_iff i k, elem-keys k d)

-- Items that carry their own key.
module _ {ℓ κ} {K : Type ℓ} {T : Type κ} ⦃e : Eq K⦄ (key : T → K) where
  -- The first item with a key.
  abbrev pub find : K → List T → Option T
  find k [] = none
  find k (x ∷ xs) = if key x == k then some x else find k xs

  -- `{key(x): x for x in xs}`, after the entries of `d`
  abbrev pub collect : Dict K T → List T → Dict K T
  collect d [] = d
  collect d (x ∷ xs) = collect (put (key x) x d) xs

  -- Every item stands under its own key.
  abbrev pub IsKeyed : Dict K T → Type (ℓ ⊔ κ)
  IsKeyed d = (k : K) (x : T) → get k d ≡ some x → key x ≡ k

  pub find-key : (k : K) (x : T) (xs : List T) → find k xs ≡ some x → key x ≡ k
  find-key k x [] h = cc
  find-key k x (y ∷ ys) h = ground (arith, find-key k x ys, e.is_same_iff (key y) k)

  pub find-append : (k : K) (xs ys : List T) → find k (xs ++ ys) ≡ or_else (find k xs) (find k ys)
  find-append k [] ys = refl
  find-append k (x ∷ xs) ys = ground (arith, find-append k xs ys)

  pub elem-map : (k : K) (xs : List T) → elem k (map key xs) ≡ is_some (find k xs)
  elem-map k [] = refl
  elem-map k (x ∷ xs) =
      ground (arith, elem-map k xs, e.is_same_iff k (key x), e.is_same_iff (key x) k)

  pub collect-IsKeyed : (d : Dict K T) (xs : List T) → IsKeyed d → IsKeyed (collect d xs)
  collect-IsKeyed d [] h = h
  collect-IsKeyed d (x ∷ xs) h =
      collect-IsKeyed (put (key x) x d) xs
        λ k y p. ground (arith, get-put (key x) k x d, e.is_same_iff (key x) k, h k y)

  -- Without a repeated key the dictionary holds the items of the sequence.
  pub get-collect :
      (k : K) (d : Dict K T) (xs : List T)
      → distinct (map key xs) ≡ true
      → get k (collect d xs) ≡ or_else (find k xs) (get k d)
  get-collect k d [] h = refl
  get-collect k d (x ∷ xs) h = ground (
    arith,
    get-collect k (put (key x) x d) xs,
    get-put (key x) k x d,
    elem-map (key x) xs,
    e.is_same_iff (key x) k,
  )

module _ {ℓ κ} {K : Type ℓ} {V : Type κ} ⦃e : Eq K⦄ where
  elem-keys-put :
      (j k : K) (v : V) (d : Dict K V) → elem j (keys (put k v d)) ≡ j == k || elem j (keys d)
  elem-keys-put j k v [] = refl
  elem-keys-put j k v ((i, w) ∷ d) =
      ground (arith, elem-keys-put j k v d, e.is_same_iff i k, e.is_same_iff j k, e.is_same_iff j i)

  pub distinct-keys-put :
      (k : K) (v : V) (d : Dict K V) → distinct (keys d) ≡ true → distinct (keys (put k v d)) ≡ true
  distinct-keys-put k v [] h = refl
  distinct-keys-put k v ((i, w) ∷ d) h =
      ground (arith, distinct-keys-put k v d, elem-keys-put i k v d, e.is_same_iff i k)

  elem-keys-remove :
      (j k : K) (d : Dict K V) → elem j (keys (remove k d)) ≡ not (k == j) && elem j (keys d)
  elem-keys-remove j k [] = ground arith
  elem-keys-remove j k ((i, w) ∷ d) =
      ground
        (arith, elem-keys-remove j k d, e.is_same_iff i k, e.is_same_iff j i, e.is_same_iff k j)

  pub distinct-keys-remove :
      (k : K) (d : Dict K V) → distinct (keys d) ≡ true → distinct (keys (remove k d)) ≡ true
  distinct-keys-remove k [] h = refl
  distinct-keys-remove k ((i, w) ∷ d) h =
      ground (arith, distinct-keys-remove k d, elem-keys-remove i k d)

module _ {ℓ κ} {K : Type ℓ} {T : Type κ} ⦃e : Eq K⦄ (key : T → K) where
  pub distinct-keys-collect :
      (d : Dict K T) (xs : List T)
      → distinct (keys d) ≡ true
      → distinct (keys (collect key d xs)) ≡ true
  distinct-keys-collect d [] h = h
  distinct-keys-collect d (x ∷ xs) h =
      distinct-keys-collect (put (key x) x d) xs (distinct-keys-put (key x) x d h)
