-- ===== src/Base/Map.antt =====
-- Go's built-in map as an association list: one entry for a key, new keys at the end. The
-- program sorts whatever it collects from a map, or does not depend on the order.
-- Also the set `map[string]struct{}`, as a list without repetition.
use mathlib.Core.Path.{◌≡◌, refl}
use mathlib.Core.Bool.{Bool, true, false, not, ◌&&◌, ◌||◌}
use mathlib.Core.Option.{Option, none, some}
use mathlib.Core.List.{List, [], ◌∷◌}
use native.Mathlib.Omega.{arith}
use snmpproxy.Base.Tests.{if◌then◌else◌}
use snmpproxy.Base.Equality.{Eq, ◌==◌}

abbrev pub Map {ℓ κ} : Type ℓ → Type κ → Type (ℓ ⊔ κ)
Map K V = List (K × V)

module _ {ℓ κ} {K : Type ℓ} ⦃e : Eq K⦄ {V : Type κ} where
  -- `m[k]` with the `ok` result
  unfoldable pub get : Map K V → K → Option V
  get [] k = none
  get ((j, v) ∷ m) k = if j == k then some v else get m k

  -- `m[k] = v`
  unfoldable pub put : Map K V → K → V → Map K V
  put [] k v = (k, v) ∷ []
  put ((j, w) ∷ m) k v = if j == k then (k, v) ∷ m else (j, w) ∷ put m k v

  -- `delete(m, k)`
  unfoldable pub delete : Map K V → K → Map K V
  delete [] k = []
  delete ((j, w) ∷ m) k = if j == k then delete m k else (j, w) ∷ delete m k

  pub get-put :
      (m : Map K V) (k : K) (v : V) (j : K)
      → get (put m k v) j ≡ (if k == j then some v else get m j)
  unfolding get put
  get-put [] k v j = refl
  get-put ((i, w) ∷ m) k v j =
      ground (arith, e.test_iff i k, e.test_iff i j, e.test_iff k j, get-put m k v j)

  pub get-delete : (m : Map K V) (k j : K) → get (delete m k) j ≡ (if k == j then none else get m j)
  unfolding get delete
  get-delete [] k j = ground arith
  get-delete ((i, w) ∷ m) k j =
      ground (arith, e.test_iff i k, e.test_iff i j, e.test_iff k j, get-delete m k j)

module _ {ℓ} {K : Type ℓ} ⦃e : Eq K⦄ where
  unfoldable pub member : K → List K → Bool
  member a [] = false
  member a (x ∷ xs) = x == a || member a xs

  unfoldable pub insert : K → List K → List K
  insert a [] = a ∷ []
  insert a (x ∷ xs) = if x == a then x ∷ xs else x ∷ insert a xs

  unfoldable pub erase : K → List K → List K
  erase a [] = []
  erase a (x ∷ xs) = if x == a then erase a xs else x ∷ erase a xs

  pub member-insert : (a b : K) (xs : List K) → member b (insert a xs) ≡ (a == b || member b xs)
  unfolding member insert
  member-insert a b [] = refl
  member-insert a b (x ∷ xs) =
      ground (arith, e.test_iff x a, e.test_iff x b, e.test_iff a b, member-insert a b xs)

  pub member-erase : (a b : K) (xs : List K) → member b (erase a xs) ≡ (not (a == b) && member b xs)
  unfolding member erase
  member-erase a b [] = ground arith
  member-erase a b (x ∷ xs) =
      ground (arith, e.test_iff x a, e.test_iff x b, e.test_iff a b, member-erase a b xs)

  -- Nothing occurs twice.
  abbrev pub distinct : List K → Bool
  distinct [] = true
  distinct (x ∷ xs) = not (member x xs) && distinct xs

module _ {ℓ κ} {K : Type ℓ} ⦃e : Eq K⦄ {V : Type κ} where
  abbrev pub keys : Map K V → List K
  keys [] = []
  keys ((k, v) ∷ m) = k ∷ keys m

  pub member-keys-put :
      (m : Map K V) (k : K) (v : V) (a : K)
      → member a (keys (put m k v)) ≡ (member a (keys m) || k == a)
  unfolding member put
  member-keys-put [] k v a = ground arith
  member-keys-put ((j, w) ∷ m) k v a =
      ground (arith, e.test_iff j k, e.test_iff j a, e.test_iff k a, member-keys-put m k v a)

  pub member-keys-delete :
      (m : Map K V) (k : K) (a : K)
      → member a (keys (delete m k)) ≡ (not (k == a) && member a (keys m))
  unfolding member delete
  member-keys-delete [] k a = ground arith
  member-keys-delete ((j, w) ∷ m) k a =
      ground (arith, e.test_iff j k, e.test_iff j a, e.test_iff k a, member-keys-delete m k a)

  pub distinct-keys-put :
      (m : Map K V) (k : K) (v : V) → distinct (keys m) ≡ true → distinct (keys (put m k v)) ≡ true
  unfolding member put
  distinct-keys-put [] k v h = refl
  distinct-keys-put ((j, w) ∷ m) k v h =
      ground
        (arith, e.test_iff j k, e.test_iff k j, member-keys-put m k v j, distinct-keys-put m k v)

  pub distinct-keys-delete :
      (m : Map K V) (k : K) → distinct (keys m) ≡ true → distinct (keys (delete m k)) ≡ true
  unfolding member delete
  distinct-keys-delete [] k h = refl
  distinct-keys-delete ((j, w) ∷ m) k h =
      ground (arith, e.test_iff j k, member-keys-delete m k j, distinct-keys-delete m k)

  -- A key that is bound stands among the keys, and only such a key.
  pub get-unbound : (m : Map K V) (k : K) → member k (keys m) ≡ false → get m k ≡ none
  unfolding member get
  get-unbound [] k h = refl
  get-unbound ((j, w) ∷ m) k h = ground (arith, get-unbound m k)
