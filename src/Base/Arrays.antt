-- ===== src/Base/Arrays.antt =====
-- Go slices as lists: what an index holds after a write, an append, or a cut at either end.
use snmpproxy.Base.Lists.{length, take, drop, get_elem?, set}
use snmpproxy.Base.Tests.{nat_beq, if◌then◌else◌}
use Prim.Native.Nat.{ℕ, zero, suc, ◌+◌, ◌-◌, ◌≤◌, ◌<◌}
use mathlib.Core.Path.{◌≡◌, refl, ap}
use mathlib.Core.List.{List, [], ◌∷◌, ◌++◌}
use mathlib.Core.Option.{none, some}
use native.Mathlib.Omega.{arith}

module _ {ℓ} {A : Type ℓ} where
  pub get_elem?_lt : (xs : List A) (i : ℕ) → i < length xs → (x : A) × (get_elem? xs i ≡ some x)
  get_elem?_lt [] i h = absurd (omega arith)
  get_elem?_lt (x ∷ xs) zero h = (x, refl)
  get_elem?_lt (x ∷ xs) (suc i) h = get_elem?_lt xs i (omega arith)

  pub lt_of_get_elem? : (xs : List A) (i : ℕ) (x : A) → get_elem? xs i ≡ some x → i < length xs
  lt_of_get_elem? [] i x h = ground arith
  lt_of_get_elem? (y ∷ xs) zero x h = omega arith
  lt_of_get_elem? (y ∷ xs) (suc i) x h = omega (arith, lt_of_get_elem? xs i x h)

  pub length-set : (xs : List A) (i : ℕ) (v : A) → length (set xs i v) ≡ length xs
  length-set [] i v = refl
  length-set (x ∷ xs) zero v = refl
  length-set (x ∷ xs) (suc i) v = ap suc (length-set xs i v)

  pub get_elem?-set :
      (xs : List A) (i : ℕ) (v : A) (k : ℕ)
      → i < length xs
      → get_elem? (set xs i v) k ≡ (if nat_beq i k then some v else get_elem? xs k)
  get_elem?-set [] i v k h = absurd (omega arith)
  get_elem?-set (x ∷ xs) zero v zero h = refl
  get_elem?-set (x ∷ xs) zero v (suc k) h = ground arith
  get_elem?-set (x ∷ xs) (suc i) v zero h = ground arith
  get_elem?-set (x ∷ xs) (suc i) v (suc k) h = ground (arith, get_elem?-set xs i v k)

  pub get_elem?-append :
      (xs : List A) (y : A) (k : ℕ)
      → get_elem? (xs ++ y ∷ []) k ≡ (if nat_beq (length xs) k then some y else get_elem? xs k)
  get_elem?-append [] y zero = refl
  get_elem?-append [] y (suc k) = ground arith
  get_elem?-append (x ∷ xs) y zero = ground arith
  get_elem?-append (x ∷ xs) y (suc k) = ground (arith, get_elem?-append xs y k)

  pub get_elem?-take :
      (n : ℕ) (xs : List A) (k : ℕ)
      → suc n ≡ length xs
      → get_elem? (take n xs) k ≡ (if nat_beq n k then none else get_elem? xs k)
  get_elem?-take n [] k h = absurd (omega arith)
  get_elem?-take zero (x ∷ []) zero h = refl
  get_elem?-take zero (x ∷ []) (suc k) h = ground arith
  get_elem?-take zero (x ∷ y ∷ xs) k h = absurd (omega arith)
  get_elem?-take (suc n) (x ∷ xs) zero h = ground arith
  get_elem?-take (suc n) (x ∷ xs) (suc k) h = ground (arith, get_elem?-take n xs k)

  pub length-take : (n : ℕ) (xs : List A) → n ≤ length xs → length (take n xs) ≡ n
  length-take zero xs h = refl
  length-take (suc n) [] h = absurd (omega arith)
  length-take (suc n) (x ∷ xs) h = ap suc (length-take n xs (omega arith))

  pub get_elem?-drop :
      (n : ℕ) (xs : List A) (i : ℕ) → get_elem? (drop n xs) i ≡ get_elem? xs (n + i)
  get_elem?-drop zero xs i = ground arith
  get_elem?-drop (suc n) [] i = refl
  get_elem?-drop (suc n) (x ∷ xs) i = ground (arith, get_elem?-drop n xs i)

  pub length-drop : (n : ℕ) (xs : List A) → length (drop n xs) ≡ length xs - n
  length-drop zero xs = omega arith
  length-drop (suc n) [] = omega arith
  length-drop (suc n) (x ∷ xs) = omega (arith, length-drop n xs)

  -- Lists that hold the same at every index are equal.
  pub ext_get_elem? :
      (xs ys : List A)
      → length xs ≡ length ys
      → ((i : ℕ) → i < length xs → get_elem? xs i ≡ get_elem? ys i)
      → xs ≡ ys
  ext_get_elem? [] [] e h = refl
  ext_get_elem? [] (y ∷ ys) e h = absurd (omega arith)
  ext_get_elem? (x ∷ xs) [] e h = absurd (omega arith)
  ext_get_elem? (x ∷ xs) (y ∷ ys) e h =
      ground (arith, h 0, ext_get_elem? xs ys (omega arith) (λ i lt. h (suc i) (omega arith)))

  pub drop_all : (n : ℕ) (xs : List A) → length xs ≤ n → drop n xs ≡ []
  drop_all zero [] h = refl
  drop_all zero (x ∷ xs) h = absurd (omega arith)
  drop_all (suc n) [] h = refl
  drop_all (suc n) (x ∷ xs) h = drop_all n xs (omega arith)

  pub drop-cons :
      (n : ℕ) (xs : List A) (x : A) → get_elem? xs n ≡ some x → drop n xs ≡ x ∷ drop (suc n) xs
  drop-cons n [] x h = absurd (ground arith)
  drop-cons zero (y ∷ xs) x h = ground arith
  drop-cons (suc n) (y ∷ xs) x h = drop-cons n xs x h
