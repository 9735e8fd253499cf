-- ===== src/Base/Sort.antt =====
-- `sort.Strings`: Go orders strings by their bytes. What it returns is determined by being sorted
-- and holding the same strings, so an insertion sort stands for it.
use mathlib.Core.Path.{◌≡◌, refl}
use mathlib.Core.Bool.{Bool, true, false, ◌&&◌, ◌||◌}
use mathlib.Core.List.{List, [], ◌∷◌}
use native.Mathlib.Omega.{arith}
use snmpproxy.Base.Tests.{nat_beq, ltb, if◌then◌else◌}
use snmpproxy.Base.Equality.{Str, ◌==◌, str_eq}
use snmpproxy.Base.Map.{member}

unfoldable pub str_leb : Str → Str → Bool
str_leb [] t = true
str_leb (a ∷ s) [] = false
str_leb (a ∷ s) (b ∷ t) = ltb a b || (nat_beq a b && str_leb s t)

pub insert_sorted : Str → List Str → List Str
insert_sorted a [] = a ∷ []
insert_sorted a (x ∷ xs) = if str_leb a x then a ∷ x ∷ xs else x ∷ insert_sorted a xs

unfoldable pub sort : List Str → List Str
unfolding insert_sorted str_leb
sort [] = []
sort (x ∷ xs) = insert_sorted x (sort xs)

pub str_leb_total : (s t : Str) → str_leb s t ≡ false → str_leb t s ≡ true
unfolding str_leb
str_leb_total [] t h = ground arith
str_leb_total (a ∷ s) [] h = refl
str_leb_total (a ∷ s) (b ∷ t) h = ground (arith, str_leb_total s t)

-- Each string is at most the next one.
abbrev pub is_sorted : List Str → Bool
is_sorted [] = true
is_sorted (x ∷ []) = true
is_sorted (x ∷ y ∷ xs) = str_leb x y && is_sorted (y ∷ xs)

insert_sorted-head :
    (a b : Str) (xs : List Str)
    → str_leb b a ≡ true
    → is_sorted (b ∷ xs) ≡ true
    → is_sorted (b ∷ insert_sorted a xs) ≡ true
unfolding insert_sorted
insert_sorted-head a b [] h k = ground arith
insert_sorted-head a b (x ∷ xs) h k = ground (arith, str_leb_total a x, insert_sorted-head a x xs)

insert_sorted_sorted :
    (a : Str) (xs : List Str) → is_sorted xs ≡ true → is_sorted (insert_sorted a xs) ≡ true
unfolding insert_sorted
insert_sorted_sorted a [] h = refl
insert_sorted_sorted a (x ∷ xs) h = ground (arith, str_leb_total a x, insert_sorted-head a x xs)

pub sort-nil : sort [] ≡ []
unfolding sort
sort-nil = refl

pub sort-cons : (x : Str) (xs : List Str) → sort (x ∷ xs) ≡ insert_sorted x (sort xs)
unfolding sort
sort-cons x xs = refl

pub sort_sorted : (xs : List Str) → is_sorted (sort xs) ≡ true
sort_sorted [] = rw sort-nil
sort_sorted (x ∷ xs) = rw (sort-cons x xs) (insert_sorted_sorted x (sort xs) (sort_sorted xs))

pub member-insert_sorted :
    (a b : Str) (xs : List Str) → member b (insert_sorted a xs) ≡ (a == b || member b xs)
unfolding insert_sorted member
member-insert_sorted a b [] = refl
member-insert_sorted a b (x ∷ xs) = ground (arith, member-insert_sorted a b xs)

pub member-sort : (b : Str) (xs : List Str) → member b (sort xs) ≡ member b xs
member-sort b [] = rw sort-nil
member-sort b (x ∷ xs) =
    rw (sort-cons x xs, member-insert_sorted x b (sort xs), member-sort b xs)
      (unfold member in refl)
