-- ===== src/TagIndex/Prefixes.antt =====
-- What the loops over the parts of a tag visit, as a test on texts.
use mathlib.Core.List.{map-map}
use snmpproxy.Base.{
  ℕ, zero, suc, ◌≡◌, refl, ap, ◌∙◌, Bool, true, false, ◌&&◌, ◌||◌, List, [], ◌∷◌, ◌++◌, map, Str,
  ◌==◌, str_beq, str_eq, inl, inr, sym, length, take, nat_beq, arith, Bool-cases,
}
use snmpproxy.Base.Map.{member}
use snmpproxy.Base.Text.{split, join, has_prefix, cons_head, lit}
use snmpproxy.TagIndex.{cuts, prefixes}

-- The documented meaning of a prefix query: the tag itself, or a path below it.
unfoldable pub is_under : Str → Str → Bool
unfolding has_prefix
is_under tag p = tag == p || has_prefix (p ++ lit "/") tag

-- The joined beginnings of a path, by recursion on its parts.
heads : List Str → List Str
heads [] = []
heads (q ∷ rest) = q ∷ map (λ r. q ++ (b'/' ∷ r)) (heads rest)

cuts-map :
    (q r : Str) (rs : List Str) (i k : ℕ)
    → cuts (q ∷ r ∷ rs) (suc (suc i)) k ≡ map (λ t. q ++ (b'/' ∷ t)) (cuts (r ∷ rs) (suc i) k)
unfolding cuts join
cuts-map q r rs i zero = refl
cuts-map q r rs i (suc k) =
    ap (◌∷◌ (q ++ (b'/' ∷ join b'/' (take (suc i) (r ∷ rs))))) (cuts-map q r rs (suc i) k)

cuts-heads : (parts : List Str) → cuts parts 1 (length parts) ≡ heads parts
unfolding cuts join heads
cuts-heads [] = refl
cuts-heads (q ∷ []) = refl
cuts-heads (q ∷ r ∷ rs) =
    ap (◌∷◌ q)
      (cuts-map q r rs 0 (suc (length rs)) ∙ ap (map (λ t. q ++ (b'/' ∷ t))) (cuts-heads (r ∷ rs)))

member-map-cons :
    (c d : ℕ) (p : Str) (xs : List Str)
    → member (d ∷ p) (map (◌∷◌ c) xs) ≡ (nat_beq c d && member p xs)
unfolding member str_beq
member-map-cons c d p [] = ground arith
member-map-cons c d p (x ∷ xs) = ground (arith, member-map-cons c d p xs)

member-map-nil : (c : ℕ) (xs : List Str) → member [] (map (◌∷◌ c) xs) ≡ false
unfolding member str_beq
member-map-nil c [] = refl
member-map-nil c (x ∷ xs) = ground (arith, member-map-nil c xs)

heads-cons_head :
    (c : ℕ) (q : Str) (qs : List Str) → heads (cons_head c (q ∷ qs)) ≡ map (◌∷◌ c) (heads (q ∷ qs))
unfolding heads
heads-cons_head c q qs = ap (◌∷◌ (c ∷ q)) (sym (map-map (◌∷◌ c) (λ r. q ++ (b'/' ∷ r)) (heads qs)))

split-ne : (sep : ℕ) (s : Str) → (q : Str) × (qs : List Str) × (split sep s ≡ q ∷ qs)
unfolding split
split-ne sep [] = ([], [], refl)
split-ne sep (c ∷ s) =
    let (q, qs, e) = split-ne sep s in
    elim (Bool-cases (nat_beq c sep)) [
      | inl yes' ↦ ([], split sep s, rw yes')
      | inr no' ↦ (c ∷ q, qs, rw (no', e))
    ]

heads-nil : (xs : List Str) → heads ([] ∷ xs) ≡ [] ∷ map (◌∷◌ b'/') (heads xs)
unfolding heads
heads-nil xs = refl

heads_slash :
    (c : ℕ) (s : Str)
    → nat_beq c b'/' ≡ true
    → heads (split b'/' (c ∷ s)) ≡ [] ∷ map (◌∷◌ b'/') (heads (split b'/' s))
unfolding split
heads_slash c s h = rw h (heads-nil (split b'/' s))

heads_other :
    (c : ℕ) (s : Str)
    → nat_beq c b'/' ≡ false
    → heads (split b'/' (c ∷ s)) ≡ map (◌∷◌ c) (heads (split b'/' s))
heads_other c s h =
    let (q, qs, e) = split-ne b'/' s in unfold split in rw (h, e) (heads-cons_head c q qs)

is_under-cons : (c d : ℕ) (s p : Str) → is_under (c ∷ s) (d ∷ p) ≡ (nat_beq c d && is_under s p)
unfolding is_under str_beq
is_under-cons c d s p = ground arith

is_under-nil : (c : ℕ) (s : Str) → is_under (c ∷ s) [] ≡ nat_beq c b'/'
unfolding is_under str_beq
is_under-nil c s = ground arith

member-cons : (a p : Str) (xs : List Str) → member p (a ∷ xs) ≡ (str_beq a p || member p xs)
unfolding member
member-cons a p xs = refl

nil_ne_cons : (d : ℕ) (p : Str) → str_beq [] (d ∷ p) ≡ false
unfolding str_beq
nil_ne_cons d p = refl

member-heads_nil : (p : Str) → member p (heads (split b'/' [])) ≡ is_under [] p
unfolding member heads split is_under str_beq
member-heads_nil [] = refl
member-heads_nil (d ∷ p) = refl

-- Exactly the tag and the paths above it are heads of its parts.
member-heads : (tag p : Str) → member p (heads (split b'/' tag)) ≡ is_under tag p
member-heads [] p = member-heads_nil p
member-heads (c ∷ s) [] = elim (Bool-cases (nat_beq c b'/')) [
  | inl slash ↦ rw (heads_slash c s slash, is_under-nil c s, slash) (unfold member str_beq in refl)
  | inr other ↦
      rw (heads_other c s other, is_under-nil c s, other) (member-map-nil c (heads (split b'/' s)))
]
member-heads (c ∷ s) (d ∷ p) =
    let ih = member-heads s p in
    elim (Bool-cases (nat_beq c b'/')) [
      | inl slash ↦
          rw
            (
              heads_slash c s slash,
              is_under-cons c d s p,
              member-cons [] (d ∷ p) (map (◌∷◌ b'/') (heads (split b'/' s))),
              nil_ne_cons d p,
              member-map-cons b'/' d p (heads (split b'/' s)),
              ih,
            )
            (ground arith)
      | inr other ↦ rw (
        heads_other c s other,
        is_under-cons c d s p,
        member-map-cons c d p (heads (split b'/' s)),
        ih,
      )
    ]

-- The prefixes that the index files a tag under are exactly the tag itself and the paths p for
-- which the tag begins with p and a slash.
pub member-prefixes : (tag p : Str) → member p (prefixes tag) ≡ is_under tag p
member-prefixes tag p = unfold prefixes in rw (cuts-heads (split b'/' tag)) (member-heads tag p)

-- Whether one of the tags is the path or lies below it.
unfoldable pub any_under : List Str → Str → Bool
any_under [] p = false
any_under (t ∷ ts) p = is_under t p || any_under ts p
