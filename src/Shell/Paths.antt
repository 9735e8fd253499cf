-- ===== src/Shell/Paths.antt =====
-- Paths and the lists of their parts.
use snmpproxy.Base.{
  ℕ, zero, suc, ◌-◌, ◌≡◌, refl, ap, ◌∙◌, Bool, true, false, not, ◌&&◌, List, [], ◌∷◌, ◌++◌, Str,
  str_eq, str_beq, nat_beq, length, take, all, arith, Bool-cases, inl, inr,
}
use snmpproxy.Base.Text.{lit, split, join, cons_head}
use snmpproxy.Base.Keys.{slash_free}
use snmpproxy.Shell.{add_part, add_parts}

-- The name of a directory entry.
abbrev pub is_part : Str → Bool
is_part p =
    not (str_beq p []) && not (str_beq p (lit ".")) && not (str_beq p (lit "..")) && slash_free p

-- The absolute path with these parts.
abbrev pub render : List Str → Str
render [] = lit "/"
render (p ∷ ps) = b'/' ∷ join b'/' (p ∷ ps)

pub split-part : (a x : Str) → slash_free a ≡ true → split b'/' (a ++ b'/' ∷ x) ≡ a ∷ split b'/' x
unfolding split
split-part [] x h = refl
split-part (c ∷ a) x h =
    let other : nat_beq c b'/' ≡ false = ground arith in
    rw (split-part a x (ground arith)) (rw other refl)

pub split-last_part : (a : Str) → slash_free a ≡ true → split b'/' a ≡ a ∷ []
unfolding split
split-last_part [] h = refl
split-last_part (c ∷ a) h =
    let other : nat_beq c b'/' ≡ false = ground arith in
    rw (split-last_part a (ground arith)) (rw other refl)

append-slash : (a b x : Str) → (a ++ b'/' ∷ b) ++ x ≡ a ++ b'/' ∷ (b ++ x)
append-slash [] b x = refl
append-slash (c ∷ a) b x = ap (◌∷◌ c) (append-slash a b x)

pub split-join :
    (p : Str) (ps : List Str)
    → all is_part (p ∷ ps) ≡ true
    → split b'/' (join b'/' (p ∷ ps)) ≡ p ∷ ps
unfolding join
split-join p [] h = split-last_part p (ground arith)
split-join p (q ∷ ps) h =
    split-part p (join b'/' (q ∷ ps)) (ground arith) ∙ ap (◌∷◌ p) (split-join q ps (ground arith))

pub split-join_append :
    (p : Str) (ps : List Str) (x : Str)
    → all is_part (p ∷ ps) ≡ true
    → split b'/' (join b'/' (p ∷ ps) ++ b'/' ∷ x) ≡ (p ∷ ps) ++ split b'/' x
unfolding join
split-join_append p [] x h = split-part p x (ground arith)
split-join_append p (q ∷ ps) x h =
    let rest = join b'/' (q ∷ ps) in
    ap (split b'/') (append-slash p rest (b'/' ∷ x))
    ∙ split-part p (rest ++ b'/' ∷ x) (ground arith)
    ∙ ap (◌∷◌ p) (split-join_append q ps x (ground arith))

cons_head-slash_free :
    (c : ℕ) (ps : List Str)
    → nat_beq c b'/' ≡ false
    → all slash_free ps ≡ true
    → all slash_free (cons_head c ps) ≡ true
cons_head-slash_free c [] h k = ground arith
cons_head-slash_free c (p ∷ ps) h k = ground arith

pub split-slash_free : (x : Str) → all slash_free (split b'/' x) ≡ true
unfolding split
split-slash_free [] = refl
split-slash_free (c ∷ x) =
    let rest = split-slash_free x in
    elim (Bool-cases (nat_beq c b'/')) [
      | inl e ↦ rw e rest
      | inr e ↦ rw e (cons_head-slash_free c (split b'/' x) e rest)
    ]

pub add_parts-append : (r ps qs : List Str) → add_parts r (ps ++ qs) ≡ add_parts (add_parts r ps) qs
add_parts-append r [] qs = refl
add_parts-append r (p ∷ ps) qs = add_parts-append (add_part r p) ps qs

append_assoc_one : (r : List Str) (p : Str) (ps : List Str) → (r ++ p ∷ []) ++ ps ≡ r ++ p ∷ ps
append_assoc_one [] p ps = refl
append_assoc_one (q ∷ r) p ps = ap (◌∷◌ q) (append_assoc_one r p ps)

append_nil : (r : List Str) → r ≡ r ++ []
append_nil [] = refl
append_nil (q ∷ r) = ap (◌∷◌ q) (append_nil r)

pub add_parts-names : (r ps : List Str) → all is_part ps ≡ true → add_parts r ps ≡ r ++ ps
add_parts-names r [] h = append_nil r
add_parts-names r (p ∷ ps) h =
    let step : add_part r p ≡ r ++ p ∷ [] = ground arith in
    ap (λ s. add_parts s ps) step
    ∙ add_parts-names (r ++ p ∷ []) ps (ground arith)
    ∙ append_assoc_one r p ps

all-take : (n : ℕ) (r : List Str) → all is_part r ≡ true → all is_part (take n r) ≡ true
all-take zero r h = refl
all-take (suc n) [] h = refl
all-take (suc n) (p ∷ r) h = ground (arith, all-take n r)

all-append_one : (r : List Str) (p : Str) → all is_part (r ++ p ∷ []) ≡ (all is_part r && is_part p)
all-append_one [] p = ground arith
all-append_one (q ∷ r) p = rw (all-append_one r p) (ground arith)

add_part-names :
    (r : List Str) (p : Str)
    → all is_part r ≡ true
    → slash_free p ≡ true
    → all is_part (add_part r p) ≡ true
add_part-names r p h k = ground (arith, all-take (length r - 1) r h, all-append_one r p)

-- Only names are left.
pub add_parts-all_names :
    (r ps : List Str)
    → all is_part r ≡ true
    → all slash_free ps ≡ true
    → all is_part (add_parts r ps) ≡ true
add_parts-all_names r [] h k = h
add_parts-all_names r (p ∷ ps) h k =
    add_parts-all_names (add_part r p) ps (add_part-names r p h (ground arith)) (ground arith)
