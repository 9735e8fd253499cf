-- ===== src/Shell/Directions.antt =====
-- Where a path leads, without the code: a walk that keeps the directory's names nearest first.
use snmpproxy.Base.{
  ◌-◌, ◌≡◌, refl, ap, sym, ◌∙◌, List, [], ◌∷◌, ◌++◌, Str, str_eq, str_beq, str_beq_iff,
  length-append, if◌then◌else◌, length, take, arith, Bool-cases, inl, inr,
}
use snmpproxy.Base.Text.{lit, has_prefix, split}
use snmpproxy.Shell.{add_part, add_parts}

abbrev pub reverse : List Str → List Str
reverse [] = []
reverse (p ∷ ps) = reverse ps ++ p ∷ []

abbrev pub parent : List Str → List Str
parent [] = []
parent (p ∷ dir) = dir

-- The directory, nearest name first, that one part of a path leads to.
abbrev pub enter : Str → List Str → List Str
enter part dir =
    if str_beq part (lit "..")
    then parent dir
    else (if str_beq part (lit ".") then dir else (if str_beq part [] then dir else part ∷ dir))

abbrev pub walk : List Str → List Str → List Str
walk [] dir = dir
walk (part ∷ parts) dir = walk parts (enter part dir)

-- Where a path leads from the directory with the parts `ps`, outermost first.
abbrev pub go_to : List Str → Str → List Str
go_to ps path =
    reverse (walk (split b'/' path) (if has_prefix (lit "/") path then [] else reverse ps))

take-length : (r : List Str) (p : Str) → take (length r) (r ++ p ∷ []) ≡ r
take-length [] p = refl
take-length (q ∷ r) p = ap (◌∷◌ q) (take-length r p)

take-all_but_last : (r : List Str) (p : Str) → take (length (r ++ p ∷ []) - 1) (r ++ p ∷ []) ≡ r
take-all_but_last r p =
    let shorter : length (r ++ p ∷ []) - 1 ≡ length r = omega (arith, length-append r (p ∷ [])) in
    rw shorter (take-length r p)

add_part-parent :
    (dir : List Str) → take (length (reverse dir) - 1) (reverse dir) ≡ reverse (parent dir)
add_part-parent [] = refl
add_part-parent (p ∷ dir) = take-all_but_last (reverse dir) p

add_part-enter :
    (part : Str) (dir : List Str) → add_part (reverse dir) part ≡ reverse (enter part dir)
unfolding str_beq
add_part-enter part dir = elim (Bool-cases (str_beq part (lit ".."))) [
  | inl e ↦ rw ((str_beq_iff part (lit "..")).0 e) (add_part-parent dir)
  | inr e ↦ elim (Bool-cases (str_beq part (lit "."))) [
    | inl f ↦ rw ((str_beq_iff part (lit ".")).0 f) refl
    | inr f ↦
        rw e (rw f (elim (Bool-cases (str_beq part [])) [ inl g ↦ rw g refl | inr g ↦ rw g refl ]))
  ]
]

pub add_parts-walk :
    (parts dir : List Str) → add_parts (reverse dir) parts ≡ reverse (walk parts dir)
add_parts-walk [] dir = refl
add_parts-walk (part ∷ parts) dir =
    ap (λ r. add_parts r parts) (add_part-enter part dir) ∙ add_parts-walk parts (enter part dir)

reverse-append_one : (r : List Str) (p : Str) → reverse (r ++ p ∷ []) ≡ p ∷ reverse r
reverse-append_one [] p = refl
reverse-append_one (q ∷ r) p = ap (λ s. s ++ q ∷ []) (reverse-append_one r p)

pub reverse-reverse : (r : List Str) → reverse (reverse r) ≡ r
reverse-reverse [] = refl
reverse-reverse (p ∷ r) = reverse-append_one (reverse r) p ∙ ap (◌∷◌ p) (reverse-reverse r)

-- The code's way to the same place.
pub go_to-add_parts :
    (ps : List Str) (path : Str)
    → go_to ps path ≡ add_parts (if has_prefix (lit "/") path then [] else ps) (split b'/' path)
go_to-add_parts ps path = elim (Bool-cases (has_prefix (lit "/") path)) [
  | inl e ↦ rw e (sym (add_parts-walk (split b'/' path) []))
  | inr e ↦ rw e (
      sym (add_parts-walk (split b'/' path) (reverse ps))
      ∙ ap (λ r. add_parts r (split b'/' path)) (reverse-reverse ps))
]
