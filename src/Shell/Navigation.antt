-- ===== src/Shell/Navigation.antt =====
-- The shell's path as the list of its parts, through any changes.
use snmpproxy.Base.{
  ◌≡◌, refl, ap, ◌∙◌, Bool, true, false, List, [], ◌∷◌, ◌++◌, Str, str_eq, str_beq, str_beq_iff,
  if◌then◌else◌, nat_beq, length, any, all, arith, Bool-cases, inl, inr,
}
use snmpproxy.Base.Text.{lit, has_prefix, split, join}
use snmpproxy.Base.Keys.{slash_free, has_prefix-slash}
use snmpproxy.Shell.{
  add_parts, normalize_path, resolve_path, valid_roots, is_at_or_below, is_valid_path, cd,
  path_parts,
}
use snmpproxy.Shell.Directions.{go_to, go_to-add_parts}
use snmpproxy.Shell.Paths.{
  is_part, render, split-join, split-join_append, split-slash_free, add_parts-append,
  add_parts-names, add_parts-all_names,
}

render_lem :
    (r : List Str) → (if nat_beq (length r) 0 then lit "/" else b'/' ∷ join b'/' r) ≡ render r
render_lem [] = refl
render_lem (p ∷ r) = ground arith

normalize_path-render : (path : Str) → normalize_path path ≡ render (add_parts [] (split b'/' path))
unfolding normalize_path
normalize_path-render path = elim (Bool-cases (str_beq path [])) [
  | inl e ↦ rw ((str_beq_iff path []).0 e) (unfold split in unfold str_beq in refl)
  | inr e ↦ elim (Bool-cases (str_beq path (lit "/"))) [
    | inl f ↦ rw ((str_beq_iff path (lit "/")).0 f) (unfold split in unfold str_beq in refl)
    | inr f ↦ rw e (rw f (render_lem (add_parts [] (split b'/' path))))
  ]
]

join-names :
    (p : Str) (ps : List Str)
    → all is_part (p ∷ ps) ≡ true
    → str_beq (join b'/' (p ∷ ps)) [] ≡ false
unfolding join str_beq
join-names [] ps h = ground arith
join-names (c ∷ p) [] h = refl
join-names (c ∷ p) (q ∷ ps) h = refl

go_to-names :
    (ps : List Str) (path : Str) → all is_part ps ≡ true → all is_part (go_to ps path) ≡ true
go_to-names ps path h = rw (go_to-add_parts ps path) (
    add_parts-all_names (if has_prefix (lit "/") path then [] else ps) (split b'/' path)
      (ground arith) (split-slash_free path))

leading_slash : (x : Str) → add_parts [] (split b'/' (b'/' ∷ x)) ≡ add_parts [] (split b'/' x)
unfolding split str_beq
leading_slash x = refl

resolve_relative :
    (ps : List Str) (path : Str)
    → all is_part ps ≡ true
    → (if str_beq (render ps) (lit "/")
        then normalize_path (b'/' ∷ path)
        else normalize_path (render ps ++ b'/' ∷ path))
      ≡ render (add_parts ps (split b'/' path))
resolve_relative [] path h =
    rw ((str_beq_iff (lit "/") (lit "/")).1 refl)
      (normalize_path-render (b'/' ∷ path) ∙ unfold split in unfold str_beq in refl)
resolve_relative (p ∷ ps) path h =
    let x = join b'/' (p ∷ ps) in
    let named : str_beq (b'/' ∷ x) (lit "/") ≡ false =
      unfold str_beq in ground (arith, join-names p ps h) in
    rw named (
      normalize_path-render (b'/' ∷ (x ++ b'/' ∷ path))
      ∙ ap render (
          leading_slash (x ++ b'/' ∷ path)
          ∙ ap (add_parts []) (split-join_append p ps path h)
          ∙ add_parts-append [] (p ∷ ps) (split b'/' path)
          ∙ ap (λ r. add_parts r (split b'/' path)) (add_parts-names [] (p ∷ ps) h)))

resolve_path-render :
    (ps : List Str) (path : Str)
    → all is_part ps ≡ true
    → resolve_path path (render ps) ≡ render (go_to ps path)
unfolding resolve_path
resolve_path-render ps path h = rw (go_to-add_parts ps path) (elim (Bool-cases (str_beq path [])) [
  | inl e ↦
      rw ((str_beq_iff path []).0 e) (unfold split in unfold has_prefix in unfold str_beq in refl)
  | inr e ↦ rw e (elim (Bool-cases (has_prefix (lit "/") path)) [
    | inl f ↦ rw f (normalize_path-render path)
    | inr f ↦ rw f (resolve_relative ps path h)
  ])
])

-- A root of the shell, or a path below it.
abbrev pub is_known : List Str → Bool
is_known [] = true
is_known (p ∷ ps) = any (str_beq p) valid_roots

not_below : (root p : Str) → slash_free p ≡ true → has_prefix (root ++ b'/' ∷ []) p ≡ false
unfolding has_prefix
not_below [] [] h = refl
not_below [] (d ∷ p) h = ground arith
not_below (c ∷ root) [] h = refl
not_below (c ∷ root) (d ∷ p) h = ground (arith, not_below root p)

not_at : (p x root : Str) → slash_free root ≡ true → str_beq (p ++ b'/' ∷ x) root ≡ false
unfolding str_beq
not_at [] x [] h = refl
not_at [] x (d ∷ root) h = ground arith
not_at (c ∷ p) x [] h = refl
not_at (c ∷ p) x (d ∷ root) h = ground (arith, not_at p x root)

is_at_or_below-render :
    (p : Str) (ps : List Str) (root : Str)
    → all is_part (p ∷ ps) ≡ true
    → slash_free root ≡ true
    → is_at_or_below (render (p ∷ ps)) root ≡ str_beq p root
unfolding join str_beq has_prefix
is_at_or_below-render p [] root h k = rw (not_below root p (ground arith)) (ground arith)
is_at_or_below-render p (q ∷ ps) root h k =
    let x = join b'/' (q ∷ ps) in
    ground (
      arith,
      not_at p x root k,
      has_prefix-slash root p [] x k (ground arith),
      str_beq_iff root p,
      str_beq_iff p root,
    )

is_valid_path-render :
    (ps : List Str) → all is_part ps ≡ true → is_valid_path (render ps) ≡ is_known ps
unfolding is_valid_path
is_valid_path-render [] h = unfold str_beq in refl
is_valid_path-render (p ∷ ps) h =
    let named : str_beq (render (p ∷ ps)) (lit "/") ≡ false =
      unfold str_beq in ground (arith, join-names p ps h) in
    rw named (
      rw (is_at_or_below-render p ps (lit "targets") h refl) (
        rw (is_at_or_below-render p ps (lit "tags") h refl) (
          rw (is_at_or_below-render p ps (lit "server") h refl)
            (rw (is_at_or_below-render p ps (lit "session") h refl) refl))))

-- Cd from the directory with the parts `ps`, none of which is empty, "." or "..": it goes where a
-- walk along the parts of the path leads, from the root if the path is absolute, if that is the
-- root or the first part there is a known root; otherwise it fails and stays. The walk passes over
-- empty parts and ".", goes to the parent for "..", where the root is its own parent, and down into
-- any other part.
pub cd_refines :
    (path : Str) (ps : List Str)
    → all is_part ps ≡ true
    → cd path (render ps)
      ≡ (if is_known (go_to ps path) then (true, render (go_to ps path)) else (false, render ps))
unfolding cd
cd_refines path ps h =
    rw (resolve_path-render ps path h)
      (rw (is_valid_path-render (go_to ps path) (go_to-names ps path h)) refl)

unfoldable pub cd_all : List Str → Str → Str
cd_all [] current = current
cd_all (path ∷ paths) current = cd_all paths (cd path current).1

abbrev pub go_all : List Str → List Str → List Str
go_all [] ps = ps
go_all (path ∷ paths) ps = go_all paths (if is_known (go_to ps path) then go_to ps path else ps)

path_parts-render : (ps : List Str) → all is_part ps ≡ true → path_parts (render ps) ≡ ps
unfolding path_parts
path_parts-render [] h = unfold str_beq in refl
path_parts-render (p ∷ ps) h =
    let named : str_beq (render (p ∷ ps)) (lit "/") ≡ false =
      unfold str_beq in ground (arith, join-names p ps h) in
    rw named (split-join p ps h)

cd-step :
    (path : Str) (ps : List Str)
    → all is_part ps ≡ true
    → is_known ps ≡ true
    → let next = if is_known (go_to ps path) then go_to ps path else ps in
      ((cd path (render ps)).1 ≡ render next) × (all is_part next ≡ true) × (is_known next ≡ true)
cd-step path ps h k = rw (cd_refines path ps h) (elim (Bool-cases (is_known (go_to ps path))) [
  | inl e ↦ rw e (refl, go_to-names ps path h, e)
  | inr e ↦ rw e (refl, h, k)
])

cd_all-render :
    (paths ps : List Str)
    → all is_part ps ≡ true
    → is_known ps ≡ true
    → (cd_all paths (render ps) ≡ render (go_all paths ps))
      × (all is_part (go_all paths ps) ≡ true)
      × (is_known (go_all paths ps) ≡ true)
unfolding cd_all
cd_all-render [] ps h k = (refl, h, k)
cd_all-render (path ∷ paths) ps h k =
    let (moved, named, known) = cd-step path ps h k in
    let (e, h', k') =
      cd_all-render paths (if is_known (go_to ps path) then go_to ps path else ps) named known in
    (ap (cd_all paths) moved ∙ e, h', k')

-- However the path is changed, from the root on, the shell's path is a slash and the parts that the
-- changes lead to, joined by slashes; no part is empty, "." or "..", the first is a known root,
-- and PathParts gives exactly these parts.
pub cd_all_parts :
    (paths : List Str)
    → (cd_all paths (lit "/") ≡ render (go_all paths []))
      × (all is_part (go_all paths []) ≡ true)
      × (is_known (go_all paths []) ≡ true)
      × (path_parts (cd_all paths (lit "/")) ≡ go_all paths [])
cd_all_parts paths =
    let (e, h, k) = cd_all-render paths [] refl refl in
    (e, h, k, ap path_parts e ∙ path_parts-render (go_all paths []) h)
