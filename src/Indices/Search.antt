-- ===== src/Indices/Search.antt =====
-- The result of `Query` in terms of the sets of its criteria.
use snmpproxy.Base.{
  ◌≡◌, refl, Bool, true, false, not, ◌&&◌, Option, none, some, List, [], ◌∷◌, ◌++◌, Str, str_eq,
  arith, all, if◌then◌else◌,
}
use snmpproxy.Base.Map.{member}
use snmpproxy.TagIndex.Queries.{member_nil}
use snmpproxy.Indices.{
  Indices, Filter, is_set, apply, apply_if, intersect, query, query_by_state, query_by_protocol,
  query_by_tags, query_by_host,
}
use snmpproxy.Indices.Sets.{member-intersect}

abbrev when : Bool → List Str → List (List Str)
when true set = set ∷ []
when false set = []

-- The sets of the criteria that are given, in the order in which they are applied.
abbrev pub criteria : (Str → Str → Bool) → Indices → Filter → List (List Str)
criteria matches idx f =
    when (is_set f.state) (query_by_state idx f.state)
    ++ (when (is_set f.protocol) (query_by_protocol idx f.protocol)
        ++ (when (is_set f.tags) (query_by_tags idx f.tags)
            ++ when (is_set f.host) (query_by_host matches idx f.host)))

-- The list without the empty sets that it begins with.
unfoldable pub skip_empty : List (List Str) → List (List Str)
skip_empty [] = []
skip_empty ([] ∷ sets) = skip_empty sets
skip_empty ((x ∷ xs) ∷ sets) = (x ∷ xs) ∷ sets

-- Whether a result holds a target. The callers take nil for no target when a criterion is given.
unfoldable pub selects : Str → Option (List Str) → Bool
selects j none = false
selects j (some s) = member j s

abbrev pub is_nil {ℓ} : {A : Type ℓ} → Option A → Bool
is_nil none = true
is_nil (some s) = false

unfoldable pub apply_all : List (List Str) → Option (List Str) → Option (List Str)
apply_all [] result = result
apply_all (set ∷ sets) result = apply_all sets (apply set result)

apply_all-append :
    (xs ys : List (List Str)) (r : Option (List Str))
    → apply_all (xs ++ ys) r ≡ apply_all ys (apply_all xs r)
unfolding apply_all
apply_all-append [] ys r = refl
apply_all-append (x ∷ xs) ys r = apply_all-append xs ys (apply x r)

apply_all-when :
    (b : Bool) (set : List Str) (r : Option (List Str))
    → apply_all (when b set) r ≡ apply_if b set r
unfolding apply_all
apply_all-when true set r = refl
apply_all-when false set r = refl

apply-some :
    (set result : List Str)
    → (s : List Str) × (apply set (some result) ≡ some s)
      × ((j : Str) → member j s ≡ (member j result && member j set))
unfolding apply
apply-some [] result = ([], refl, λ j. ground (arith, member_nil j))
apply-some (x ∷ xs) result =
    (intersect result (x ∷ xs), refl, λ j. member-intersect j result (x ∷ xs))

apply_all-some :
    (sets : List (List Str)) (result : List Str)
    → (s : List Str) × (apply_all sets (some result) ≡ some s)
      × ((j : Str) → member j s ≡ (member j result && all (member j) sets))
unfolding apply_all
apply_all-some [] result = (result, refl, λ j. ground arith)
apply_all-some (set ∷ sets) result =
    let (s, e, h) = apply-some set result in
    let (s', e', h') = apply_all-some sets s in (s', rw e e', λ j. ground (arith, h j, h' j))

apply_all-none :
    (sets : List (List Str)) (j : Str)
    → (selects j (apply_all sets none)
        ≡ (is_set (skip_empty sets) && all (member j) (skip_empty sets)))
      × (is_nil (apply_all sets none) ≡ not (is_set (skip_empty sets)))
unfolding apply_all selects skip_empty apply
apply_all-none [] j = (refl, refl)
apply_all-none ([] ∷ sets) j = apply_all-none sets j
apply_all-none ((x ∷ xs) ∷ sets) j =
    let (s, e, h) = apply_all-some sets (x ∷ xs) in (rw e (h j), rw e refl)

query_steps :
    (a b c d : Bool) (s p t h : List Str)
    → (if not c && (not a && (not b && not d))
        then none
        else apply_if d h (apply_if c t (apply_if b p (apply_if a s none))))
      ≡ apply_all (when a s ++ (when b p ++ (when c t ++ when d h))) none
unfolding apply_all
query_steps a b c d s p t h = ground arith

query-apply_all :
    (matches : Str → Str → Bool) (idx : Indices) (f : Filter)
    → query matches idx f ≡ apply_all (criteria matches idx f) none
unfolding query
query-apply_all matches idx f =
    query_steps (is_set f.state) (is_set f.protocol) (is_set f.tags) (is_set f.host)
      (query_by_state idx f.state) (query_by_protocol idx f.protocol) (query_by_tags idx f.tags)
      (query_by_host matches idx f.host)

module _ (matches : Str → Str → Bool) (idx : Indices) (f : Filter) where
  -- A combined query returns the targets that are in the set of every given criterion, except that
  -- the empty sets at the beginning of the row are left out of account; it returns nil exactly if
  -- all sets are empty or no criterion is given.
  pub filter_query_exact :
      ((j : Str)
        → let sets = skip_empty (criteria matches idx f) in
          selects j (query matches idx f) ≡ (is_set sets && all (member j) sets))
      × (is_nil (query matches idx f) ≡ not (is_set (skip_empty (criteria matches idx f))))
  filter_query_exact = rw (query-apply_all matches idx f) (
    λ j. (apply_all-none (criteria matches idx f) j).0,
    (apply_all-none (criteria matches idx f) []).1,
  )

-- If the first criterion's set holds a target, a combined query returns exactly the targets that
-- are in the set of every given criterion.
pub query_every_criterion :
    (matches : Str → Str → Bool) (idx : Indices) (f : Filter) (x : Str) (xs : List Str)
    (sets : List (List Str)) (j : Str)
    → criteria matches idx f ≡ (x ∷ xs) ∷ sets
    → selects j (query matches idx f) ≡ all (member j) (criteria matches idx f)
query_every_criterion matches idx f x xs sets j h =
    rw ((filter_query_exact matches idx f).0 j, h) (unfold skip_empty in refl)

apply_all-when_empty :
    (b : Bool) (sets : List (List Str)) → apply_all (when b [] ++ sets) none ≡ apply_all sets none
unfolding apply_all apply
apply_all-when_empty true sets = refl
apply_all-when_empty false sets = refl

-- If no target has the state that a filter asks for, the query ignores that criterion: it returns
-- what it returns with no state asked for.
pub query_ignores_unmatched_state :
    (matches : Str → Str → Bool) (idx : Indices) (f : Filter)
    → query_by_state idx f.state ≡ []
    → query matches idx f ≡ query matches idx (record f { state = [] })
query_ignores_unmatched_state matches idx f h =
    rw (query-apply_all matches idx f, query-apply_all matches idx (record f { state = [] }), h)
      (apply_all-when_empty (is_set f.state) _)
