-- ===== src/TagIndex/Queries.antt =====
-- What the queries return, and what an update leaves, in terms of the tags of each target.
use snmpproxy.Base.{
  ◌≡◌, refl, ◌∙◌, sym, Bool, true, false, not, ◌&&◌, ◌||◌, List, [], ◌∷◌, Str, str_eq, str_beq_iff,
  any, all, arith, Bool-cases, inl, inr, filter, length, nat_beq, ltb, ◌≢◌,
}
use snmpproxy.Base.Map.{member, insert, erase, member-insert, member-erase}
use snmpproxy.Base.Sort.{sort, is_sorted, sort_sorted, member-sort}
use snmpproxy.TagIndex.{
  TagIndex, at, get_tags, has_tag, new_tag_index, update_tags, next_tags, insert_all, erase_all,
  is_nonempty, store_tags, remove, query, count, smallest, query_and, union_of, query_or,
}
use snmpproxy.TagIndex.Prefixes.{any_under}
use snmpproxy.TagIndex.Invariant.{
  Op, run, run-IsConsistent, new_tag_index-IsConsistent, get_tags-replace,
}

-- After any operations from the empty index, a prefix query returns, in order, exactly the targets
-- that have an explicit tag equal to the path or below it.
pub prefix_query_exact :
    (os : List Op) (p j : Str)
    → let idx = run os new_tag_index in
      (member j (query idx p) ≡ any_under (get_tags idx j) p) × (is_sorted (query idx p) ≡ true)
unfolding query
prefix_query_exact os p j =
    let idx = run os new_tag_index in
    let h = (run-IsConsistent os new_tag_index-IsConsistent).agree j p in
    (member-sort j (at idx.tag_to_targets p) ∙ (unfold has_tag in h), sort_sorted _)

pub member_nil : (a : Str) → member a [] ≡ false
unfolding member
member_nil a = refl

pub member-insert_all :
    (a : Str) (ts s : List Str) → member a (insert_all ts s) ≡ (member a ts || member a s)
unfolding insert_all member
member-insert_all a [] s = refl
member-insert_all a (t ∷ ts) s =
    ground (arith, member-insert_all a ts (insert t s), member-insert t a s)

member-erase_all :
    (a : Str) (ts s : List Str) → member a (erase_all ts s) ≡ (not (member a ts) && member a s)
unfolding erase_all member
member-erase_all a [] s = refl
member-erase_all a (t ∷ ts) s =
    ground (arith, member-erase_all a ts (erase t s), member-erase t a s)

pub member-filter :
    (a : Str) (p : Str → Bool) (xs : List Str) → member a (filter p xs) ≡ (p a && member a xs)
unfolding member
member-filter a p [] = ground arith
member-filter a p (x ∷ xs) = ground (arith, member-filter a p xs, str_beq_iff x a)

member-next_tags :
    (a : Str) (current add_list remove_list : List Str)
    → member a (next_tags current add_list remove_list [])
      ≡ (is_nonempty a && member a add_list || not (member a remove_list) && member a current)
unfolding next_tags
member-next_tags a current add_list remove_list = ground (
  arith,
  member-insert_all a (filter is_nonempty add_list) (erase_all remove_list (insert_all current [])),
  member-filter a is_nonempty add_list,
  member-erase_all a remove_list (insert_all current []),
  member-insert_all a current [],
  member_nil a,
)

-- After UpdateTags with nothing to set, a target's tags are the added ones that are not empty and
-- the old ones that are not removed; the call returns them in order, and the tags of every other
-- target are unchanged.
pub update_tags_exact :
    (id : Str) (add_list remove_list : List Str) (idx : TagIndex)
    → let (idx', returned) = update_tags id add_list remove_list [] idx in
      ((a : Str)
        → member a (get_tags idx' id) ≡ (
            is_nonempty a && member a add_list
            || not (member a remove_list) && member a (get_tags idx id)))
      × (returned ≡ get_tags idx' id)
      × (is_sorted returned ≡ true)
      × ((j : Str) → id ≢ j → get_tags idx' j ≡ get_tags idx j)
unfolding update_tags
update_tags_exact id add_list remove_list idx =
    let tags = next_tags (get_tags idx id) add_list remove_list [] in
    let self : get_tags (store_tags id (sort tags) (remove id idx)) id ≡ sort tags =
      ground (arith, get_tags-replace id id (sort tags) idx, str_beq_iff id id) in
    (
      λ a.
          rw (self, member-sort a tags) (member-next_tags a (get_tags idx id) add_list remove_list),
      sym self,
      sort_sorted tags,
      λ j ne. ground (arith, get_tags-replace id j (sort tags) idx, str_beq_iff id j),
    )

all-has_tag-smallest :
    (idx : TagIndex) (j best : Str) (ts : List Str)
    → has_tag idx j best ≡ true
    → all (has_tag idx j) ts ≡ true
    → has_tag idx j (smallest idx best ts) ≡ true
unfolding smallest
all-has_tag-smallest idx j best [] h k = h
all-has_tag-smallest idx j best (t ∷ ts) h k =
    elim (Bool-cases (ltb (count idx t) (count idx best))) [
      | inl less ↦ rw less (all-has_tag-smallest idx j t ts (ground arith) (ground arith))
      | inr more ↦ rw more (all-has_tag-smallest idx j best ts h (ground arith))
    ]

has_tag_def : (idx : TagIndex) (j t : Str) → has_tag idx j t ≡ member j (at idx.tag_to_targets t)
unfolding has_tag
has_tag_def idx j t = refl

member_of_empty : (j : Str) (xs : List Str) → nat_beq (length xs) 0 ≡ true → member j xs ≡ false
unfolding member
member_of_empty j [] h = refl
member_of_empty j (x ∷ xs) h = ground arith

has_tag-count :
    (idx : TagIndex) (j t : Str) → nat_beq (count idx t) 0 ≡ true → has_tag idx j t ≡ false
unfolding count has_tag
has_tag-count idx j t h = member_of_empty j (at idx.tag_to_targets t) h

-- QueryAND over one tag or more returns exactly the targets that are filed under every one of
-- them, although it walks only the smallest set.
pub query_and_exact :
    (idx : TagIndex) (t : Str) (ts : List Str) (j : Str)
    → member j (query_and idx (t ∷ ts)) ≡ all (has_tag idx j) (t ∷ ts)
unfolding query_and
query_and_exact idx t ts j =
    let best = smallest idx t ts in
    let picked = all-has_tag-smallest idx j t ts in
    elim (Bool-cases (nat_beq (count idx best) 0)) [
      | inl none' ↦ rw none' (ground (arith, picked, has_tag-count idx j best none', member_nil j))
      | inr some' ↦
          rw (some', member-sort, member-filter j (λ id. all (has_tag idx id) (t ∷ ts)))
            (ground (arith, picked, has_tag_def idx j best))
    ]

member-union_of :
    (idx : TagIndex) (j : Str) (ts seen : List Str)
    → member j (union_of idx ts seen) ≡ (any (has_tag idx j) ts || member j seen)
unfolding union_of
member-union_of idx j [] seen = refl
member-union_of idx j (t ∷ ts) seen = ground (
  arith,
  member-union_of idx j ts (insert_all (at idx.tag_to_targets t) seen),
  member-insert_all j (at idx.tag_to_targets t) seen,
  has_tag_def idx j t,
)

-- QueryOR returns exactly the targets that are filed under one of the tags at least.
pub query_or_exact :
    (idx : TagIndex) (ts : List Str) (j : Str) → member j (query_or idx ts) ≡ any (has_tag idx j) ts
unfolding query_or
query_or_exact idx ts j = rw (member-sort, member-union_of idx j ts [], member_nil j) (ground arith)
