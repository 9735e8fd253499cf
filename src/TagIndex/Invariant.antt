-- ===== src/TagIndex/Invariant.antt =====
-- The agreement of the two maps of the index, under each of its operations.
use snmpproxy.Base.{
  ◌≡◌, refl, false, not, ◌&&◌, ◌||◌, List, [], ◌∷◌, Str, str_beq, str_eq, str_beq_iff,
  if◌then◌else◌, arith, inl, inr, Option-cases,
}
use snmpproxy.Base.Map
use snmpproxy.Base.Map.{
  Map, member, insert, erase, get-put, get-delete, member-insert, member-erase,
}
use snmpproxy.TagIndex.{
  TagIndex, at, prefixes, add_prefix, add_prefixes, add_tags, put_or_drop, remove_prefix,
  remove_prefixes, remove_tags, remove, store_tags, add, get_tags, has_tag, new_tag_index,
  update_tags, next_tags,
}
use snmpproxy.Base.Sort.{sort}
use snmpproxy.TagIndex.Prefixes.{any_under, member-prefixes}

pub at-put :
    (m : Map Str (List Str)) (k j : Str) (v : List Str)
    → at (Map.put m k v) j ≡ (if str_beq k j then v else at m j)
at-put m k j v = rw (get-put m k v j) (ground arith)

pub at-delete :
    (m : Map Str (List Str)) (k j : Str)
    → at (Map.delete m k) j ≡ (if str_beq k j then [] else at m j)
at-delete m k j = rw (get-delete m k j) (ground arith)

at-put_or_drop :
    (m : Map Str (List Str)) (k j : Str) (v : List Str)
    → at (put_or_drop k v m) j ≡ (if str_beq k j then v else at m j)
at-put_or_drop m k j [] = at-delete m k j
at-put_or_drop m k j (x ∷ xs) = at-put m k j (x ∷ xs)

any_under-nil : (p : Str) → any_under [] p ≡ false
unfolding any_under
any_under-nil p = refl

module _ (id j q : Str) where
  add_prefix_lem :
      (p : Str) (m : Map Str (List Str))
      → member j (at (add_prefix id p m) q) ≡ (str_beq p q && str_beq id j || member j (at m q))
  unfolding add_prefix
  add_prefix_lem p m =
      rw (at-put m p q (insert id (at m p)))
        (ground (arith, str_beq_iff p q, member-insert id j (at m p)))

  add_prefixes_lem :
      (ps : List Str) (m : Map Str (List Str))
      → member j (at (add_prefixes id ps m) q) ≡ (member q ps && str_beq id j || member j (at m q))
  unfolding add_prefixes member
  add_prefixes_lem [] m = refl
  add_prefixes_lem (p ∷ ps) m =
      ground (arith, add_prefixes_lem ps (add_prefix id p m), add_prefix_lem p m)

  add_tags_lem :
      (ts : List Str) (m : Map Str (List Str))
      → member j (at (add_tags id ts m) q) ≡ (any_under ts q && str_beq id j || member j (at m q))
  unfolding add_tags any_under
  add_tags_lem [] m = refl
  add_tags_lem (t ∷ ts) m = ground (
    arith,
    add_tags_lem ts (add_prefixes id (prefixes t) m),
    add_prefixes_lem (prefixes t) m,
    member-prefixes t q,
  )

  remove_prefix_lem :
      (p : Str) (m : Map Str (List Str))
      → member j (at (remove_prefix id p m) q)
        ≡ (not (str_beq p q && str_beq id j) && member j (at m q))
  unfolding remove_prefix
  remove_prefix_lem p m =
      rw (at-put_or_drop m p q (erase id (at m p)))
        (ground (arith, str_beq_iff p q, member-erase id j (at m p)))

  remove_prefixes_lem :
      (ps : List Str) (m : Map Str (List Str))
      → member j (at (remove_prefixes id ps m) q)
        ≡ (not (member q ps && str_beq id j) && member j (at m q))
  unfolding remove_prefixes member
  remove_prefixes_lem [] m = refl
  remove_prefixes_lem (p ∷ ps) m =
      ground (arith, remove_prefixes_lem ps (remove_prefix id p m), remove_prefix_lem p m)

  remove_tags_lem :
      (ts : List Str) (m : Map Str (List Str))
      → member j (at (remove_tags id ts m) q)
        ≡ (not (any_under ts q && str_beq id j) && member j (at m q))
  unfolding remove_tags any_under
  remove_tags_lem [] m = refl
  remove_tags_lem (t ∷ ts) m = ground (
    arith,
    remove_tags_lem ts (remove_prefixes id (prefixes t) m),
    remove_prefixes_lem (prefixes t) m,
    member-prefixes t q,
  )

-- A target is filed under a path exactly if one of its explicit tags is that path or lies below.
pub record IsConsistent (idx : TagIndex) : Type 0 where
  pub agree : (id p : Str) → has_tag idx id p ≡ any_under (get_tags idx id) p

pub new_tag_index-IsConsistent : IsConsistent new_tag_index
unfolding new_tag_index has_tag get_tags any_under Map.get member
new_tag_index-IsConsistent = record { agree = λ id p. refl }

get_tags-remove :
    (id j : Str) (idx : TagIndex)
    → get_tags (remove id idx) j ≡ (if str_beq id j then [] else get_tags idx j)
unfolding get_tags remove
get_tags-remove id j idx = ground (arith, at-delete idx.target_to_tags id j, str_beq_iff id j)

has_tag-remove :
    (id j p : Str) (idx : TagIndex)
    → has_tag (remove id idx) j p
      ≡ (not (any_under (get_tags idx id) p && str_beq id j) && has_tag idx j p)
unfolding has_tag remove get_tags
has_tag-remove id j p idx = elim (Option-cases (Map.get idx.target_to_tags id)) [
  | inl missing ↦ rw missing (unfold any_under in refl)
  | inr (tags, found) ↦ rw found (remove_tags_lem id j p tags idx.tag_to_targets)
]

get_tags-store_tags :
    (id j : Str) (tags : List Str) (idx : TagIndex)
    → get_tags idx id ≡ []
    → get_tags (store_tags id tags idx) j ≡ (if str_beq id j then tags else get_tags idx j)
unfolding get_tags store_tags
get_tags-store_tags id j [] idx h = ground (arith, str_beq_iff id j)
get_tags-store_tags id j (t ∷ ts) idx h = at-put idx.target_to_tags id j (t ∷ ts)

has_tag-store_tags :
    (id j p : Str) (tags : List Str) (idx : TagIndex)
    → has_tag (store_tags id tags idx) j p ≡ (any_under tags p && str_beq id j || has_tag idx j p)
unfolding has_tag store_tags
has_tag-store_tags id j p [] idx = unfold any_under in refl
has_tag-store_tags id j p (t ∷ ts) idx = add_tags_lem id j p (t ∷ ts) idx.tag_to_targets

remove-IsConsistent : (id : Str) {idx : TagIndex} → IsConsistent idx → IsConsistent (remove id idx)
remove-IsConsistent id {idx} h = record {
  agree = λ j p. ground (
    arith,
    has_tag-remove id j p idx,
    get_tags-remove id j idx,
    h.agree j p,
    str_beq_iff id j,
    any_under-nil p,
  );
}

store_tags-IsConsistent :
    (id : Str) (tags : List Str) {idx : TagIndex}
    → get_tags idx id ≡ []
    → IsConsistent idx
    → IsConsistent (store_tags id tags idx)
store_tags-IsConsistent id tags {idx} e h = record {
  agree = λ j p. ground (
    arith,
    has_tag-store_tags id j p tags idx,
    get_tags-store_tags id j tags idx e,
    h.agree j p,
    h.agree id p,
    str_beq_iff id j,
    any_under-nil p,
  );
}

get_tags-remove_self : (id : Str) (idx : TagIndex) → get_tags (remove id idx) id ≡ []
get_tags-remove_self id idx = ground (arith, get_tags-remove id id idx, str_beq_iff id id)

-- `Add` and `UpdateTags` both replace the tags of one target.
pub replace-IsConsistent :
    (id : Str) (tags : List Str) {idx : TagIndex}
    → IsConsistent idx
    → IsConsistent (store_tags id tags (remove id idx))
replace-IsConsistent id tags {idx} h =
    store_tags-IsConsistent id tags (get_tags-remove_self id idx) (remove-IsConsistent id h)

pub get_tags-replace :
    (id j : Str) (tags : List Str) (idx : TagIndex)
    → get_tags (store_tags id tags (remove id idx)) j
      ≡ (if str_beq id j then tags else get_tags idx j)
get_tags-replace id j tags idx = ground (
  arith,
  get_tags-store_tags id j tags (remove id idx) (get_tags-remove_self id idx),
  get_tags-remove id j idx,
)

-- The operations that write to the index.
pub data Op : Type 0 where
  add_op : Str → List Str → Op
  remove_op : Str → Op
  update_op : Str → List Str → List Str → List Str → Op

unfoldable pub step : Op → TagIndex → TagIndex
unfolding add update_tags
step (add_op id tags) idx = add id tags idx
step (remove_op id) idx = remove id idx
step (update_op id add_list remove_list set_list) idx =
    (update_tags id add_list remove_list set_list idx).0

unfoldable pub run : List Op → TagIndex → TagIndex
run [] idx = idx
run (o ∷ os) idx = run os (step o idx)

step-IsConsistent : (o : Op) {idx : TagIndex} → IsConsistent idx → IsConsistent (step o idx)
unfolding step
step-IsConsistent (add_op id tags) h = replace-IsConsistent id tags h
step-IsConsistent (remove_op id) h = remove-IsConsistent id h
step-IsConsistent (update_op id a r s) {idx} h =
    replace-IsConsistent id (sort (next_tags (get_tags idx id) a r s)) h

-- Whatever the operations on an index in which the two maps agree, they agree afterwards.
pub run-IsConsistent :
    (os : List Op) {idx : TagIndex} → IsConsistent idx → IsConsistent (run os idx)
unfolding run
run-IsConsistent [] h = h
run-IsConsistent (o ∷ os) h = run-IsConsistent os (step-IsConsistent o h)

-- A removed target is filed under no path, and every other target under the same paths as before,
-- in an index whose two maps agree.
pub has_tag-remove_lem :
    (id j p : Str) {idx : TagIndex}
    → IsConsistent idx
    → has_tag (remove id idx) j p ≡ (if str_beq id j then false else has_tag idx j p)
has_tag-remove_lem id j p {idx} h =
    ground (arith, has_tag-remove id j p idx, h.agree j p, h.agree id p, str_beq_iff id j)
