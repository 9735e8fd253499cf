-- ===== src/TagIndex.antt =====
-- The hierarchical tag index: TagIndex of internal/server/tagindex.go. Both maps are association
-- lists, a set of target ids is a list without repetition, and a lookup of a missing key gives the
-- empty set or slice, as in Go. The lock makes each method one step.
pub mod Prefixes
pub mod Invariant
pub mod Queries
use snmpproxy.Base.{
  ℕ, zero, suc, ◌+◌, Bool, true, false, not, ◌&&◌, ◌||◌, Option, none, some, List, [], ◌∷◌, map,
  Str, ◌==◌, str_eq, if◌then◌else◌, length, take, filter, all, ltb, nat_beq,
}
use snmpproxy.Base.Map
use snmpproxy.Base.Map.{Map, member, insert, erase}
use snmpproxy.Base.Text.{split, join}
use snmpproxy.Base.Sort.{sort}

pub record TagIndex : Type 0 where
  pub tag_to_targets : Map Str (List Str)
  pub target_to_tags : Map Str (List Str)

unfoldable pub new_tag_index : TagIndex
new_tag_index = record { tag_to_targets = []; target_to_tags = [] }

-- `m[k]` of a map into sets or slices: a missing key gives the empty one.
abbrev pub or_empty : Option (List Str) → List Str
or_empty none = []
or_empty (some xs) = xs

abbrev pub at : Map Str (List Str) → Str → List Str
at m k = or_empty (Map.get m k)

-- The prefixes from `parts[:i]` on, `k` of them.
unfoldable pub cuts : List Str → ℕ → ℕ → List Str
cuts parts i zero = []
cuts parts i (suc k) = join b'/' (take i parts) ∷ cuts parts (suc i) k

-- What the loops over `parts` visit: every prefix of the tag, the tag included.
unfoldable pub prefixes : Str → List Str
unfolding cuts split join
prefixes tag = let parts = split b'/' tag in cuts parts 1 (length parts)

unfoldable pub add_prefix : Str → Str → Map Str (List Str) → Map Str (List Str)
add_prefix id prefix m = Map.put m prefix (insert id (at m prefix))

unfoldable pub add_prefixes : Str → List Str → Map Str (List Str) → Map Str (List Str)
add_prefixes id [] m = m
add_prefixes id (p ∷ ps) m = add_prefixes id ps (add_prefix id p m)

-- `addTagLocked`, for each tag of a list.
unfoldable pub add_tags : Str → List Str → Map Str (List Str) → Map Str (List Str)
add_tags id [] m = m
add_tags id (t ∷ ts) m = add_tags id ts (add_prefixes id (prefixes t) m)

abbrev put_or_drop : Str → List Str → Map Str (List Str) → Map Str (List Str)
put_or_drop prefix [] m = Map.delete m prefix
put_or_drop prefix (x ∷ xs) m = Map.put m prefix (x ∷ xs)

-- Takes the id out of one set, and drops a set that is empty then.
unfoldable pub remove_prefix : Str → Str → Map Str (List Str) → Map Str (List Str)
remove_prefix id prefix m = put_or_drop prefix (erase id (at m prefix)) m

unfoldable pub remove_prefixes : Str → List Str → Map Str (List Str) → Map Str (List Str)
remove_prefixes id [] m = m
remove_prefixes id (p ∷ ps) m = remove_prefixes id ps (remove_prefix id p m)

unfoldable pub remove_tags : Str → List Str → Map Str (List Str) → Map Str (List Str)
remove_tags id [] m = m
remove_tags id (t ∷ ts) m = remove_tags id ts (remove_prefixes id (prefixes t) m)

abbrev remove_found : Option (List Str) → Str → TagIndex → TagIndex
remove_found none id idx = idx
remove_found (some tags) id idx = record {
  tag_to_targets = remove_tags id tags idx.tag_to_targets;
  target_to_tags = Map.delete idx.target_to_tags id;
}

-- `removeLocked`, which is also `Remove` and `RemoveLocked`.
unfoldable pub remove : Str → TagIndex → TagIndex
remove id idx = remove_found (Map.get idx.target_to_tags id) id idx

-- The end of `Add` and of `UpdateTags`: nothing is stored for no tags.
unfoldable pub store_tags : Str → List Str → TagIndex → TagIndex
store_tags id [] idx = idx
store_tags id (t ∷ ts) idx = record {
  tag_to_targets = add_tags id (t ∷ ts) idx.tag_to_targets;
  target_to_tags = Map.put idx.target_to_tags id (t ∷ ts);
}

-- `Add` and `AddLocked`
unfoldable pub add : Str → List Str → TagIndex → TagIndex
add id tags idx = store_tags id tags (remove id idx)

-- `GetTags`
unfoldable pub get_tags : TagIndex → Str → List Str
get_tags idx id = at idx.target_to_tags id

unfoldable pub insert_all : List Str → List Str → List Str
insert_all [] s = s
insert_all (t ∷ ts) s = insert_all ts (insert t s)

unfoldable pub erase_all : List Str → List Str → List Str
erase_all [] s = s
erase_all (t ∷ ts) s = erase_all ts (erase t s)

abbrev pub is_nonempty : Str → Bool
is_nonempty [] = false
is_nonempty (c ∷ s) = true

-- The tag list that `UpdateTags` stores, before it is sorted.
unfoldable pub next_tags : List Str → List Str → List Str → List Str → List Str
next_tags current add_list remove_list [] =
    insert_all (filter is_nonempty add_list) (erase_all remove_list (insert_all current []))
next_tags current add_list remove_list (t ∷ ts) = t ∷ ts

-- `UpdateTags`: the new index, and the new tags.
unfoldable pub update_tags : Str → List Str → List Str → List Str → TagIndex → TagIndex × List Str
update_tags id add_list remove_list set_list idx =
    let tags = sort (next_tags (get_tags idx id) add_list remove_list set_list) in
    (store_tags id tags (remove id idx), tags)

-- `Query`
unfoldable pub query : TagIndex → Str → List Str
query idx tag = sort (at idx.tag_to_targets tag)

-- `HasTag`
unfoldable pub has_tag : TagIndex → Str → Str → Bool
has_tag idx id tag = member id (at idx.tag_to_targets tag)

-- `Count`
unfoldable pub count : TagIndex → Str → ℕ
count idx tag = length (at idx.tag_to_targets tag)

-- The choice of the smallest set in `QueryAND`; the first of equals wins.
unfoldable pub smallest : TagIndex → Str → List Str → Str
smallest idx best [] = best
smallest idx best (t ∷ ts) =
    smallest idx (if ltb (count idx t) (count idx best) then t else best) ts

-- `QueryAND`
unfoldable pub query_and : TagIndex → List Str → List Str
query_and idx [] = []
query_and idx (t ∷ ts) =
    let best = smallest idx t ts in
    if nat_beq (count idx best) 0
    then []
    else sort (filter (λ id. all (has_tag idx id) (t ∷ ts)) (at idx.tag_to_targets best))

unfoldable pub union_of : TagIndex → List Str → List Str → List Str
union_of idx [] seen = seen
union_of idx (t ∷ ts) seen = union_of idx ts (insert_all (at idx.tag_to_targets t) seen)

-- `QueryOR`
unfoldable pub query_or : TagIndex → List Str → List Str
unfolding union_of
query_or idx tags = sort (union_of idx tags [])
