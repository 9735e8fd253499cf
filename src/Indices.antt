-- ===== src/Indices.antt =====
-- The secondary indices of the targets: StringSet, Indices and Filter of internal/server/indices.go.
-- A StringSet is a list without repetition; a nil one is `none` where the code tells it from an
-- empty one. `path.Match`, reduced to its Boolean result, is the argument `matches`.
pub mod Sets
pub mod Search
pub mod Targets
use snmpproxy.Base.{
  ℕ, Bool, true, false, not, ◌&&◌, ◌||◌, Option, none, some, List, [], ◌∷◌, Str, ◌==◌, str_eq,
  str_beq, if◌then◌else◌, length, any, filter, ltb, nat_beq,
}
use snmpproxy.Base.Map
use snmpproxy.Base.Map.{Map, member, insert, erase}
use snmpproxy.Base.Sort.{sort}
use snmpproxy.TagIndex
use snmpproxy.TagIndex.{TagIndex, at, new_tag_index, insert_all}

-- `ToSlice`
unfoldable pub to_slice : List Str → List Str
to_slice s = sort s

-- `Intersect`: walks the smaller set, the receiver when they are as large.
unfoldable pub intersect : List Str → List Str → List Str
intersect s other =
    if ltb (length other) (length s)
    then insert_all (filter (λ v. member v s) other) []
    else insert_all (filter (λ v. member v other) s) []

-- `Union`
unfoldable pub union : List Str → List Str → List Str
union s other = insert_all other s

pub record Indices : Type 0 where
  pub tags : TagIndex
  pub by_state : Map Str (List Str)
  pub by_protocol : Map Str (List Str)
  pub by_host : Map Str (List Str)

unfoldable pub new_indices : Indices
new_indices = record { tags = new_tag_index; by_state = []; by_protocol = []; by_host = [] }

-- One of the three blocks of `Add`: a missing set is made first.
unfoldable pub file_under : Str → Str → Map Str (List Str) → Map Str (List Str)
file_under id key m = Map.put m key (insert id (at m key))

abbrev put_nonempty : Str → List Str → Map Str (List Str) → Map Str (List Str)
put_nonempty key [] m = Map.delete m key
put_nonempty key (x ∷ xs) m = Map.put m key (x ∷ xs)

abbrev withdraw_found : Option (List Str) → Str → Str → Map Str (List Str) → Map Str (List Str)
withdraw_found none id key m = m
withdraw_found (some s) id key m = put_nonempty key (erase id s) m

-- One of the three blocks of `Remove`: a set that is empty then is dropped.
unfoldable pub withdraw : Str → Str → Map Str (List Str) → Map Str (List Str)
withdraw id key m = withdraw_found (Map.get m key) id key m

-- `Add`
unfoldable pub add : Str → Str → Str → Str → List Str → Indices → Indices
add id state protocol host tags idx = record {
  tags = TagIndex.add id tags idx.tags;
  by_state = file_under id state idx.by_state;
  by_protocol = file_under id protocol idx.by_protocol;
  by_host = file_under id host idx.by_host;
}

-- `Remove`
unfoldable pub remove : Str → Str → Str → Str → Indices → Indices
remove id state protocol host idx = record {
  tags = TagIndex.remove id idx.tags;
  by_state = withdraw id state idx.by_state;
  by_protocol = withdraw id protocol idx.by_protocol;
  by_host = withdraw id host idx.by_host;
}

-- `UpdateState`
unfoldable pub update_state : Str → Str → Str → Indices → Indices
update_state id old_state new_state idx =
    if str_beq old_state new_state
    then idx
    else record idx { by_state = file_under id new_state (withdraw id old_state idx.by_state) }

-- `UpdateTags`
unfoldable pub update_tags : Str → List Str → List Str → List Str → Indices → Indices × List Str
update_tags id add_list remove_list set_list idx =
    let (tags, returned) = TagIndex.update_tags id add_list remove_list set_list idx.tags in
    (record idx { tags = tags }, returned)

-- `QueryByState`, `QueryByProtocol`: a copy of the set, or a new one.
unfoldable pub query_by_state : Indices → Str → List Str
query_by_state idx state = at idx.by_state state

unfoldable pub query_by_protocol : Indices → Str → List Str
query_by_protocol idx protocol = at idx.by_protocol protocol

-- `strings.Contains(pattern, "*") || strings.Contains(pattern, "?")`
abbrev has_wildcard : Str → Bool
has_wildcard pattern = any (nat_beq b'*') pattern || any (nat_beq b'?') pattern

unfoldable pub matching_hosts : (Str → Str → Bool) → Str → Map Str (List Str) → List Str → List Str
matching_hosts matches pattern [] result = result
matching_hosts matches pattern ((host, set) ∷ rest) result =
    matching_hosts matches pattern rest
      (if matches pattern host then insert_all set result else result)

-- `QueryByHost`
unfoldable pub query_by_host : (Str → Str → Bool) → Indices → Str → List Str
query_by_host matches idx pattern =
    if has_wildcard pattern
    then matching_hosts matches pattern idx.by_host []
    else at idx.by_host pattern

-- `QueryByTag`
unfoldable pub query_by_tag : Indices → Str → List Str
query_by_tag idx tag = insert_all (TagIndex.query idx.tags tag) []

-- `QueryByTags`
unfoldable pub query_by_tags : Indices → List Str → List Str
query_by_tags idx [] = []
query_by_tags idx (t ∷ ts) = insert_all (TagIndex.query_and idx.tags (t ∷ ts)) []

pub record Filter : Type 0 where
  pub tags : List Str
  pub state : Str
  pub protocol : Str
  pub host : Str

abbrev pub is_set {ℓ} : {A : Type ℓ} → List A → Bool
is_set [] = false
is_set (c ∷ s) = true

-- `IsEmpty`
unfoldable pub is_empty : Filter → Bool
is_empty f =
    not (is_set f.tags)
    && (not (is_set f.state) && (not (is_set f.protocol) && not (is_set f.host)))

-- The closure `apply` of `Query`. `none` is the nil result with `initialized` false; from the
-- first set that is not empty on the result is not nil.
unfoldable pub apply : List Str → Option (List Str) → Option (List Str)
apply [] none = none
apply [] (some result) = some []
apply (x ∷ xs) none = some (x ∷ xs)
apply (x ∷ xs) (some result) = some (intersect result (x ∷ xs))

abbrev apply_if : Bool → List Str → Option (List Str) → Option (List Str)
apply_if true set result = apply set result
apply_if false set result = result

-- `Query`; `none` is nil, which tells the caller to use all targets.
unfoldable pub query : (Str → Str → Bool) → Indices → Filter → Option (List Str)
unfolding is_empty
query matches idx f =
    if is_empty f
    then none
    else apply_if (is_set f.host) (query_by_host matches idx f.host) (
        apply_if (is_set f.tags) (query_by_tags idx f.tags) (
          apply_if (is_set f.protocol) (query_by_protocol idx f.protocol)
            (apply_if (is_set f.state) (query_by_state idx f.state) none)))
