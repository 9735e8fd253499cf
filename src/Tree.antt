-- ===== src/Tree.antt =====
-- The tree manager of internal/manager/tree.go: the references of links, and the cache of nodes
-- under "namespace:path". What the store answers is an argument, and so is `clean`, which is
-- Clean of Go's package path.
pub mod Cached
pub mod Formats
pub mod Links
use snmpproxy.Base.{
  ℕ, suc, Bool, true, false, not, ◌&&◌, ◌||◌, Option, none, some, List, [], ◌∷◌, ◌++◌, Str, str_eq,
  str_beq, if◌then◌else◌, nat_beq, drop,
}
use snmpproxy.Base.Map
use snmpproxy.Base.Map.{Map}
use snmpproxy.Base.Results.{Result, ok, err}
use snmpproxy.Base.Text.{lit, has_prefix}

-- `store.TreeNode` without its time of creation.
pub record TreeNode : Type 0 where
  pub namespace : Str
  pub path : Str
  pub node_type : Str
  pub description : Str
  pub link_ref : Str

pub data LinkError : Type 0 where
  invalid_poller_reference unknown_link_type : Str → LinkError

pub record LinkRef : Type 0 where
  pub link_type : Str
  pub target : Str
  pub poller : Str

abbrev cons_first : ℕ → Option (Str × Str) → Option (Str × Str)
cons_first c none = none
cons_first c (some (a, b)) = some (c ∷ a, b)

-- `strings.SplitN(s, "/", 2)`: `none` if there is no slash.
abbrev pub split_once : Str → Option (Str × Str)
split_once [] = none
split_once (c ∷ s) =
    let rest = split_once s in if nat_beq c b'/' then some ([], s) else cons_first c rest

abbrev pub poller_ref : Str → Option (Str × Str) → Result LinkError LinkRef
poller_ref ref none = err (invalid_poller_reference ref)
poller_ref ref (some (t, p)) = ok (record { link_type = lit "poller"; target = t; poller = p })

-- `ParseLinkRef`
unfoldable pub parse_link_ref : Str → Result LinkError LinkRef
parse_link_ref ref =
    if has_prefix (lit "target:") ref
    then ok (record { link_type = lit "target"; target = drop 7 ref; poller = [] })
    else (if has_prefix (lit "poller:") ref
        then poller_ref ref (split_once (drop 7 ref))
        else err (unknown_link_type ref))

abbrev pub ends_in_slash : Str → Bool
ends_in_slash [] = false
ends_in_slash (c ∷ []) = nat_beq c b'/'
ends_in_slash (c ∷ d ∷ s) = ends_in_slash (d ∷ s)

abbrev pub without_last : Str → Str
without_last [] = []
without_last (c ∷ []) = []
without_last (c ∷ d ∷ s) = c ∷ without_last (d ∷ s)

abbrev pub with_slash : Str → Str
with_slash p = if has_prefix (lit "/") p then p else b'/' ∷ p

abbrev pub trim_end : Str → Str
trim_end p = if not (str_beq p (lit "/")) && ends_in_slash p then without_last p else p

abbrev pub TreeManager : Type 0
TreeManager = Map Str TreeNode

-- The loops that delete the keys with a prefix.
unfoldable pub drop_keys : Str → TreeManager → TreeManager
drop_keys prefix [] = []
drop_keys prefix ((k, n) ∷ m) =
    let rest = drop_keys prefix m in if has_prefix prefix k then rest else (k, n) ∷ rest

-- `invalidateAllForNamespace`
unfoldable pub invalidate_all_for_namespace : Str → TreeManager → TreeManager
invalidate_all_for_namespace ns m = drop_keys (ns ++ lit ":") m

module _ (clean : Str → Str) where
  -- `normalizePath`
  unfoldable pub normalize_tree_path : Str → Str
  normalize_tree_path p = trim_end (with_slash (clean p))

  -- `treeKey`
  abbrev pub tree_key : Str → Str → Str
  tree_key ns path = ns ++ b':' ∷ normalize_tree_path path

  -- `invalidatePath`
  unfoldable pub invalidate_path : Str → Str → TreeManager → TreeManager
  invalidate_path ns path m = Map.delete m (tree_key ns path)

  -- `path.Join` of the two
  abbrev pub join_path : Str → Str → Str
  join_path path name = if str_beq name [] then clean path else clean (path ++ b'/' ∷ name)

  module _ {E : Type 0} where
    -- `CreateDirectory`
    unfoldable pub create_directory :
        Str → Str → Result E Bool → TreeManager → Option E × TreeManager
    create_directory ns path (err e) m = (some e, m)
    create_directory ns path (ok done) m = (none, invalidate_path ns (normalize_tree_path path) m)

    abbrev pub finish_link : Str → Str → Str → Result E Bool → TreeManager → Option E × TreeManager
    finish_link ns path name (err e) m = (some e, m)
    finish_link ns path name (ok done) m = (none, invalidate_path ns (join_path path name) m)

    abbrev pub link_under :
        Result E Bool → Option E × TreeManager → TreeManager → Option E × TreeManager
    link_under (err e) linked m = (some e, m)
    link_under (ok done) linked m = linked

    -- `CreateLink`, with the answers for the directory, unless it is the root, and for the link.
    unfoldable pub create_link :
        Str → Str → Str → Result E Bool → Result E Bool → TreeManager → Option E × TreeManager
    create_link ns path name made linked m =
        let p = normalize_tree_path path in
        if not (str_beq p (lit "/"))
        then link_under made (finish_link ns p name linked m) m
        else finish_link ns p name linked m

    abbrev pub loaded_node :
        Str → Result E (Option TreeNode) → TreeManager → Result E (Option TreeNode) × TreeManager
    loaded_node key (err e) m = (err e, m)
    loaded_node key (ok none) m = (ok none, m)
    loaded_node key (ok (some n)) m = (ok (some n), Map.put m key n)

    abbrev pub cached_node :
        Option TreeNode
        → Str
        → Result E (Option TreeNode)
        → TreeManager
        → Result E (Option TreeNode) × TreeManager
    cached_node (some n) key answer m = (ok (some n), m)
    cached_node none key answer m = loaded_node key answer m

    -- `Get`
    unfoldable pub get_node :
        Str
        → Str
        → Result E (Option TreeNode)
        → TreeManager
        → Result E (Option TreeNode) × TreeManager
    get_node ns path answer m =
        let key = tree_key ns (normalize_tree_path path) in cached_node (Map.get m key) key answer m

    -- `Delete`
    unfoldable pub delete_node :
        Str → Str → Bool → Result E ℕ → TreeManager → Result E ℕ × TreeManager
    delete_node ns path recursive (err e) m = (err e, m)
    delete_node ns path recursive (ok deleted) m =
        let p = normalize_tree_path path in
        let m' = invalidate_path ns p m in
        (ok deleted, if recursive then drop_keys (tree_key ns p ++ lit "/") m' else m')

    -- `DeleteLinksToTarget`, `DeleteLinksToPoller` and `DeleteLinksToTargetAndPollers`
    unfoldable pub delete_links : Str → Result E ℕ → TreeManager → Result E ℕ × TreeManager
    delete_links ns (err e) m = (err e, m)
    delete_links ns (ok deleted) m = (ok deleted, invalidate_all_for_namespace ns m)
