-- ===== src/Tree/Cached.antt =====
-- What the cache of the tree holds after a deletion.
use snmpproxy.Base.{
  ℕ, ◌≡◌, refl, ap, ◌∙◌, Bool, true, false, ◌&&◌, ◌||◌, none, [], ◌∷◌, ◌++◌, Str, str_eq, str_beq,
  str_beq_iff, if◌then◌else◌, nat_beq, arith, Bool-cases, inl, inr,
}
use snmpproxy.Base.Map
use snmpproxy.Base.Map.{get-delete}
use snmpproxy.Base.Results.{Result, ok, err}
use snmpproxy.Base.Text.{lit, has_prefix}
use snmpproxy.Tree.{
  TreeManager, drop_keys, normalize_tree_path, tree_key, invalidate_path, delete_node,
}

pub get-drop_keys :
    (prefix : Str) (m : TreeManager) (k : Str)
    → Map.get (drop_keys prefix m) k ≡ (if has_prefix prefix k then none else Map.get m k)
unfolding drop_keys Map.get
get-drop_keys prefix [] k = ground arith
get-drop_keys prefix ((j, n) ∷ m) k =
    let same : str_beq j k ≡ true → has_prefix prefix j ≡ has_prefix prefix k =
      λ e. ap (has_prefix prefix) ((str_beq_iff j k).0 e) in
    ground (arith, get-drop_keys prefix m k, same)

stale_key :
    (ns : Str) (c : ℕ) (name : Str)
    → nat_beq c b'/' ≡ false
    → (str_beq (ns ++ lit ":/") (ns ++ b':' ∷ b'/' ∷ c ∷ name) ≡ false)
      × (has_prefix ((ns ++ lit ":/") ++ lit "/") (ns ++ b':' ∷ b'/' ∷ c ∷ name) ≡ false)
unfolding str_beq has_prefix
stale_key [] c name h = (refl, ground arith)
stale_key (d ∷ ns) c name h =
    let (apart, below) = stale_key ns c name h in (ground arith, ground arith)

module _ {E : Type 0} (clean : Str → Str) where
  -- If the store refuses, Delete keeps the cache. Otherwise the cache loses the node's key, and for
  -- a recursive deletion also the keys that begin with it and a slash, and nothing else.
  pub delete_node_exact :
      (ns path : Str) (recursive : Bool) (n : ℕ) (e : E) (m : TreeManager) (k : Str)
      → let key = tree_key clean ns (normalize_tree_path clean path) in
        (delete_node clean ns path recursive (err e) m ≡ (err e, m))
        × (Map.get (delete_node clean {E = E} ns path recursive (ok n) m).1 k ≡ (
            if str_beq key k || recursive && has_prefix (key ++ lit "/") k
            then none
            else Map.get m k))
  unfolding delete_node invalidate_path
  delete_node_exact ns path recursive n e m k =
      let key = tree_key clean ns (normalize_tree_path clean path) in
      (
        refl,
        elim (Bool-cases recursive) [
          | inl r ↦ rw r (
              get-drop_keys (key ++ lit "/") (Map.delete m key) k
              ∙ rw (get-delete m key k) (ground arith))
          | inr r ↦ rw r (get-delete m key k ∙ ground arith)
        ],
      )

  -- Whatever the store answers to a recursive deletion of the root, the nodes below the root stay in
  -- the cache.
  pub delete_node_root_stale :
      (ns path : Str) (answer : Result E ℕ) (m : TreeManager) (c : ℕ) (name : Str)
      → normalize_tree_path clean (normalize_tree_path clean path) ≡ lit "/"
      → nat_beq c b'/' ≡ false
      → Map.get (delete_node clean ns path true answer m).1 (ns ++ b':' ∷ b'/' ∷ c ∷ name)
        ≡ Map.get m (ns ++ b':' ∷ b'/' ∷ c ∷ name)
  unfolding delete_node invalidate_path
  delete_node_root_stale ns path (err e) m c name root other = refl
  delete_node_root_stale ns path (ok n) m c name root other =
      let k = ns ++ b':' ∷ b'/' ∷ c ∷ name in
      let key = ns ++ lit ":/" in
      let (apart, below) = stale_key ns c name other in
      rw root (
        get-drop_keys (key ++ lit "/") (Map.delete m key) k
        ∙ rw below (get-delete m key k ∙ rw apart refl))
