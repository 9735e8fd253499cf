-- ===== src/Tests/Entities.antt =====
-- The managers of pollers and of the tree at concrete values.
use snmpproxy.Base.{
  ℕ, ◌≡◌, refl, Bool, true, not, ◌&&◌, ◌||◌, none, some, [], ◌∷◌, ◌++◌, Str, str_eq, str_beq,
  if◌then◌else◌,
}
use snmpproxy.Base.Text.{lit}
use snmpproxy.Base.Map
use snmpproxy.Base.Results.{Result, ok, err}
use snmpproxy.State.{AdminState, poller_key}
use snmpproxy.Resolver.{PollingConfig}
use snmpproxy.Pollers.{
  StoredPoller, StoreError, concurrent_modification, PollerManager, Lookups, deleted,
  new_poller_manager, key_of, is_valid_name,
}
use snmpproxy.Pollers.Operations.{
  create, get_poller, list_pollers, list_in_namespace, poller_exists, UpdatePollerRequest,
  handle_update_poller, delete_poller,
}
use snmpproxy.Pollers.Lists.{Filed, create-Filed, new_poller_manager-Filed}
use snmpproxy.Pollers.Listing.{get_poller_unlisted}
use snmpproxy.Pollers.Edits.{handle_update_poller_silent}
use snmpproxy.Pollers.Deletion.{is_ok, delete_poller_exact}
use snmpproxy.Pollers.{target_key}
use snmpproxy.Base.Text.{has_prefix}
use snmpproxy.Tree.{TreeNode, TreeManager, tree_key, normalize_tree_path, delete_node}
use snmpproxy.Base.Index.{indexed}
use snmpproxy.Tree.Cached.{delete_node_exact}
use snmpproxy.Targets.{StoredTarget, TargetManager, key_of_target, set_target, create_target}
use snmpproxy.Targets.Changes.{update_target}
use snmpproxy.Targets.Versions.{update_target_version}
use snmpproxy.Targets.Reached.{Reached, starts, creates, cached_under_own_key}

abbrev router : StoredTarget
router = record {
  namespace = lit "prod";
  name = lit "router";
  description = [];
  labels = [];
  config = none;
  version = 7;
}

abbrev accepts : StoredTarget → Result StoreError Bool
accepts t = ok true

abbrev store_refusal : Result StoreError ℕ
store_refusal = err concurrent_modification

abbrev known_target : Str → Result StoreError Bool
known_target t = ok (str_beq t (lit "router"))

abbrev known_poller : Str → Str → Result StoreError Bool
known_poller t n = ok (str_beq t (lit "router") && str_beq n (lit "cpu"))

abbrev no_targets : TargetManager
no_targets = record { heap = λ a. router; next = 2; targets = [] }

abbrev one_target : TargetManager
one_target = (create_target 0 accepts no_targets).1

one_target-Reached : Reached one_target
one_target-Reached = creates 0 accepts no_targets refl (starts (λ a. router) 2)

one_target_found : Map.get one_target.targets (lit "prod/router") ≡ some 0
unfolding create_target Map.get Map.put str_beq is_valid_name
one_target_found = refl

router_cached : Map.get one_target.targets (key_of_target (one_target.heap 1)) ≡ some 0
unfolding create_target Map.get Map.put str_beq is_valid_name
router_cached = refl

abbrev node : TreeNode
node = record {
  namespace = lit "prod";
  path = lit "/dc1/rack2";
  node_type = lit "directory";
  description = [];
  link_ref = [];
}

abbrev nodes : TreeManager
nodes = (lit "prod:/dc1/rack2", node) ∷ (lit "prod:/dc2", node) ∷ []

-- Clean on paths that are clean.
abbrev clean_path : Str → Str
clean_path path = path

abbrev cpu : StoredPoller
cpu = record {
  namespace = lit "prod";
  target = lit "router";
  name = lit "cpu";
  description = [];
  protocol = lit "snmp";
  protocol_config = [];
  polling_config = none;
  admin_state = AdminState.other [];
  version = 0;
}

abbrev memory : ℕ → StoredPoller
memory a = cpu

abbrev empty : PollerManager
empty = new_poller_manager memory 1

abbrev cached : PollerManager
cached = record empty { pollers = (lit "prod/router/cpu", 0) ∷ [] }

abbrev faster : PollingConfig
faster = record { interval_ms = some 500; timeout_ms = none; retries = none; buffer_size = none }

abbrev change : UpdatePollerRequest
change = record { description = none; protocol_config = none; polling_config = some faster }

abbrev no_lookups : Lookups
no_lookups = record {
  ttl = 60;
  store = record {
    get_server_config = err concurrent_modification;
    get_namespace = λ ns. err concurrent_modification;
    get_target = λ ns t. err concurrent_modification;
    get_poller = λ ns t p. err concurrent_modification;
  };
  now = 100;
}

cpu_cached : Map.get cached.pollers (poller_key (lit "prod") (lit "router") (lit "cpu")) ≡ some 0
unfolding Map.get poller_key str_beq
cpu_cached = refl

cpu_exists : poller_exists (lit "prod") (lit "router") (lit "cpu") cached ≡ true
unfolding poller_exists Map.get poller_key str_beq
cpu_exists = refl

cpu_unknown : Map.get empty.pollers (poller_key (lit "prod") (lit "router") (lit "cpu")) ≡ none
unfolding new_poller_manager Map.get
cpu_unknown = refl

cpu_key : key_of (cached.heap 0) ≡ poller_key (lit "prod") (lit "router") (lit "cpu")
unfolding new_poller_manager
cpu_key = refl

create-Filed_example : Filed (create 0 (ok true) empty).1
create-Filed_example = create-Filed 0 (ok true) empty (new_poller_manager-Filed memory 1)

get_poller_unlisted_example :
    let m' = (get_poller (lit "prod") (lit "router") (lit "cpu") (ok (some cpu)) empty).1 in
    (poller_exists (lit "prod") (lit "router") (lit "cpu") m' ≡ true)
    × ((ns' t' : Str) → list_pollers ns' t' m' ≡ list_pollers ns' t' empty)
    × ((ns' : Str) → list_in_namespace ns' m' ≡ list_in_namespace ns' empty)
get_poller_unlisted_example =
    get_poller_unlisted (lit "prod") (lit "router") (lit "cpu") cpu empty
      (new_poller_manager-Filed memory 1) cpu_unknown

handle_update_poller_silent_example :
    (handle_update_poller
      (lit "prod")
      (lit "router")
      (lit "cpu")
      change
      no_lookups
      no_lookups
      (ok none)
      (ok true)
      cached).1.notices
    ≡ cached.notices
handle_update_poller_silent_example =
    handle_update_poller_silent (lit "prod") (lit "router") (lit "cpu") 0 500 faster change
      no_lookups no_lookups (ok none) (ok true) cached cpu_cached cpu_key refl refl

update_target_version_example :
    let (reply, m1) = update_target 1 accepts one_target in
    let (reply', m2) =
      update_target 1 accepts
        (set_target 1 (record (one_target.heap 1) { version = 3 }) one_target) in
    (reply' ≡ reply) × (m2.targets ≡ m1.targets) × ((c : ℕ) → m2.heap c ≡ m1.heap c)
update_target_version_example = update_target_version 1 0 3 accepts one_target router_cached refl

cached_under_own_key_example : key_of_target (one_target.heap 0) ≡ (lit "prod/router")
cached_under_own_key_example =
    cached_under_own_key one_target (lit "prod/router") 0 one_target-Reached one_target_found

delete_poller_exact_example :
    let k = poller_key (lit "prod") (lit "router") (lit "cpu") in
    let gone =
      poller_exists (lit "prod") (lit "router") (lit "cpu") cached && is_ok store_refusal in
    let (reply, m') = delete_poller (lit "prod") (lit "router") (lit "cpu") store_refusal cached in
    (is_ok reply ≡ gone)
    × (m'.notices ≡ (
        if poller_exists (lit "prod") (lit "router") (lit "cpu") cached
        then deleted (lit "prod") (lit "router") (lit "cpu") ∷ cached.notices
        else cached.notices))
    × ((key : Str)
        → Map.get m'.pollers key
          ≡ (if gone && str_beq k key then none else Map.get cached.pollers key))
    × ((key : Str)
        → Map.get m'.states key
          ≡ (if gone && str_beq k key then none else Map.get cached.states key))
    × ((key : Str)
        → Map.get m'.stats key ≡ (if gone && str_beq k key then none else Map.get cached.stats key))
    × ((key x : Str)
        → indexed m'.by_namespace key x ≡ (
            not (gone && str_beq (lit "prod") x && str_beq k key)
            && indexed cached.by_namespace key x))
    × ((key x : Str)
        → indexed m'.by_target key x ≡ (
            not (gone && str_beq (target_key (lit "prod") (lit "router")) x && str_beq k key)
            && indexed cached.by_target key x))
delete_poller_exact_example =
    delete_poller_exact (lit "prod") (lit "router") (lit "cpu") store_refusal cached

delete_node_exact_example :
    let key = tree_key clean_path (lit "prod") (normalize_tree_path clean_path (lit "/dc1")) in
    (delete_node clean_path (lit "prod") (lit "/dc1") true (err concurrent_modification) nodes
      ≡ (err concurrent_modification, nodes))
    × (Map.get
          (delete_node clean_path {E = StoreError} (lit "prod") (lit "/dc1") true (ok 2) nodes).1
          (lit "prod:/dc1/rack2")
        ≡ (if str_beq key (lit "prod:/dc1/rack2")
              || true && has_prefix (key ++ lit "/") (lit "prod:/dc1/rack2")
            then none
            else Map.get nodes (lit "prod:/dc1/rack2")))
delete_node_exact_example =
    delete_node_exact clean_path (lit "prod") (lit "/dc1") true 2 concurrent_modification nodes
      (lit "prod:/dc1/rack2")
