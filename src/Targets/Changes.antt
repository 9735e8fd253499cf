-- ===== src/Targets/Changes.antt =====
-- The operations of the target manager that change or delete a cached target, and the version that
-- UpdateTarget of internal/store/target.go sets.
use snmpproxy.Base.{ℕ, suc, Bool, Option, none, some, Str, str_eq, if◌then◌else◌}
use snmpproxy.Base.Map
use snmpproxy.Base.Map.{Map}
use snmpproxy.Base.Results.{Result, ok, err}
use snmpproxy.Resolver.{PollerDefaults}
use snmpproxy.Pollers.{StoreError, target_key}
use snmpproxy.Targets.{
  StoredTarget, TargetManager, TargetError, target_not_found, store_failed, key_of_target,
  set_target, target_exists,
}

-- UpdateTarget of the store, from its answer on: success counts the version up.
abbrev pub finish_store :
    ℕ → Result StoreError Bool → TargetManager → Option TargetError × TargetManager
finish_store a (err e) m = (some (store_failed e), m)
finish_store a (ok done) m =
    (none, set_target a (record (m.heap a) { version = suc (m.heap a).version }) m)

abbrev pub store_target :
    ℕ → (StoredTarget → Result StoreError Bool) → TargetManager → Option TargetError × TargetManager
store_target a stored m = finish_store a (stored (m.heap a)) m

abbrev pub cache_if_stored :
    Str → ℕ → Option TargetError × TargetManager → Option TargetError × TargetManager
cache_if_stored key a (some e, m) = (some e, m)
cache_if_stored key a (none, m) = (none, record m { targets = Map.put m.targets key a })

abbrev pub update_existing :
    Option ℕ
    → ℕ
    → (StoredTarget → Result StoreError Bool)
    → TargetManager
    → Option TargetError × TargetManager
update_existing none a stored m = (some (target_not_found (key_of_target (m.heap a))), m)
update_existing (some b) a stored m =
    cache_if_stored (key_of_target (m.heap a)) a
      (store_target a stored (set_target a (record (m.heap a) { version = (m.heap b).version }) m))

-- `Update` with the target at the address `a`.
unfoldable pub update_target :
    ℕ → (StoredTarget → Result StoreError Bool) → TargetManager → Option TargetError × TargetManager
update_target a stored m = update_existing (Map.get m.targets (key_of_target (m.heap a))) a stored m

abbrev pub finish_delete_target :
    Str → Result StoreError (ℕ × ℕ) → TargetManager → Result TargetError (ℕ × ℕ) × TargetManager
finish_delete_target key (err e) m = (err (store_failed e), m)
finish_delete_target key (ok counts) m =
    (ok counts, record m { targets = Map.delete m.targets key })

-- `Delete`; the store answers with the numbers of pollers and links that it deleted.
unfoldable pub delete_target :
    Str
    → Str
    → Result StoreError (ℕ × ℕ)
    → TargetManager
    → Result TargetError (ℕ × ℕ) × TargetManager
delete_target ns n answer m =
    if target_exists ns n m
    then finish_delete_target (target_key ns n) answer m
    else (err (target_not_found (target_key ns n)), m)

-- `GetDefaults` after the lookup
abbrev pub defaults_of : Option (Option PollerDefaults) → Option PollerDefaults
defaults_of none = none
defaults_of (some defaults) = defaults

abbrev pub defaults_found : Option ℕ → TargetManager → Option PollerDefaults
defaults_found none m = none
defaults_found (some a) m = defaults_of (m.heap a).config

-- `GetDefaults`
abbrev pub get_defaults : Str → Str → TargetManager → Option PollerDefaults
get_defaults ns n m = defaults_found (Map.get m.targets (target_key ns n)) m

-- `SetDefaults` and `SetLabels`, which change the cached target before the store is asked.
abbrev pub change_found :
    (StoredTarget → StoredTarget)
    → Option ℕ
    → Str
    → (StoredTarget → Result StoreError Bool)
    → TargetManager
    → Option TargetError × TargetManager
change_found change none key stored m = (some (target_not_found key), m)
change_found change (some a) key stored m =
    store_target a stored (set_target a (change (m.heap a)) m)

unfoldable pub set_defaults :
    Str
    → Str
    → Option PollerDefaults
    → (StoredTarget → Result StoreError Bool)
    → TargetManager
    → Option TargetError × TargetManager
set_defaults ns n defaults stored m =
    change_found (λ t. record t { config = some defaults }) (Map.get m.targets (target_key ns n))
      (target_key ns n) stored m

unfoldable pub set_labels :
    Str
    → Str
    → Map Str Str
    → (StoredTarget → Result StoreError Bool)
    → TargetManager
    → Option TargetError × TargetManager
set_labels ns n labels stored m =
    change_found (λ t. record t { labels = labels }) (Map.get m.targets (target_key ns n))
      (target_key ns n) stored m
