-- ===== src/Pollers/Operations.antt =====
-- The operations of the poller manager, and UpdatePoller of internal/handler/poller.go.
use snmpproxy.Base.{
  ℕ, suc, ◌+◌, Bool, Option, none, some, List, [], ◌∷◌, Str, str_eq, if◌then◌else◌, nat_beq, length,
}
use snmpproxy.Base.Map
use snmpproxy.Base.Map.{Map}
use snmpproxy.Base.Index.{or_empty}
use snmpproxy.Base.Results.{Result, ok, err}
use snmpproxy.State.{
  AdminState, enabled, disabled, PollerState, StateError, poller_key, enable, disable, start, stop,
  admin_enabled,
}
use snmpproxy.State.Manager
use snmpproxy.Resolver.{PollingConfig, ResolvedPollerConfig}
use snmpproxy.Resolver.Cache.{Cache, resolve, invalidate}
use snmpproxy.Pollers.{
  StoredPoller, StoreError, PollerError, poller_already_exists, invalid_poller_name,
  poller_not_found, store_refused, state_refused, created, deleted, updated, PollerManager, Lookups,
  is_valid_name, target_key, key_of, set_poller, add_to_indexes, remove_from_indexes, is_bound_key,
  initialise, with_default_state,
}

abbrev pub cache_poller : ℕ → StoredPoller → PollerManager → PollerManager
cache_poller a p m = record m { pollers = Map.put m.pollers (key_of p) a }

-- The end of `Create`, from the store's answer on; the store sets the version.
abbrev pub finish_create :
    ℕ → StoredPoller → Result StoreError Bool → PollerManager → Option PollerError × PollerManager
finish_create a p (err e) m = (some (store_refused e), set_poller a p m)
finish_create a p (ok done) m =
    let p' = record p { version = 1 } in
    (
      none,
      initialise p'
          (add_to_indexes p.namespace p.target (key_of p) (cache_poller a p' (set_poller a p' m))),
    )

-- `Create` of the poller at the address `a`.
unfoldable pub create :
    ℕ → Result StoreError Bool → PollerManager → Option PollerError × PollerManager
create a stored m =
    let p = m.heap a in
    if is_bound_key (Map.get m.pollers (key_of p))
    then (some (poller_already_exists (key_of p)), m)
    else (if is_valid_name p.name
        then finish_create a (with_default_state p) stored m
        else (some (invalid_poller_name p.name), m))

abbrev pub loaded :
    Str
    → Result StoreError (Option StoredPoller)
    → PollerManager
    → Result StoreError (Option ℕ) × PollerManager
loaded key (err e) m = (err e, m)
loaded key (ok none) m = (ok none, m)
loaded key (ok (some p)) m = (
  ok (some m.next),
  record (set_poller m.next p m) { next = suc m.next; pollers = Map.put m.pollers key m.next },
)

abbrev pub cached_or_loaded :
    Option ℕ
    → Str
    → Result StoreError (Option StoredPoller)
    → PollerManager
    → Result StoreError (Option ℕ) × PollerManager
cached_or_loaded (some a) key answer m = (ok (some a), m)
cached_or_loaded none key answer m = loaded key answer m

-- `Get`; the store is only asked on a miss.
unfoldable pub get_poller :
    Str
    → Str
    → Str
    → Result StoreError (Option StoredPoller)
    → PollerManager
    → Result StoreError (Option ℕ) × PollerManager
get_poller ns t n answer m =
    cached_or_loaded (Map.get m.pollers (poller_key ns t n)) (poller_key ns t n) answer m

abbrev pub found_address : Option ℕ → List ℕ → List ℕ
found_address none rest = rest
found_address (some a) rest = a ∷ rest

-- The loops of `List` and `ListInNamespace`.
abbrev pub addresses : Map Str ℕ → List Str → List ℕ
addresses pollers [] = []
addresses pollers (key ∷ keys) = found_address (Map.get pollers key) (addresses pollers keys)

-- `List`
unfoldable pub list_pollers : Str → Str → PollerManager → List ℕ
list_pollers ns t m = addresses m.pollers (or_empty (Map.get m.by_target (target_key ns t)))

-- `ListInNamespace`
unfoldable pub list_in_namespace : Str → PollerManager → List ℕ
list_in_namespace ns m = addresses m.pollers (or_empty (Map.get m.by_namespace ns))

-- `CountInTarget`
unfoldable pub count_in_target : Str → Str → PollerManager → ℕ
count_in_target ns t m = length (or_empty (Map.get m.by_target (target_key ns t)))

-- `Exists`
unfoldable pub poller_exists : Str → Str → Str → PollerManager → Bool
poller_exists ns t n m = is_bound_key (Map.get m.pollers (poller_key ns t n))

abbrev pub resolved_interval : Result StoreError ResolvedPollerConfig → ℕ
resolved_interval (ok cfg) = cfg.interval_ms.value
resolved_interval (err e) = 1000

abbrev pub own_interval : Option PollingConfig → Option ℕ
own_interval none = none
own_interval (some pc) = pc.interval_ms

abbrev pub interval_or_resolved : Option ℕ → Lookups → StoredPoller → Cache → ℕ × Cache
interval_or_resolved (some ms) l p cache = (ms, cache)
interval_or_resolved none l p cache =
    let (r, cache') = resolve l.ttl l.store l.now p.namespace p.target p.name cache in
    (resolved_interval r, cache')

-- `getEffectiveInterval`
unfoldable pub get_effective_interval : Lookups → StoredPoller → Cache → ℕ × Cache
get_effective_interval l p cache = interval_or_resolved (own_interval p.polling_config) l p cache

-- The end of `Update`, from the store's answer on; the store counts the version up.
abbrev pub finish_update :
    ℕ → ℕ → Lookups → Result StoreError Bool → PollerManager → Option PollerError × PollerManager
finish_update a old l (err e) m = (some (store_refused e), m)
finish_update a old l (ok done) m =
    let p = record (m.heap a) { version = (m.heap a).version + 1 } in
    let (ms, cache) = get_effective_interval l p m.cache in
    let m' = record (cache_poller a p (set_poller a p m)) { cache = cache } in
    (
      none,
      if nat_beq old ms
          then m'
          else record m' { notices = updated p.namespace p.target p.name ms ∷ m.notices },
    )

-- `Update` with the pointer `b` to the poller that is cached under the key.
abbrev pub update_found :
    ℕ
    → Option ℕ
    → Lookups
    → Lookups
    → Result StoreError Bool
    → PollerManager
    → Option PollerError × PollerManager
update_found a none l l' stored m = (some (poller_not_found (key_of (m.heap a))), m)
update_found a (some b) l l' stored m =
    let m1 = set_poller a (record (m.heap a) { version = (m.heap b).version }) m in
    let (old, cache) = get_effective_interval l (m1.heap b) m1.cache in
    finish_update a old l' stored (record m1 { cache = cache })

-- `Update` of the poller at the address `a`, which may be the cached one; `l` and `l'` serve the
-- two computations of the interval.
unfoldable pub update :
    ℕ
    → Lookups
    → Lookups
    → Result StoreError Bool
    → PollerManager
    → Option PollerError × PollerManager
update a l l' stored m = update_found a (Map.get m.pollers (key_of (m.heap a))) l l' stored m

abbrev pub finish_delete :
    Str → Str → Str → Result StoreError ℕ → PollerManager → Result PollerError ℕ × PollerManager
finish_delete ns t n (err e) m = (err (store_refused e), m)
finish_delete ns t n (ok links) m =
    let key = poller_key ns t n in
    let m' = remove_from_indexes ns t key (record m { pollers = Map.delete m.pollers key }) in
    (
      ok links,
      record m' {
        states = Manager.remove ns t n m.states;
        stats = Map.delete m.stats key;
        cache = invalidate ns t n m.cache;
      },
    )

-- `Delete`
unfoldable pub delete_poller :
    Str → Str → Str → Result StoreError ℕ → PollerManager → Result PollerError ℕ × PollerManager
delete_poller ns t n stored m =
    if is_bound_key (Map.get m.pollers (poller_key ns t n))
    then finish_delete ns t n stored (record m { notices = deleted ns t n ∷ m.notices })
    else (err (poller_not_found (poller_key ns t n)), m)

abbrev pub refused : Option StateError → Option PollerError
refused none = none
refused (some e) = some (state_refused e)

-- A method of the poller's state.
abbrev pub on_state :
    (PollerState → PollerState × Option StateError)
    → Str
    → Str
    → Str
    → PollerManager
    → Option PollerError × PollerManager
on_state method ns t n m =
    let (s, states) = Manager.get ns t n m.states in
    let (s', e) = method s in
    (refused e, record m { states = Map.put states (poller_key ns t n) s' })

abbrev pub set_admin_found :
    Option ℕ
    → AdminState
    → (PollerState → PollerState × Option StateError)
    → Str
    → Str
    → Str
    → Result StoreError Bool
    → PollerManager
    → Option PollerError × PollerManager
set_admin_found none state method ns t n stored m = (some (poller_not_found (poller_key ns t n)), m)
set_admin_found (some a) state method ns t n (err e) m =
    (some (store_refused e), set_poller a (record (m.heap a) { admin_state = state }) m)
set_admin_found (some a) state method ns t n (ok done) m =
    on_state method ns t n (set_poller a (record (m.heap a) { admin_state = state }) m)

-- `Enable`
unfoldable pub enable_poller :
    Str → Str → Str → Result StoreError Bool → PollerManager → Option PollerError × PollerManager
enable_poller ns t n stored m =
    set_admin_found (Map.get m.pollers (poller_key ns t n)) enabled enable ns t n stored m

-- `Disable`
unfoldable pub disable_poller :
    Str → Str → Str → Result StoreError Bool → PollerManager → Option PollerError × PollerManager
disable_poller ns t n stored m =
    set_admin_found (Map.get m.pollers (poller_key ns t n)) disabled disable ns t n stored m

abbrev pub announce : Option ℕ → Lookups → Str → Str → Str → PollerManager → PollerManager
announce none l ns t n m = m
announce (some a) l ns t n m =
    let (ms, cache) = get_effective_interval l (m.heap a) m.cache in
    record m { cache = cache; notices = created ns t n ms ∷ m.notices }

abbrev pub started :
    Lookups
    → Str
    → Str
    → Str
    → Option PollerError × PollerManager
    → Option PollerError × PollerManager
started l ns t n (some e, m) = (some e, m)
started l ns t n (none, m) = (none, announce (Map.get m.pollers (poller_key ns t n)) l ns t n m)

-- `Start`
unfoldable pub start_poller :
    Lookups → Str → Str → Str → PollerManager → Option PollerError × PollerManager
start_poller l ns t n m = started l ns t n (on_state start ns t n m)

-- `Stop`
unfoldable pub stop_poller : Str → Str → Str → PollerManager → Option PollerError × PollerManager
stop_poller ns t n m = on_state stop ns t n m

-- `InvalidateCache`
unfoldable pub invalidate_cache : Str → Str → Str → PollerManager → PollerManager
invalidate_cache ns t n m = record m { pollers = Map.delete m.pollers (poller_key ns t n) }

-- The loop of `GetEnabledPollers`.
unfoldable pub enabled_pollers : (ℕ → StoredPoller) → Map Str ℕ → List ℕ
enabled_pollers heap [] = []
enabled_pollers heap ((key, a) ∷ rest) =
    let others = enabled_pollers heap rest in
    if admin_enabled (heap a).admin_state then a ∷ others else others

-- UpdatePollerRequest of the handler: an empty protocol configuration is nil.
pub record UpdatePollerRequest : Type 0 where
  pub description : Option Str
  pub protocol_config : Option Str
  pub polling_config : Option PollingConfig

abbrev pub or_old {ℓ} : {A : Type ℓ} → Option A → A → A
or_old none old = old
or_old (some new) old = new

abbrev pub or_old_config : Option PollingConfig → Option PollingConfig → Option PollingConfig
or_old_config none old = old
or_old_config (some new) old = some new

-- The three assignments of `UpdatePoller`.
abbrev pub edited : UpdatePollerRequest → StoredPoller → StoredPoller
edited req p = record p {
  description = or_old req.description p.description;
  protocol_config = or_old req.protocol_config p.protocol_config;
  polling_config = or_old_config req.polling_config p.polling_config;
}

pub data UpdateAnswer : Type 0 where
  get_failed : StoreError → UpdateAnswer
  not_found : UpdateAnswer
  update_answered : Option PollerError → UpdateAnswer

abbrev pub update_got :
    UpdatePollerRequest
    → Lookups
    → Lookups
    → Result StoreError Bool
    → Result StoreError (Option ℕ) × PollerManager
    → UpdateAnswer × PollerManager
update_got req l l' stored (err e, m) = (get_failed e, m)
update_got req l l' stored (ok none, m) = (not_found, m)
update_got req l l' stored (ok (some a), m) =
    let (e, m') = update a l l' stored (set_poller a (edited req (m.heap a)) m) in
    (update_answered e, m')

-- `PollerHandler.UpdatePoller` for a session that is bound to the namespace.
unfoldable pub handle_update_poller :
    Str
    → Str
    → Str
    → UpdatePollerRequest
    → Lookups
    → Lookups
    → Result StoreError (Option StoredPoller)
    → Result StoreError Bool
    → PollerManager
    → UpdateAnswer × PollerManager
handle_update_poller ns t n req l l' answer stored m =
    update_got req l l' stored (get_poller ns t n answer m)
