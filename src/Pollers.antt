-- ===== src/Pollers.antt =====
-- The poller manager of internal/manager/poller.go, with isValidName of internal/manager/namespace.go.
-- A poller is shared by pointer between the map `pollers` and whoever got it: `heap` maps addresses
-- to pollers, `next` is the first free address, and the map holds addresses. What the store answers
-- is an argument. The callbacks are set; their calls are `notices`, the newest first.
pub mod Operations
pub mod Deletion
pub mod Edits
pub mod Listing
pub mod Lists
pub mod Names
use snmpproxy.Base.{
  ℕ, suc, ◌+◌, Bool, true, false, not, ◌&&◌, ◌||◌, Option, none, some, List, [], ◌∷◌, ◌++◌, Str,
  str_eq, str_beq, if◌then◌else◌, leb, ltb, nat_beq, length, all,
}
use snmpproxy.Base.Map
use snmpproxy.Base.Map.{Map}
use snmpproxy.Base.Index.{Index, add_to, drop_from, or_empty}
use snmpproxy.Base.Results.{Result, ok, err}
use snmpproxy.Base.Text.{lit}
use snmpproxy.State.{
  AdminState, enabled, disabled, PollerState, StateError, poller_key, enable, disable, start, stop,
}
use snmpproxy.State.Manager
use snmpproxy.State.Manager.{StateManager}
use snmpproxy.Stats.{PollerStats, new_poller_stats}
use snmpproxy.Resolver.{PollingConfig, ResolvedPollerConfig}
use snmpproxy.Resolver.Cache.{StoreReads, Cache, resolve, invalidate}

-- `store.Poller` without its timestamps; the empty admin state is `AdminState.other []`.
pub record StoredPoller : Type 0 where
  pub namespace : Str
  pub target : Str
  pub name : Str
  pub description : Str
  pub protocol : Str
  pub protocol_config : Str
  pub polling_config : Option PollingConfig
  pub admin_state : AdminState
  pub version : ℕ

pub data StoreError : Type 0 where
  concurrent_modification : StoreError
  other : Str → StoreError

pub data PollerError : Type 0 where
  poller_already_exists invalid_poller_name poller_not_found : Str → PollerError
  store_refused : StoreError → PollerError
  state_refused : StateError → PollerError

pub data Notice : Type 0 where
  created : Str → Str → Str → ℕ → Notice
  deleted : Str → Str → Str → Notice
  updated : Str → Str → Str → ℕ → Notice

pub record PollerManager : Type 0 where
  pub heap : ℕ → StoredPoller
  pub next : ℕ
  pub pollers : Map Str ℕ
  pub by_namespace : Index
  pub by_target : Index
  pub states : StateManager
  pub stats : Map Str PollerStats
  pub cache : Cache
  pub notices : List Notice

-- What the resolver of the configuration works with at a call: its TTL, the store and the time.
pub record Lookups : Type 0 where
  pub ttl : ℕ
  pub store : StoreReads StoreError
  pub now : ℕ

abbrev pub is_letter : ℕ → Bool
is_letter c = leb b'a' c && leb c b'z' || leb b'A' c && leb c b'Z'

abbrev pub is_digit : ℕ → Bool
is_digit c = leb b'0' c && leb c b'9'

abbrev pub is_name_char : ℕ → Bool
is_name_char c = is_letter c || is_digit c || nat_beq c b'-' || nat_beq c b'_'

-- `isValidName`
unfoldable pub is_valid_name : Str → Bool
is_valid_name [] = false
is_valid_name (c ∷ name) =
    if ltb 63 (length (c ∷ name)) then false else is_letter c && all is_name_char name

abbrev pub target_key : Str → Str → Str
target_key namespace target = namespace ++ b'/' ∷ target

abbrev pub key_of : StoredPoller → Str
key_of p = poller_key p.namespace p.target p.name

-- A store through the pointer `a`.
abbrev pub write_at : ℕ → StoredPoller → (ℕ → StoredPoller) → ℕ → StoredPoller
write_at a p heap b = if nat_beq a b then p else heap b

abbrev pub set_poller : ℕ → StoredPoller → PollerManager → PollerManager
set_poller a p m = record m { heap = write_at a p m.heap }

-- `addToIndexes`
abbrev pub add_to_indexes : Str → Str → Str → PollerManager → PollerManager
add_to_indexes namespace target key m = record m {
  by_namespace = add_to key namespace m.by_namespace;
  by_target = add_to key (target_key namespace target) m.by_target;
}

-- `removeFromIndexes`
abbrev pub remove_from_indexes : Str → Str → Str → PollerManager → PollerManager
remove_from_indexes namespace target key m = record m {
  by_namespace = drop_from key namespace m.by_namespace;
  by_target = drop_from key (target_key namespace target) m.by_target;
}

abbrev pub is_bound_key : Option ℕ → Bool
is_bound_key none = false
is_bound_key (some a) = true

-- A statistics manager's `Get`.
abbrev pub found_or_new_stats :
    Option PollerStats → Str → PollerStats → Map Str PollerStats → Map Str PollerStats
found_or_new_stats (some s) key fresh stats = stats
found_or_new_stats none key fresh stats = Map.put stats key fresh

-- The end of `Create`: the new state takes the admin state, the new statistics are empty.
abbrev pub initialise : StoredPoller → PollerManager → PollerManager
initialise p m =
    let (s, states) = Manager.get p.namespace p.target p.name m.states in
    record m {
      states = Map.put states (key_of p) (record s { admin_state = p.admin_state });
      stats =
          found_or_new_stats (Map.get m.stats (key_of p)) (key_of p)
            (new_poller_stats p.namespace p.target p.name) m.stats;
    }

abbrev pub admin_empty : AdminState → Bool
admin_empty (AdminState.other []) = true
admin_empty _ = false

abbrev pub with_default_state : StoredPoller → StoredPoller
with_default_state p = if admin_empty p.admin_state then record p { admin_state = disabled } else p

-- `NewPollerManager`, in a heap with other pollers.
unfoldable pub new_poller_manager : (ℕ → StoredPoller) → ℕ → PollerManager
new_poller_manager heap next = record {
  heap = heap;
  next = next;
  pollers = [];
  by_namespace = [];
  by_target = [];
  states = [];
  stats = [];
  cache = [];
  notices = [];
}
