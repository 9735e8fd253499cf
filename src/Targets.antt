-- ===== src/Targets.antt =====
-- The target manager of internal/manager/target.go.
-- A target is shared by pointer between the map `targets` and whoever got it: `heap` maps addresses
-- to targets, `next` is the first free address, and the map holds addresses. What the store answers
-- is an argument, which depends on the target that is sent where the code sends one. A
-- `Config` belongs to one target only, and is part of it here.
pub mod Changes
pub mod Filing
pub mod Reached
pub mod Versions
use snmpproxy.Base.{
  ℕ, suc, Bool, true, false, Option, none, some, List, [], ◌∷◌, ◌++◌, Str, str_eq, str_beq,
  if◌then◌else◌, nat_beq, length,
}
use snmpproxy.Base.Map
use snmpproxy.Base.Map.{Map}
use snmpproxy.Base.Results.{Result, ok, err}
use snmpproxy.Resolver.{PollerDefaults}
use snmpproxy.Pollers.{StoreError, concurrent_modification, is_valid_name, is_bound_key, target_key}

-- `store.Target` without its timestamps; `config` holds the `Defaults`, which may be nil.
pub record StoredTarget : Type 0 where
  pub namespace : Str
  pub name : Str
  pub description : Str
  pub labels : Map Str Str
  pub config : Option (Option PollerDefaults)
  pub version : ℕ

pub data TargetError : Type 0 where
  target_already_exists target_not_found invalid_target_name : Str → TargetError
  store_failed : StoreError → TargetError

pub record TargetManager : Type 0 where
  pub heap : ℕ → StoredTarget
  pub next : ℕ
  pub targets : Map Str ℕ

abbrev pub key_of_target : StoredTarget → Str
key_of_target t = target_key t.namespace t.name

-- A store through the pointer `a`.
abbrev pub target_at : ℕ → StoredTarget → (ℕ → StoredTarget) → ℕ → StoredTarget
target_at a t heap b = if nat_beq a b then t else heap b

abbrev pub set_target : ℕ → StoredTarget → TargetManager → TargetManager
set_target a t m = record m { heap = target_at a t m.heap }

-- A target that the store hands over, put in the cache under the key.
abbrev pub cache_target : Str → StoredTarget → TargetManager → TargetManager
cache_target key t m = record (set_target m.next t m) {
  next = suc m.next;
  targets = Map.put m.targets key m.next;
}

-- The inner loop of `Load`
abbrev pub cache_targets : List StoredTarget → TargetManager → TargetManager
cache_targets [] m = m
cache_targets (t ∷ ts) m = cache_targets ts (cache_target (key_of_target t) t m)

-- The body of the outer loop, with the rest of the loop.
abbrev pub cache_listed :
    Result StoreError (List StoredTarget)
    → (TargetManager → Option StoreError × TargetManager)
    → TargetManager
    → Option StoreError × TargetManager
cache_listed (err e) continue m = (some e, m)
cache_listed (ok ts) continue m = continue (cache_targets ts m)

-- The outer loop of `Load`
abbrev pub load_namespaces :
    List Str
    → (Str → Result StoreError (List StoredTarget))
    → TargetManager
    → Option StoreError × TargetManager
load_namespaces [] list m = (none, m)
load_namespaces (ns ∷ rest) list m = cache_listed (list ns) (load_namespaces rest list) m

-- `Load`
unfoldable pub load_targets :
    Result StoreError (List Str)
    → (Str → Result StoreError (List StoredTarget))
    → TargetManager
    → Option StoreError × TargetManager
load_targets (err e) list m = (some e, m)
load_targets (ok namespaces) list m = load_namespaces namespaces list (record m { targets = [] })

-- The end of `Create`, from the store's answer on; the store sets the version.
abbrev pub finish_create_target :
    ℕ → Result StoreError Bool → TargetManager → Option TargetError × TargetManager
finish_create_target a (err e) m = (some (store_failed e), m)
finish_create_target a (ok done) m =
    let t = record (m.heap a) { version = 1 } in
    (none, record (set_target a t m) { targets = Map.put m.targets (key_of_target t) a })

-- `Create` of the target at the address `a`.
unfoldable pub create_target :
    ℕ → (StoredTarget → Result StoreError Bool) → TargetManager → Option TargetError × TargetManager
create_target a stored m =
    let t = m.heap a in
    if is_bound_key (Map.get m.targets (key_of_target t))
    then (some (target_already_exists (key_of_target t)), m)
    else (if is_valid_name t.name
        then finish_create_target a (stored t) m
        else (some (invalid_target_name t.name), m))

abbrev pub loaded_target :
    Str
    → Result StoreError (Option StoredTarget)
    → TargetManager
    → Result StoreError (Option ℕ) × TargetManager
loaded_target key (err e) m = (err e, m)
loaded_target key (ok none) m = (ok none, m)
loaded_target key (ok (some t)) m = (ok (some m.next), cache_target key t m)

abbrev pub cached_target :
    Option ℕ
    → Str
    → Result StoreError (Option StoredTarget)
    → TargetManager
    → Result StoreError (Option ℕ) × TargetManager
cached_target (some a) key answer m = (ok (some a), m)
cached_target none key answer m = loaded_target key answer m

-- `Get`; the store is only asked on a miss.
unfoldable pub get_target :
    Str
    → Str
    → Result StoreError (Option StoredTarget)
    → TargetManager
    → Result StoreError (Option ℕ) × TargetManager
get_target ns n answer m =
    cached_target (Map.get m.targets (target_key ns n)) (target_key ns n) answer m

-- The loop of `List`, which goes through the map in any order.
abbrev pub in_namespace : Str → (ℕ → StoredTarget) → Map Str ℕ → List ℕ
in_namespace ns heap [] = []
in_namespace ns heap ((key, a) ∷ rest) =
    let found = in_namespace ns heap rest in
    if str_beq (heap a).namespace ns then a ∷ found else found

-- `List`
abbrev pub list_targets : Str → TargetManager → List ℕ
list_targets ns m = in_namespace ns m.heap m.targets

-- The loop of `CountInNamespace`
abbrev pub count_from : Str → (ℕ → StoredTarget) → Map Str ℕ → ℕ
count_from ns heap [] = 0
count_from ns heap ((key, a) ∷ rest) =
    let n = count_from ns heap rest in if str_beq (heap a).namespace ns then suc n else n

-- `CountInNamespace`
abbrev pub count_in_namespace : Str → TargetManager → ℕ
count_in_namespace ns m = count_from ns m.heap m.targets

-- `Count`
abbrev pub count_targets : TargetManager → ℕ
count_targets m = length m.targets

-- `Exists`
abbrev pub target_exists : Str → Str → TargetManager → Bool
target_exists ns n m = is_bound_key (Map.get m.targets (target_key ns n))

-- `InvalidateCache`
abbrev pub invalidate_cached_target : Str → Str → TargetManager → TargetManager
invalidate_cached_target ns n m = record m { targets = Map.delete m.targets (target_key ns n) }
