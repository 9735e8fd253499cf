-- ===== src/Targets/Reached.antt =====
-- The operations of the target manager keep each target under its own key.
use mathlib.Core.Path.{subst}
use snmpproxy.Base.{
  ℕ, suc, ◌≡◌, refl, sym, Bool, true, Option, none, some, List, [], Str, str_eq, str_beq,
  str_beq_iff, nat_beq, nat_beq_iff, ltb, Bool-cases, inl, inr, arith,
}
use snmpproxy.Base.Map
use snmpproxy.Base.Map.{Map}
use snmpproxy.Base.Results.{Result, ok, err}
use snmpproxy.Resolver.{PollerDefaults}
use snmpproxy.Pollers.{StoreError, target_key}
use snmpproxy.Targets.{
  StoredTarget, TargetManager, key_of_target, set_target, load_targets, create_target, get_target,
  cached_target, loaded_target, target_exists, invalidate_cached_target,
}
use snmpproxy.Targets.Changes.{
  finish_store, cache_if_stored, update_existing, update_target, delete_target, change_found,
  set_defaults, set_labels,
}
use snmpproxy.Targets.Filing.{
  Filed, set_target-Filed, cache_if_stored-Filed, drop-Filed, allocate, allocate-Filed,
  cache_target-Filed, load_targets-Filed, create_target-Filed,
}

-- The store answers a lookup with the target that was asked for.
abbrev pub answers : Str → Str → Result StoreError (Option StoredTarget) → Bool
answers ns n (ok (some t)) = str_beq (key_of_target t) (target_key ns n)
answers ns n (ok none) = true
answers ns n (err e) = true

loaded_target-Filed :
    (ns n : Str) (answer : Result StoreError (Option StoredTarget)) (m : TargetManager)
    → answers ns n answer ≡ true
    → Filed m
    → Filed (loaded_target (target_key ns n) answer m).1
loaded_target-Filed ns n (err e) m own f = f
loaded_target-Filed ns n (ok none) m own f = f
loaded_target-Filed ns n (ok (some t)) m own f =
    rw (sym ((str_beq_iff (key_of_target t) (target_key ns n)).0 own)) (cache_target-Filed t m f)

cached_target-Filed :
    (cached : Option ℕ) (ns n : Str) (answer : Result StoreError (Option StoredTarget))
    (m : TargetManager)
    → answers ns n answer ≡ true
    → Filed m
    → Filed (cached_target cached (target_key ns n) answer m).1
cached_target-Filed (some a) ns n answer m own f = f
cached_target-Filed none ns n answer m own f = loaded_target-Filed ns n answer m own f

get_target-Filed :
    (ns n : Str) (answer : Result StoreError (Option StoredTarget)) (m : TargetManager)
    → answers ns n answer ≡ true
    → Filed m
    → Filed (get_target ns n answer m).1
unfolding get_target
get_target-Filed ns n answer m own f =
    cached_target-Filed (Map.get m.targets (target_key ns n)) ns n answer m own f

finish_store-Filed :
    (a : ℕ) (answer : Result StoreError Bool) (m : TargetManager)
    → Filed m
    → Filed (finish_store a answer m).1
finish_store-Filed a (err e) m f = f
finish_store-Filed a (ok done) m f =
    set_target-Filed a (record (m.heap a) { version = suc (m.heap a).version }) m refl f

update_answered-Filed :
    (a : ℕ) (answer : Result StoreError Bool) (m : TargetManager)
    → ltb a m.next ≡ true
    → Filed m
    → Filed (cache_if_stored (key_of_target (m.heap a)) a (finish_store a answer m)).1
update_answered-Filed a (err e) m low f = f
update_answered-Filed a (ok done) m low f =
    let self : nat_beq a a ≡ true = (nat_beq_iff a a).1 refl in
    let t : StoredTarget = record (m.heap a) { version = suc (m.heap a).version } in
    cache_if_stored-Filed a (key_of_target t) (set_target a t m) (rw self refl) low
      (set_target-Filed a t m refl f)

update_existing-Filed :
    (found : Option ℕ) (a : ℕ) (stored : StoredTarget → Result StoreError Bool) (m : TargetManager)
    → ltb a m.next ≡ true
    → Filed m
    → Filed (update_existing found a stored m).1
update_existing-Filed none a stored m low f = f
update_existing-Filed (some b) a stored m low f =
    let self : nat_beq a a ≡ true = (nat_beq_iff a a).1 refl in
    let m' = set_target a (record (m.heap a) { version = (m.heap b).version }) m in
    let same : key_of_target (m'.heap a) ≡ key_of_target (m.heap a) = rw self refl in
    let f' : Filed m' =
      set_target-Filed a (record (m.heap a) { version = (m.heap b).version }) m refl f in
    subst (λ key. Filed (cache_if_stored key a (finish_store a (stored (m'.heap a)) m')).1) same
      (update_answered-Filed a (stored (m'.heap a)) m' low f')

change_found-Filed :
    (change : StoredTarget → StoredTarget) (found : Option ℕ) (key : Str)
    (stored : StoredTarget → Result StoreError Bool) (m : TargetManager)
    → ((t : StoredTarget) → key_of_target (change t) ≡ key_of_target t)
    → Filed m
    → Filed (change_found change found key stored m).1
change_found-Filed change none key stored m same f = f
change_found-Filed change (some a) key stored m same f =
    let m' = set_target a (change (m.heap a)) m in
    finish_store-Filed a (stored (m'.heap a)) m'
      (set_target-Filed a (change (m.heap a)) m (same (m.heap a)) f)

delete_target-Filed :
    (ns n : Str) (answer : Result StoreError (ℕ × ℕ)) (m : TargetManager)
    → Filed m
    → Filed (delete_target ns n answer m).1
unfolding delete_target
delete_target-Filed ns n (ok counts) m f = elim (Bool-cases (target_exists ns n m)) [
  | inl e ↦ rw e (drop-Filed (target_key ns n) m f)
  | inr e ↦ rw e f
]
delete_target-Filed ns n (err x) m f = elim (Bool-cases (target_exists ns n m)) [
  | inl e ↦ rw e f
  | inr e ↦ rw e f
]

-- The managers that the operations reach from an empty cache, with every answer of the store. A
-- caller passes targets that it allocated, and the store answers with the target asked for.
pub data Reached : TargetManager → Type 0 where
  starts :
      (heap : ℕ → StoredTarget) (next : ℕ)
      → Reached (record { heap = heap; next = next; targets = [] })
  allocates : (t : StoredTarget) (m : TargetManager) → Reached m → Reached (allocate t m)
  loads :
      (nss : Result StoreError (List Str)) (list : Str → Result StoreError (List StoredTarget))
      (m : TargetManager)
      → Reached m
      → Reached (load_targets nss list m).1
  creates :
      (a : ℕ) (stored : StoredTarget → Result StoreError Bool) (m : TargetManager)
      → ltb a m.next ≡ true
      → Reached m
      → Reached (create_target a stored m).1
  gets :
      (ns n : Str) (answer : Result StoreError (Option StoredTarget)) (m : TargetManager)
      → answers ns n answer ≡ true
      → Reached m
      → Reached (get_target ns n answer m).1
  updates :
      (a : ℕ) (stored : StoredTarget → Result StoreError Bool) (m : TargetManager)
      → ltb a m.next ≡ true
      → Reached m
      → Reached (update_target a stored m).1
  deletes :
      (ns n : Str) (answer : Result StoreError (ℕ × ℕ)) (m : TargetManager)
      → Reached m
      → Reached (delete_target ns n answer m).1
  invalidates :
      (ns n : Str) (m : TargetManager) → Reached m → Reached (invalidate_cached_target ns n m)
  sets_defaults :
      (ns n : Str) (d : Option PollerDefaults) (stored : StoredTarget → Result StoreError Bool)
      (m : TargetManager)
      → Reached m
      → Reached (set_defaults ns n d stored m).1
  sets_labels :
      (ns n : Str) (labels : Map Str Str) (stored : StoredTarget → Result StoreError Bool)
      (m : TargetManager)
      → Reached m
      → Reached (set_labels ns n labels stored m).1

Reached-Filed : (m : TargetManager) → Reached m → Filed m
unfolding update_target set_defaults set_labels Map.get
Reached-Filed m (starts heap next) = record {
  keyed = λ key a h. ground arith;
  below = λ key a h. ground arith;
}
Reached-Filed m (allocates t m' r) = allocate-Filed t m' (Reached-Filed m' r)
Reached-Filed m (loads nss list m' r) = load_targets-Filed nss list m' (Reached-Filed m' r)
Reached-Filed m (creates a stored m' low r) =
    create_target-Filed a stored m' low (Reached-Filed m' r)
Reached-Filed m (gets ns n answer m' own r) =
    get_target-Filed ns n answer m' own (Reached-Filed m' r)
Reached-Filed m (updates a stored m' low r) =
    update_existing-Filed (Map.get m'.targets (key_of_target (m'.heap a))) a stored m' low
      (Reached-Filed m' r)
Reached-Filed m (deletes ns n answer m' r) = delete_target-Filed ns n answer m' (Reached-Filed m' r)
Reached-Filed m (invalidates ns n m' r) = drop-Filed (target_key ns n) m' (Reached-Filed m' r)
Reached-Filed m (sets_defaults ns n d stored m' r) =
    change_found-Filed (λ t. record t { config = some d }) (Map.get m'.targets (target_key ns n))
      (target_key ns n) stored m' (λ t. refl) (Reached-Filed m' r)
Reached-Filed m (sets_labels ns n labels stored m' r) =
    change_found-Filed (λ t. record t { labels = labels }) (Map.get m'.targets (target_key ns n))
      (target_key ns n) stored m' (λ t. refl) (Reached-Filed m' r)

-- Whatever the operations did to a manager that began with an empty cache, the key under which a
-- target is cached is that of its own namespace and name.
pub cached_under_own_key :
    (m : TargetManager) (key : Str) (a : ℕ)
    → Reached m
    → Map.get m.targets key ≡ some a
    → key_of_target (m.heap a) ≡ key
cached_under_own_key m key a r h = (Reached-Filed m r).keyed key a h
