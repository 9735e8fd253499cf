-- ===== src/Targets/Filing.antt =====
-- The keys of the cache of targets, over every sequence of operations.
use snmpproxy.Base.{
  ℕ, suc, ◌≡◌, refl, sym, ◌∙◌, Bool, true, false, Option, some, List, [], ◌∷◌, Str, str_eq, str_beq,
  str_beq_iff, nat_beq, nat_beq_iff, ltb, Bool-cases, inl, inr, ap, arith,
}
use snmpproxy.Base.Map
use snmpproxy.Base.Map.{Map, get-put, get-delete}
use snmpproxy.Base.Results.{Result, ok, err}
use snmpproxy.Pollers.{StoreError, is_bound_key, is_valid_name}
use snmpproxy.Targets.{
  StoredTarget, TargetManager, key_of_target, set_target, cache_target, cache_targets, cache_listed,
  load_namespaces, load_targets, finish_create_target, create_target,
}

-- Every cached target lies in the heap, and its own namespace and name give its key.
pub record Filed (m : TargetManager) : Type 0 where
  pub keyed : (key : Str) (a : ℕ) → Map.get m.targets key ≡ some a → key_of_target (m.heap a) ≡ key
  pub below : (key : Str) (a : ℕ) → Map.get m.targets key ≡ some a → ltb a m.next ≡ true

pub set_target-Filed :
    (a : ℕ) (t : StoredTarget) (m : TargetManager)
    → key_of_target t ≡ key_of_target (m.heap a)
    → Filed m
    → Filed (set_target a t m)
set_target-Filed a t m same f = record {
  keyed = λ key b h. elim (Bool-cases (nat_beq a b)) [
    | inl e ↦
        let ab : a ≡ b = (nat_beq_iff a b).0 e in
        rw e (same ∙ ap (λ c. key_of_target (m.heap c)) ab ∙ f.keyed key b h)
    | inr e ↦ rw e (f.keyed key b h)
  ];
  below = f.below;
}

-- An address of the heap is cached under its key.
pub cache_if_stored-Filed :
    (a : ℕ) (key : Str) (m : TargetManager)
    → key_of_target (m.heap a) ≡ key
    → ltb a m.next ≡ true
    → Filed m
    → Filed (record m { targets = Map.put m.targets key a })
cache_if_stored-Filed a key m own low f =
    let found = λ (j : Str). get-put m.targets key a j in
    record {
      keyed = λ j b h. elim (Bool-cases (str_beq key j)) [
        | inl e ↦
            let ab : a ≡ b = ground (arith, found j) in rw (sym ab) (own ∙ (str_beq_iff key j).0 e)
        | inr e ↦ f.keyed j b (ground (arith, found j))
      ];
      below = λ j b h. elim (Bool-cases (str_beq key j)) [
        | inl e ↦ let ab : a ≡ b = ground (arith, found j) in rw (sym ab) low
        | inr e ↦ f.below j b (ground (arith, found j))
      ];
    }

pub drop-Filed :
    (key : Str) (m : TargetManager)
    → Filed m
    → Filed (record m { targets = Map.delete m.targets key })
drop-Filed key m f =
    let found = λ (j : Str). get-delete m.targets key j in
    record {
      keyed = λ j b h. f.keyed j b (ground (arith, found j));
      below = λ j b h. f.below j b (ground (arith, found j));
    }

-- A new target in the heap.
abbrev pub allocate : StoredTarget → TargetManager → TargetManager
allocate t m = record (set_target m.next t m) { next = suc m.next }

pub allocate-Filed : (t : StoredTarget) (m : TargetManager) → Filed m → Filed (allocate t m)
allocate-Filed t m f = record {
  keyed = λ key b h.
      let apart : nat_beq m.next b ≡ false = ground (arith, f.below key b h) in
      rw apart (f.keyed key b h);
  below = λ key b h. ground (arith, f.below key b h);
}

pub cache_target-Filed :
    (t : StoredTarget) (m : TargetManager) → Filed m → Filed (cache_target (key_of_target t) t m)
cache_target-Filed t m f =
    let self : nat_beq m.next m.next ≡ true = (nat_beq_iff m.next m.next).1 refl in
    cache_if_stored-Filed m.next (key_of_target t) (allocate t m) (rw self refl) (ground arith)
      (allocate-Filed t m f)

pub cache_targets-Filed :
    (ts : List StoredTarget) (m : TargetManager) → Filed m → Filed (cache_targets ts m)
cache_targets-Filed [] m f = f
cache_targets-Filed (t ∷ ts) m f =
    cache_targets-Filed ts (cache_target (key_of_target t) t m) (cache_target-Filed t m f)

cache_listed-Filed :
    (listed : Result StoreError (List StoredTarget))
    (continue : TargetManager → Option StoreError × TargetManager) (m : TargetManager)
    → ((m' : TargetManager) → Filed m' → Filed (continue m').1)
    → Filed m
    → Filed (cache_listed listed continue m).1
cache_listed-Filed (err e) continue m next f = f
cache_listed-Filed (ok ts) continue m next f =
    next (cache_targets ts m) (cache_targets-Filed ts m f)

load_namespaces-Filed :
    (nss : List Str) (list : Str → Result StoreError (List StoredTarget)) (m : TargetManager)
    → Filed m
    → Filed (load_namespaces nss list m).1
load_namespaces-Filed [] list m f = f
load_namespaces-Filed (ns ∷ nss) list m f =
    cache_listed-Filed (list ns) (load_namespaces nss list) m (load_namespaces-Filed nss list) f

pub load_targets-Filed :
    (nss : Result StoreError (List Str)) (list : Str → Result StoreError (List StoredTarget))
    (m : TargetManager)
    → Filed m
    → Filed (load_targets nss list m).1
unfolding load_targets Map.get
load_targets-Filed (err e) list m f = f
load_targets-Filed (ok nss) list m f =
    load_namespaces-Filed nss list (record m { targets = [] })
      (record { keyed = λ key a h. ground arith; below = λ key a h. ground arith })

pub finish_create-Filed :
    (a : ℕ) (answer : Result StoreError Bool) (m : TargetManager)
    → ltb a m.next ≡ true
    → Filed m
    → Filed (finish_create_target a answer m).1
finish_create-Filed a (err e) m low f = f
finish_create-Filed a (ok done) m low f =
    let self : nat_beq a a ≡ true = (nat_beq_iff a a).1 refl in
    let t : StoredTarget = record (m.heap a) { version = 1 } in
    cache_if_stored-Filed a (key_of_target t) (set_target a t m) (rw self refl) low
      (set_target-Filed a t m refl f)

pub create_target-Filed :
    (a : ℕ) (stored : StoredTarget → Result StoreError Bool) (m : TargetManager)
    → ltb a m.next ≡ true
    → Filed m
    → Filed (create_target a stored m).1
unfolding create_target
create_target-Filed a stored m low f =
    elim (Bool-cases (is_bound_key (Map.get m.targets (key_of_target (m.heap a))))) [
      | inl e ↦ rw e f
      | inr e ↦ rw e (elim (Bool-cases (is_valid_name (m.heap a).name)) [
        | inl v ↦ rw v (finish_create-Filed a (stored (m.heap a)) m low f)
        | inr v ↦ rw v f
      ])
    ]
