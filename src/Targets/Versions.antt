-- ===== src/Targets/Versions.antt =====
-- The version of a target in an update.
use snmpproxy.Base.{ℕ, ◌≡◌, refl, Bool, true, false, some, Str, str_eq, nat_beq, nat_beq_iff, arith}
use snmpproxy.Base.Map
use snmpproxy.Base.Results.{Result, ok, err}
use snmpproxy.Pollers.{StoreError}
use snmpproxy.Targets.{StoredTarget, TargetManager, key_of_target, set_target}
use snmpproxy.Targets.Changes.{finish_store, cache_if_stored, update_target}

-- Two stores into one target after another.
update_answered :
    (a : ℕ) (t u : StoredTarget) (key : Str) (answer : Result StoreError Bool) (m : TargetManager)
    → let (reply, m1) = cache_if_stored key a (finish_store a answer (set_target a t m)) in
      let (reply', m2) =
        cache_if_stored key a (finish_store a answer (set_target a t (set_target a u m))) in
      (reply' ≡ reply) × (m2.targets ≡ m1.targets) × ((c : ℕ) → m2.heap c ≡ m1.heap c)
update_answered a t u key (err x) m = (refl, refl, λ c. ground arith)
update_answered a t u key (ok done) m =
    let self : nat_beq a a ≡ true = (nat_beq_iff a a).1 refl in
    (refl, refl, λ c. rw self (ground arith))

-- An update of a cached target through another pointer gives the same answer and the same cache,
-- whatever version the new target carries: a client that read an older version overwrites what was
-- changed since, without an error.
pub update_target_version :
    (a b v : ℕ) (stored : StoredTarget → Result StoreError Bool) (m : TargetManager)
    → Map.get m.targets (key_of_target (m.heap a)) ≡ some b
    → nat_beq a b ≡ false
    → let (reply, m1) = update_target a stored m in
      let (reply', m2) =
        update_target a stored (set_target a (record (m.heap a) { version = v }) m) in
      (reply' ≡ reply) × (m2.targets ≡ m1.targets) × ((c : ℕ) → m2.heap c ≡ m1.heap c)
unfolding update_target
update_target_version a b v stored m e apart =
    let self : nat_beq a a ≡ true = (nat_beq_iff a a).1 refl in
    let t : StoredTarget = record (m.heap a) { version = (m.heap b).version } in
    let u : StoredTarget = record (m.heap a) { version = v } in
    rw self
      (rw e (rw apart (rw self (update_answered a t u (key_of_target (m.heap a)) (stored t) m))))
