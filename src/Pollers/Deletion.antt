-- ===== src/Pollers/Deletion.antt =====
-- What Delete does to the poller manager, whatever the store answers.
use snmpproxy.Base.{
  ℕ, ◌≡◌, refl, Bool, true, false, not, ◌&&◌, none, ◌∷◌, Str, str_eq, str_beq, if◌then◌else◌,
  Bool-cases, inl, inr,
}
use snmpproxy.Base.Map
use snmpproxy.Base.Map.{get-delete}
use snmpproxy.Base.Index.{indexed, indexed-drop_from}
use snmpproxy.Base.Results.{Result, ok, err}
use snmpproxy.State.{poller_key}
use snmpproxy.State.Manager
use snmpproxy.Pollers.{StoreError, deleted, PollerManager, target_key, is_bound_key}
use snmpproxy.Pollers.Operations.{delete_poller, poller_exists}

abbrev pub is_ok {ℓ κ} : {E : Type ℓ} {A : Type κ} → Result E A → Bool
is_ok (ok a) = true
is_ok (err e) = false

-- Delete of a poller succeeds exactly if the poller is cached and the store deletes it. If so, its
-- key leaves the cache, the states and the statistics, and the two indexes under its namespace and
-- its target; otherwise these stay as they are. The scheduler is told that a cached poller is
-- deleted even if the store then refuses.
pub delete_poller_exact :
    (ns t n : Str) (stored : Result StoreError ℕ) (m : PollerManager)
    → let k = poller_key ns t n in
      let gone = poller_exists ns t n m && is_ok stored in
      let (reply, m') = delete_poller ns t n stored m in
      (is_ok reply ≡ gone)
      × (m'.notices ≡ (if poller_exists ns t n m then deleted ns t n ∷ m.notices else m.notices))
      × ((key : Str)
          → Map.get m'.pollers key
            ≡ (if gone && str_beq k key then none else Map.get m.pollers key))
      × ((key : Str)
          → Map.get m'.states key ≡ (if gone && str_beq k key then none else Map.get m.states key))
      × ((key : Str)
          → Map.get m'.stats key ≡ (if gone && str_beq k key then none else Map.get m.stats key))
      × ((key x : Str)
          → indexed m'.by_namespace key x
            ≡ (not (gone && str_beq ns x && str_beq k key) && indexed m.by_namespace key x))
      × ((key x : Str)
          → indexed m'.by_target key x ≡ (
              not (gone && str_beq (target_key ns t) x && str_beq k key)
              && indexed m.by_target key x))
unfolding delete_poller poller_exists Manager.remove
delete_poller_exact ns t n (err x) m =
    elim (Bool-cases (is_bound_key (Map.get m.pollers (poller_key ns t n)))) [
      | inl e ↦
          rw e (refl, refl, λ key. refl, λ key. refl, λ key. refl, λ key x. refl, λ key x. refl)
      | inr e ↦
          rw e (refl, refl, λ key. refl, λ key. refl, λ key. refl, λ key x. refl, λ key x. refl)
    ]
delete_poller_exact ns t n (ok links) m =
    let k = poller_key ns t n in
    elim (Bool-cases (is_bound_key (Map.get m.pollers k))) [
      | inl e ↦ rw e (
        refl,
        refl,
        λ key. get-delete m.pollers k key,
        λ key. get-delete m.states k key,
        λ key. get-delete m.stats k key,
        λ key x. indexed-drop_from k ns m.by_namespace key x,
        λ key x. indexed-drop_from k (target_key ns t) m.by_target key x,
      )
      | inr e ↦
          rw e (refl, refl, λ key. refl, λ key. refl, λ key. refl, λ key x. refl, λ key x. refl)
    ]
