-- ===== src/Pollers/Edits.antt =====
-- What an update tells the scheduler, and what it leaves behind if the store refuses.
use snmpproxy.Base.{ℕ, ◌≡◌, refl, Bool, true, Option, some, Str, str_eq, nat_beq, nat_beq_iff}
use snmpproxy.Base.Map
use snmpproxy.Base.Results.{Result, ok, err}
use snmpproxy.State.{poller_key}
use snmpproxy.Resolver.{PollingConfig}
use snmpproxy.Pollers.{
  StoredPoller, StoreError, store_refused, PollerManager, Lookups, key_of, set_poller,
}
use snmpproxy.Pollers.Operations.{
  UpdatePollerRequest, update_answered, edited, handle_update_poller, get_poller, update,
  own_interval, get_effective_interval,
}

-- An update through the cached pointer, whose poller now has an interval of its own.
update_in_place :
    (a ms : ℕ) (l l' : Lookups) (stored : Result StoreError Bool) (m : PollerManager)
    → Map.get m.pollers (key_of (m.heap a)) ≡ some a
    → own_interval (m.heap a).polling_config ≡ some ms
    → (update a l l' stored m).1.notices ≡ m.notices
unfolding update get_effective_interval
update_in_place a ms l l' (ok done) m e own =
    let self : nat_beq a a ≡ true = (nat_beq_iff a a).1 refl in
    rw e (rw self (rw own (rw ((nat_beq_iff ms ms).1 refl) refl)))
update_in_place a ms l l' (err x) m e own = rw e refl

-- A request that gives a cached poller an interval of its own, whatever the interval was before,
-- tells the scheduler nothing: the request writes into the cached poller, so that Update compares
-- the new interval with itself.
pub handle_update_poller_silent :
    (ns t n : Str) (a ms : ℕ) (pc : PollingConfig) (req : UpdatePollerRequest) (l l' : Lookups)
    (answer : Result StoreError (Option StoredPoller)) (stored : Result StoreError Bool)
    (m : PollerManager)
    → Map.get m.pollers (poller_key ns t n) ≡ some a
    → key_of (m.heap a) ≡ poller_key ns t n
    → req.polling_config ≡ some pc
    → pc.interval_ms ≡ some ms
    → (handle_update_poller ns t n req l l' answer stored m).1.notices ≡ m.notices
unfolding handle_update_poller get_poller
handle_update_poller_silent ns t n a ms pc req l l' answer stored m e k given own =
    let self : nat_beq a a ≡ true = (nat_beq_iff a a).1 refl in
    let m' = set_poller a (edited req (m.heap a)) m in
    rw e (update_in_place a ms l l' stored m' (rw self (rw k e)) (rw self (rw given own)))

-- If the store refuses an update of a cached poller, the answer is its error and the poller stays in
-- the cache with the changes of the request.
pub handle_update_poller_refused :
    (ns t n : Str) (a : ℕ) (req : UpdatePollerRequest) (l l' : Lookups)
    (answer : Result StoreError (Option StoredPoller)) (e : StoreError) (m : PollerManager)
    → Map.get m.pollers (poller_key ns t n) ≡ some a
    → key_of (m.heap a) ≡ poller_key ns t n
    → let (reply, m') = handle_update_poller ns t n req l l' answer (err e) m in
      (reply ≡ update_answered (some (store_refused e)))
      × (Map.get m'.pollers (poller_key ns t n) ≡ some a)
      × (m'.heap a ≡ edited req (m.heap a))
unfolding handle_update_poller get_poller update
handle_update_poller_refused ns t n a req l l' answer e m f k =
    let self : nat_beq a a ≡ true = (nat_beq_iff a a).1 refl in
    rw f (rw self (rw k (rw f (refl, f, (rw self refl)))))
