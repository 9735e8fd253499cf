-- ===== src/State/Flush.antt =====
-- flushStates of internal/manager/sync.go, for one poller: the record that it builds, the write to
-- the store, which may fail, and ClearDirty after it.
use snmpproxy.Base.{
  ℕ, ◌≡◌, refl, ap, Bool, true, false, not, ◌&&◌, Option, List, [], ◌∷◌, Str, if◌then◌else◌, arith,
  Bool-cases, inl, inr,
}
use snmpproxy.State.{PollerState, OperState, HealthState, error, is_dirty, clear_dirty, mark_error}
use snmpproxy.State.Machine.{Call, clear_dirty_call, step, clean_step_unchanged}

-- PollerState of internal/store/poller.go, without the names.
pub record StoredState : Type 0 where
  pub oper_state : OperState
  pub health_state : HealthState
  pub last_error : Str
  pub consecutive_failures : ℕ
  pub last_poll_at : Option ℕ
  pub last_success_at : Option ℕ
  pub last_failure_at : Option ℕ

-- The store's record of the poller, and the poller's state.
pub record Synced : Type 0 where
  pub stored : StoredState
  pub state : PollerState

-- The conversion to the store's format.
unfoldable pub to_stored : PollerState → StoredState
to_stored s = record {
  oper_state = s.oper_state;
  health_state = s.health_state;
  last_error = s.last_error;
  consecutive_failures = s.consecutive_failures;
  last_poll_at = s.last_poll_at;
  last_success_at = s.last_success_at;
  last_failure_at = s.last_failure_at;
}

-- The batch update, which writes or fails, and the clearing that follows a success.
unfoldable pub finish_flush : Bool → StoredState → Synced → Synced
finish_flush true record' y = record { stored = record'; state = clear_dirty y.state }
finish_flush false record' y = y

-- `flushStates` when nothing writes to the state in the meantime.
unfoldable pub flush : Bool → Synced → Synced
unfolding finish_flush to_stored
flush written y = if is_dirty y.state then finish_flush written (to_stored y.state) y else y

-- A call on the state, or a flush with the outcome of its write.
pub data Event : Type 0 where
  call_event : Call → Event
  flush_event : Bool → Event

unfoldable pub handle : Event → Synced → Synced
unfolding flush
handle (call_event c) y = record y { state = step c y.state }
handle (flush_event written) y = flush written y

unfoldable pub handle_all : List Event → Synced → Synced
handle_all [] y = y
handle_all (e ∷ es) y = handle_all es (handle e y)

-- What is not marked as changed stands in the store.
pub record IsSynced (y : Synced) : Type 0 where
  pub clean : is_dirty y.state ≡ false → y.stored ≡ to_stored y.state

abbrev pub clears : Call → Bool
clears clear_dirty_call = true
clears _ = false

-- ClearDirty is called by the flush only.
abbrev pub no_clear : List Event → Bool
no_clear [] = true
no_clear (call_event c ∷ es) = not (clears c) && no_clear es
no_clear (flush_event written ∷ es) = no_clear es

finish_flush-IsSynced :
    (written : Bool) {y : Synced}
    → IsSynced y
    → IsSynced (finish_flush written (to_stored y.state) y)
unfolding finish_flush to_stored clear_dirty
finish_flush-IsSynced true h = record { clean = λ c. refl }
finish_flush-IsSynced false h = h

flush-IsSynced : (written : Bool) {y : Synced} → IsSynced y → IsSynced (flush written y)
unfolding flush
flush-IsSynced written {y} h = elim (Bool-cases (is_dirty y.state)) [
  | inl changed ↦ rw changed (finish_flush-IsSynced written h)
  | inr same ↦ rw same h
]

call-IsSynced :
    (c : Call) {y : Synced}
    → clears c ≡ false
    → IsSynced y
    → IsSynced (record y { state = step c y.state })
call-IsSynced c {y} other h = record {
  clean = λ clean.
      let same : step c y.state ≡ y.state =
        clean_step_unchanged c y.state (λ e. ground (arith, other, ap clears e))
          (unfold is_dirty in clean) in
      rw same (h.clean (rw (← same) clean));
}

-- If the store holds what is not marked as changed, it does so after any calls on the poller and
-- any flushes, failed ones too, as long as no call comes between a flush's reading and its clearing.
pub handle_all-IsSynced :
    (es : List Event) {y : Synced} → no_clear es ≡ true → IsSynced y → IsSynced (handle_all es y)
unfolding handle_all handle
handle_all-IsSynced [] only h = h
handle_all-IsSynced (call_event c ∷ es) only h =
    handle_all-IsSynced es (ground arith) (call-IsSynced c (ground arith) h)
handle_all-IsSynced (flush_event written ∷ es) only h =
    handle_all-IsSynced es only (flush-IsSynced written h)

-- An error that is reported between the reading and the clearing of a flush is lost: the state is
-- in error, it is not marked as changed, and the store holds the operational state from before.
pub flush_loses_error :
    (msg : Str) (y : Synced)
    → let after =
        finish_flush true (to_stored y.state) (record y { state = mark_error msg y.state }) in
      (after.state.oper_state ≡ error)
      × (is_dirty after.state ≡ false)
      × (after.stored.oper_state ≡ y.state.oper_state)
unfolding finish_flush to_stored clear_dirty mark_error is_dirty
flush_loses_error msg y = (refl, refl, refl)
