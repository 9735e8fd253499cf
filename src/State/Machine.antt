-- ===== src/State/Machine.antt =====
-- The transitions of the administrative and the operational state, one call after another.
use snmpproxy.Base.{
  ℕ, ◌≡◌, refl, ap, ◌≢◌, ◌↔◌, ◌⊎◌, inl, inr, Bool, true, false, none, List, [], ◌∷◌, Str, arith,
}
use snmpproxy.State.{
  OperState, PollerState, stopped, starting, running, stopping, error, new_poller_state, enable,
  disable, start, mark_running, stop, mark_stopped, mark_error, can_run, is_enabled,
  record_poll_result, clear_dirty, oper_running,
}

-- The calls that write to a poller's state.
pub data Call : Type 0 where
  enable_call disable_call start_call mark_running_call stop_call mark_stopped_call : Call
  mark_error_call : Str → Call
  poll_call : ℕ → Bool → Str → Call
  clear_dirty_call : Call

unfoldable pub step : Call → PollerState → PollerState
unfolding enable disable start mark_running stop mark_stopped mark_error record_poll_result
    clear_dirty
step enable_call s = (enable s).0
step disable_call s = (disable s).0
step start_call s = (start s).0
step mark_running_call s = mark_running s
step stop_call s = (stop s).0
step mark_stopped_call s = mark_stopped s
step (mark_error_call msg) s = mark_error msg s
step (poll_call now success msg) s = record_poll_result now success msg s
step clear_dirty_call s = clear_dirty s

unfoldable pub run : List Call → PollerState → PollerState
run [] s = s
run (c ∷ cs) s = run cs (step c s)

-- `CanRun` holds exactly when `Start` moves the poller to starting from another state.
pub can_run-start :
    (s : PollerState)
    → (can_run s ≡ true) ↔ ((s.oper_state ≢ starting) × ((start s).0.oper_state ≡ starting))
unfolding can_run start
can_run-start s = ground arith

-- `Start` returns no error exactly for an enabled poller whose operational state is one of the
-- constants other than stopping.
pub start-none :
    (s : PollerState)
    → ((start s).1 ≡ none) ↔ (
        (is_enabled s ≡ true)
        × ((s.oper_state ≡ stopped)
            ⊎ (s.oper_state ≡ error)
            ⊎ (s.oper_state ≡ starting)
            ⊎ (s.oper_state ≡ running)))
unfolding is_enabled start
start-none s = ground arith

-- The first list of calls is the second with some calls left out.
pub data Subsequence : List Call → List Call → Type 0 where
  nil : Subsequence [] []
  skip : {c : Call} {cs ds : List Call} → Subsequence cs ds → Subsequence cs (c ∷ ds)
  keep : {c : Call} {cs ds : List Call} → Subsequence cs ds → Subsequence (c ∷ cs) (c ∷ ds)

Subsequence-nil : (cs : List Call) → Subsequence [] cs
Subsequence-nil [] = nil
Subsequence-nil (c ∷ cs) = skip (Subsequence-nil cs)

Subsequence-head :
    (c d : Call) (cs ds : List Call) → c ≡ d → Subsequence cs ds → Subsequence (c ∷ cs) (d ∷ ds)
Subsequence-head c d cs ds e h = rw e (keep h)

abbrev in_progress : OperState → Bool
in_progress starting = true
in_progress running = true
in_progress _ = false

step_running :
    (c : Call) (s : PollerState)
    → oper_running s.oper_state ≡ false
    → (mark_running_call ≡ c) ⊎ (oper_running (step c s).oper_state ≡ false)
unfolding step
step_running c s h = ground arith

step-in_progress :
    (c : Call) (s : PollerState)
    → in_progress s.oper_state ≡ false
    → (start_call ≡ c) ⊎ (in_progress (step c s).oper_state ≡ false)
unfolding step
step-in_progress c s h = ground arith

step_enabled :
    (c : Call) (s : PollerState)
    → is_enabled s ≡ false
    → in_progress s.oper_state ≡ false
    → (enable_call ≡ c)
      ⊎ ((is_enabled (step c s) ≡ false) × (in_progress (step c s).oper_state ≡ false))
unfolding step is_enabled
step_enabled c s h k = ground arith

from_not_running :
    (s : PollerState) (cs : List Call)
    → oper_running s.oper_state ≡ false
    → oper_running (run cs s).oper_state ≡ true
    → Subsequence (mark_running_call ∷ []) cs
unfolding run
from_not_running s [] h r = absurd (ground arith)
from_not_running s (c ∷ cs) h r = elim (step_running c s h) [
  | inl e ↦ Subsequence-head _ _ _ _ e (Subsequence-nil cs)
  | inr k ↦ skip (from_not_running (step c s) cs k r)
]

not_running : (o : OperState) → in_progress o ≡ false → oper_running o ≡ false
not_running o h = ground arith

start_not_running :
    (c : Call) (s : PollerState)
    → start_call ≡ c
    → in_progress s.oper_state ≡ false
    → oper_running (step c s).oper_state ≡ false
unfolding step
start_not_running c s e h = ground arith

from_idle :
    (s : PollerState) (cs : List Call)
    → in_progress s.oper_state ≡ false
    → oper_running (run cs s).oper_state ≡ true
    → Subsequence (start_call ∷ mark_running_call ∷ []) cs
unfolding run
from_idle s [] h r = absurd (ground (arith, not_running s.oper_state h))
from_idle s (c ∷ cs) h r = elim (step-in_progress c s h) [
  | inl e ↦
      Subsequence-head _ _ _ _ e (from_not_running (step c s) cs (start_not_running c s e h) r)
  | inr k ↦ skip (from_idle (step c s) cs k r)
]

enable_idle :
    (c : Call) (s : PollerState)
    → enable_call ≡ c
    → in_progress s.oper_state ≡ false
    → in_progress (step c s).oper_state ≡ false
unfolding step
enable_idle c s e h = ground arith

from_disabled :
    (s : PollerState) (cs : List Call)
    → is_enabled s ≡ false
    → in_progress s.oper_state ≡ false
    → oper_running (run cs s).oper_state ≡ true
    → Subsequence (enable_call ∷ start_call ∷ mark_running_call ∷ []) cs
unfolding run
from_disabled s [] d h r = absurd (ground (arith, not_running s.oper_state h))
from_disabled s (c ∷ cs) d h r = elim (step_enabled c s d h) [
  | inl e ↦ Subsequence-head _ _ _ _ e (from_idle (step c s) cs (enable_idle c s e h) r)
  | inr k ↦ skip (from_disabled (step c s) cs k.0 k.1 r)
]

-- A new poller that is running after some calls has seen an Enable, later a Start and later a
-- MarkRunning among them.
pub running_needs_calls :
    (ns t p : Str) (cs : List Call)
    → (run cs (new_poller_state ns t p)).oper_state ≡ running
    → Subsequence (enable_call ∷ start_call ∷ mark_running_call ∷ []) cs
unfolding new_poller_state is_enabled
running_needs_calls ns t p cs r =
    from_disabled (new_poller_state ns t p) cs refl refl (ap oper_running r)

-- A call other than ClearDirty that leaves the dirty flag clear has changed nothing.
pub clean_step_unchanged :
    (c : Call) (s : PollerState) → c ≢ clear_dirty_call → (step c s).dirty ≡ false → step c s ≡ s
unfolding step
clean_step_unchanged clear_dirty_call s n h = absurd (n refl)
clean_step_unchanged c s n h = ground arith

-- The edges on which the operational state moves.
pub data OperEdge : OperState → OperState → Type 0 where
  stay : {o : OperState} → OperEdge o o
  begin : OperEdge stopped starting
  retry : OperEdge error starting
  confirm : OperEdge starting running
  halt : OperEdge running stopping
  abort : OperEdge starting stopping
  reset : OperEdge error stopped
  finish : {o : OperState} → OperEdge o stopped
  fail : {o : OperState} → OperEdge o error

-- Whatever the call, the operational state stays or moves along one edge of `OperEdge`.
pub step-OperEdge : (c : Call) (s : PollerState) → OperEdge s.oper_state (step c s).oper_state
unfolding step
step-OperEdge c s = grind (arith, stay, begin, retry, confirm, halt, abort, reset, finish, fail)
