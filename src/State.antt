-- ===== src/State.antt =====
-- The state machine of one poller: PollerState of internal/manager/state.go. A method that takes
-- the lock and writes returns the new state; `error` results are options; `time.Now()` is an
-- argument. The state constants are strings in the source, and a state that is none of the
-- constants is `other`.
pub mod Machine
pub mod Health
pub mod Manager
pub mod Flush
use snmpproxy.Base.{
  ℕ, Bool, true, false, ◌&&◌, ◌||◌, Option, none, some, List, [], ◌∷◌, ◌++◌, Str, if◌then◌else◌,
}
use snmpproxy.Base.Int64.{add64, sle}
use snmpproxy.Base.Text.{lit}

pub data AdminState : Type 0 where
  enabled disabled : AdminState
  other : Str → AdminState

pub data OperState : Type 0 where
  stopped starting running stopping error : OperState
  other : Str → OperState

pub data HealthState : Type 0 where
  unknown up degraded down : HealthState
  other : Str → HealthState

abbrev pub health_degraded_threshold : ℕ
health_degraded_threshold = 3

abbrev pub health_down_threshold : ℕ
health_down_threshold = 5

abbrev pub health_recovery_count : ℕ
health_recovery_count = 2

pub record PollerState : Type 0 where
  pub namespace : Str
  pub target : Str
  pub poller : Str
  pub admin_state : AdminState
  pub oper_state : OperState
  pub health_state : HealthState
  pub last_error : Str
  pub consecutive_failures : ℕ
  pub recent_successes : ℕ
  pub last_poll_at : Option ℕ
  pub last_success_at : Option ℕ
  pub last_failure_at : Option ℕ
  pub dirty : Bool

-- What `Start` and `Stop` return when they refuse.
pub data StateError : Type 0 where
  not_enabled : AdminState → StateError
  currently_stopping : StateError
  invalid_oper : OperState → StateError

unfoldable pub new_poller_state : Str → Str → Str → PollerState
new_poller_state ns t p = record {
  namespace = ns;
  target = t;
  poller = p;
  admin_state = disabled;
  oper_state = stopped;
  health_state = unknown;
  last_error = [];
  consecutive_failures = 0;
  recent_successes = 0;
  last_poll_at = none;
  last_success_at = none;
  last_failure_at = none;
  dirty = false;
}

-- The method `Key`, and the key that the managers compute.
unfoldable pub poller_key : Str → Str → Str → Str
poller_key ns t p = ns ++ (lit "/" ++ (t ++ (lit "/" ++ p)))

unfoldable pub key : PollerState → Str
unfolding poller_key
key s = poller_key s.namespace s.target s.poller

unfoldable pub enable : PollerState → PollerState × Option StateError
enable s = (record s { admin_state = enabled; dirty = true }, none)

unfoldable pub disable : PollerState → PollerState × Option StateError
disable s = (record s { admin_state = disabled; dirty = true }, none)

abbrev pub admin_enabled : AdminState → Bool
admin_enabled enabled = true
admin_enabled _ = false

unfoldable pub is_enabled : PollerState → Bool
is_enabled s = admin_enabled s.admin_state

-- The `switch` of `Start`.
start_switch : OperState → PollerState → PollerState × Option StateError
start_switch stopped s = (record s { oper_state = starting; dirty = true }, none)
start_switch error s = (record s { oper_state = starting; dirty = true }, none)
start_switch starting s = (s, none)
start_switch running s = (s, none)
start_switch stopping s = (s, some currently_stopping)
start_switch (OperState.other x) s = (s, some (invalid_oper (OperState.other x)))

unfoldable pub start : PollerState → PollerState × Option StateError
unfolding start_switch
start s =
    if admin_enabled s.admin_state
    then start_switch s.oper_state s
    else (s, some (not_enabled s.admin_state))

mark_running_switch : OperState → PollerState → PollerState
mark_running_switch starting s = record s { oper_state = running; dirty = true }
mark_running_switch _ s = s

unfoldable pub mark_running : PollerState → PollerState
unfolding mark_running_switch
mark_running s = mark_running_switch s.oper_state s

-- The `switch` of `Stop`.
stop_switch : OperState → PollerState → PollerState × Option StateError
stop_switch running s = (record s { oper_state = stopping; dirty = true }, none)
stop_switch starting s = (record s { oper_state = stopping; dirty = true }, none)
stop_switch stopped s = (s, none)
stop_switch stopping s = (s, none)
stop_switch error s = (record s { oper_state = stopped; dirty = true }, none)
stop_switch (OperState.other x) s = (s, some (invalid_oper (OperState.other x)))

unfoldable pub stop : PollerState → PollerState × Option StateError
unfolding stop_switch
stop s = stop_switch s.oper_state s

unfoldable pub mark_stopped : PollerState → PollerState
mark_stopped s = record s { oper_state = stopped; dirty = true }

unfoldable pub mark_error : Str → PollerState → PollerState
mark_error msg s = record s { oper_state = error; last_error = msg; dirty = true }

abbrev pub oper_running : OperState → Bool
oper_running running = true
oper_running _ = false

unfoldable pub is_running : PollerState → Bool
is_running s = oper_running s.oper_state

abbrev oper_startable : OperState → Bool
oper_startable stopped = true
oper_startable error = true
oper_startable _ = false

unfoldable pub can_run : PollerState → Bool
can_run s = admin_enabled s.admin_state && oper_startable s.oper_state

-- The health `switch` after a success; `n` is RecentSuccesses, already counted up.
health_on_success : HealthState → ℕ → HealthState
health_on_success down n = if sle health_recovery_count n then up else down
health_on_success degraded n = up
health_on_success _ n = up

-- The health test after a failure; `n` is ConsecutiveFailures, already counted up.
health_on_failure : HealthState → ℕ → HealthState
health_on_failure h n =
    if sle health_down_threshold n
    then down
    else if sle health_degraded_threshold n
    then degraded
    else h

unfoldable pub record_poll_result : ℕ → Bool → Str → PollerState → PollerState
unfolding health_on_success health_on_failure
record_poll_result now true msg s = record s {
  last_poll_at = some now;
  consecutive_failures = 0;
  recent_successes = add64 s.recent_successes 1;
  last_success_at = some now;
  last_error = [];
  health_state = health_on_success s.health_state (add64 s.recent_successes 1);
  dirty = true;
}
record_poll_result now false msg s = record s {
  last_poll_at = some now;
  consecutive_failures = add64 s.consecutive_failures 1;
  recent_successes = 0;
  last_failure_at = some now;
  last_error = msg;
  health_state = health_on_failure s.health_state (add64 s.consecutive_failures 1);
  dirty = true;
}

unfoldable pub get_state : PollerState → AdminState × OperState × HealthState
get_state s = (s.admin_state, s.oper_state, s.health_state)

unfoldable pub is_dirty : PollerState → Bool
is_dirty s = s.dirty

unfoldable pub clear_dirty : PollerState → PollerState
clear_dirty s = record s { dirty = false }
