-- ===== src/Tests/Pollers.antt =====
-- A poller's life and its statistics at concrete values.
use snmpproxy.Base.{
  ℕ, suc, ◌+◌, ◌*◌, ◌/◌, ◌≡◌, refl, true, false, List, [], ◌∷◌, Str, length, arith,
}
use snmpproxy.Base.Text.{lit}
use snmpproxy.State.{PollerState, error, new_poller_state, enable, start, mark_running, is_enabled}
use snmpproxy.State.Machine.{
  Call, enable_call, start_call, mark_running_call, step, run, Subsequence, OperEdge,
  running_needs_calls, step-OperEdge,
}
use snmpproxy.State.Health.{record_polls, health_of_failures, record_polls-failures}
use snmpproxy.State.Flush.{
  Synced, Event, call_event, flush_event, IsSynced, to_stored, finish_flush, handle_all,
  handle_all-IsSynced, flush_loses_error,
}
use snmpproxy.State.{is_dirty}
use snmpproxy.State.Manager.{StateManager}
use snmpproxy.State.{mark_error}
use snmpproxy.Base.{str_eq}
use snmpproxy.Stats.{Poll, StatsManager, new_poller_stats, record_poll, get_stats}
use snmpproxy.Stats.History
use snmpproxy.Stats.History.{
  count_where, sum_ms, least_ms, greatest_ms, succeeded, failed_poll, timed_out, get_stats_exact,
}

abbrev fresh : PollerState
fresh = new_poller_state (lit "prod") (lit "router") (lit "cpu")

abbrev ready : PollerState
ready = (enable fresh).0

abbrev starting_calls : List Call
starting_calls = enable_call ∷ start_call ∷ mark_running_call ∷ []

abbrev quick : Poll
quick = record { success = true; timeout = false; poll_ms = 30 }

abbrev late : Poll
late = record { success = false; timeout = true; poll_ms = 5000 }

abbrev stats : StatsManager
stats =
    (
      lit "prod/router/cpu",
      record_poll quick (new_poller_stats (lit "prod") (lit "router") (lit "cpu")),
    )
    ∷ []

abbrev states : StateManager
states = (lit "prod/router/cpu", fresh) ∷ (lit "prod/router/memory", ready) ∷ []

abbrev saved : Synced
saved = record { stored = to_stored fresh; state = fresh }

abbrev events : List Event
events = call_event enable_call ∷ flush_event false ∷ call_event start_call ∷ flush_event true ∷ []

abbrev clock : ℕ → ℕ
clock i = 1000 * i

abbrev message : ℕ → Str
message i = lit "timeout"

running_needs_calls_example :
    Subsequence (enable_call ∷ start_call ∷ mark_running_call ∷ []) starting_calls
unfolding run step new_poller_state enable start mark_running is_enabled
running_needs_calls_example =
    running_needs_calls (lit "prod") (lit "router") (lit "cpu") starting_calls refl

step-OperEdge_example : OperEdge ready.oper_state (step start_call ready).oper_state
step-OperEdge_example = step-OperEdge start_call ready

record_polls-failures_example :
    let t = record_polls clock message false (suc 4) fresh in
    (t.consecutive_failures ≡ fresh.consecutive_failures + suc 4)
    × (t.health_state ≡ health_of_failures (fresh.consecutive_failures + suc 4) fresh.health_state)
    × (t.recent_successes ≡ 0)
unfolding new_poller_state
record_polls-failures_example = record_polls-failures clock message 4 fresh (omega arith)

handle_all-IsSynced_example : IsSynced (handle_all events saved)
handle_all-IsSynced_example = handle_all-IsSynced events refl (record { clean = λ c. refl })

flush_loses_error_example :
    let after =
      finish_flush true
        (to_stored saved.state)
        (record saved { state = mark_error (lit "no route") saved.state }) in
    (after.state.oper_state ≡ error)
    × (is_dirty after.state ≡ false)
    × (after.stored.oper_state ≡ saved.state.oper_state)
flush_loses_error_example = flush_loses_error (lit "no route") saved

get_stats_exact_example :
    get_stats (
      History.record_polls
        (late ∷ (quick ∷ []))
        (new_poller_stats (lit "prod") (lit "router") (lit "cpu")))
    ≡ record {
      total = length (late ∷ (quick ∷ []));
      success = count_where succeeded (late ∷ (quick ∷ []));
      failed = count_where failed_poll (late ∷ (quick ∷ []));
      timeout = count_where timed_out (late ∷ (quick ∷ []));
      avg_ms = sum_ms (late ∷ (quick ∷ [])) / length (late ∷ (quick ∷ []));
      min_ms = least_ms late (quick ∷ []);
      max_ms = greatest_ms late (quick ∷ []);
    }
get_stats_exact_example =
    get_stats_exact late (quick ∷ []) (lit "prod") (lit "router") (lit "cpu") (omega arith)
      (omega arith, (omega arith, tt))
