-- ===== src/Tests/Schedules.antt =====
-- The scheduler at concrete values.
use snmpproxy.Base.{
  ℕ, zero, suc, ◌+◌, ◌≤◌, ◌≡◌, ◌↔◌, refl, Bool, true, false, not, none, some, List, [], ◌∷◌, Str,
  str_eq, str_beq, str_beq_iff, if◌then◌else◌, nat_beq, length, arith,
}
use snmpproxy.Base.Map
use snmpproxy.Base.Text.{lit}
use snmpproxy.State.{poller_key}
use snmpproxy.Scheduler.{
  PollerKey, Scheduler, key_string, remove, pause, mark_complete, contains, collect, dispatch,
  process_due,
}
use snmpproxy.Scheduler.Heap.{get_elem?, ◌>>=◌}
use snmpproxy.Scheduler.Heap.Indexed.{in_heap}
use snmpproxy.Scheduler.Invariant.{IsSound}
use snmpproxy.Scheduler.Due.{Collected, collect_exact, process_due_safe}
use snmpproxy.Scheduler.Races.{pause_undone, removed_comes_back}

abbrev cpu : PollerKey
cpu = record { namespace = lit "prod"; target = lit "router"; poller = lit "cpu" }

abbrev memory : PollerKey
memory = record { namespace = lit "prod"; target = lit "router"; poller = lit "memory" }

-- One poller, of which the first argument tells whether its item waits in the heap.
abbrev with_cpu : Bool → ℕ → Scheduler
with_cpu waiting queue_size = record {
  heap = record {
    slots = if waiting then 0 ∷ [] else [];
    index = λ p. if waiting then (if nat_beq 0 p then some 0 else none) else none;
  };
  key = λ p. cpu;
  next_poll_ms = λ p. 500;
  interval_ms = λ p. 1000;
  polling = λ p. not waiting;
  heap_idx = (key_string cpu, 0) ∷ [];
  allocated = 1;
  wakeup = false;
  jobs = [];
  queue_size = queue_size;
}

abbrev scheduled : Scheduler
scheduled = with_cpu true 4

abbrev polled : Scheduler
polled = with_cpu false 4

abbrev crowded : Scheduler
crowded = with_cpu false 0

abbrev no_interval : ℕ
no_interval = 0

one_slot :
    (p i : ℕ) → ((if nat_beq 0 p then some 0 else none) ≡ some i) ↔ (get_elem? (0 ∷ []) i ≡ some p)
one_slot p zero = ground arith
one_slot p (suc i) = ground arith

found_cpu :
    (k : Str) (p : ℕ)
    → Map.get ((key_string cpu, 0) ∷ []) k ≡ some p
    → (key_string cpu ≡ k) × (p ≡ 0)
unfolding Map.get
found_cpu k p h = (ground (arith, str_beq_iff (key_string cpu) k), ground arith)

scheduled-IsSound : IsSound scheduled
scheduled-IsSound = record {
  indexed = record { at = one_slot };
  keyed = λ k p h. (found_cpu k p h).0;
  known = λ k p h. omega (arith, (found_cpu k p h).1);
  in_use = λ p h. ground arith;
}

polled-IsSound : (queue_size : ℕ) → IsSound (with_cpu false queue_size)
polled-IsSound queue_size = record {
  indexed = record { at = λ p i. ground arith };
  keyed = λ k p h. (found_cpu k p h).0;
  known = λ k p h. omega (arith, (found_cpu k p h).1);
  in_use = λ p h. ground arith;
}

cpu_listed : Map.get scheduled.heap_idx (key_string cpu) ≡ some 0
unfolding Map.get str_beq key_string poller_key
cpu_listed = refl

memory_unlisted : Map.get scheduled.heap_idx (key_string memory) ≡ none
unfolding Map.get str_beq key_string poller_key
memory_unlisted = refl

collect_exact_example :
    (s' : Scheduler) × (due : List ℕ) × (collect 600 scheduled ≡ some (s', due))
    × Collected 600 scheduled [] s' due
collect_exact_example = collect_exact 600 scheduled scheduled-IsSound

process_due_safe_example :
    (s' : Scheduler) × (process_due 600 scheduled ≡ some s')
    × IsSound s'
    × (s'.heap_idx ≡ scheduled.heap_idx)
    × (length s'.jobs ≤ s'.queue_size)
    × ((q : ℕ)
        → in_heap scheduled.heap q ≡ true
        → in_heap s'.heap q ≡ false
        → scheduled.next_poll_ms q ≤ 600)
process_due_safe_example = process_due_safe 600 scheduled scheduled-IsSound (omega arith)

pause_undone_example :
    (s' : Scheduler) × (pause cpu polled ≡ some polled)
    × ((pause cpu polled >>= mark_complete cpu 100) ≡ some s')
    × (in_heap s'.heap 0 ≡ true)
    × (s'.next_poll_ms 0 ≡ 100 + polled.interval_ms 0)
pause_undone_example = pause_undone cpu 0 100 polled (polled-IsSound 4) cpu_listed refl

removed_comes_back_example :
    (s' : Scheduler) × ((remove cpu crowded >>= dispatch 100 0) ≡ some s')
    × (contains cpu s' ≡ false)
    × (in_heap s'.heap 0 ≡ true)
    × (s'.next_poll_ms 0 ≡ 100 + 10)
removed_comes_back_example =
    removed_comes_back cpu 0 100 crowded (polled-IsSound 0) cpu_listed refl (omega arith)
