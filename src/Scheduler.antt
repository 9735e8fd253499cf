-- ===== src/Scheduler.antt =====
-- The polling scheduler: internal/scheduler/scheduler.go. An item is a pointer, a number, and each
-- field of the items is a map from pointers; `heap` holds the slice and the `index` fields. Times
-- are in milliseconds and stay far below 2 ^ 63. Each function below runs under the lock; the time,
-- and the random jitter below the interval, are arguments. `none` is a panic.
pub mod Heap
pub mod Invariant
pub mod Races
pub mod Due
use snmpproxy.Base.{
  ℕ, zero, suc, ◌+◌, ◌-◌, Bool, true, false, Option, none, some, List, [], ◌∷◌, ◌++◌, Str, str_eq,
  str_beq, if◌then◌else◌, ltb, nat_beq, length,
}
use snmpproxy.Base.Map
use snmpproxy.Base.Map.{Map}
use snmpproxy.State.{poller_key}
use Heap.{get_elem?, ◌>>=◌}

pub record PollerKey : Type 0 where
  pub namespace : Str
  pub target : Str
  pub poller : Str

-- `PollerKey.String`
unfoldable pub key_string : PollerKey → Str
unfolding poller_key
key_string k = poller_key k.namespace k.target k.poller

pub record Scheduler : Type 0 where
  pub heap : Heap.Heap
  pub key : ℕ → PollerKey
  pub next_poll_ms : ℕ → ℕ
  pub interval_ms : ℕ → ℕ
  pub polling : ℕ → Bool
  pub heap_idx : Map Str ℕ
  pub allocated : ℕ  -- the pointers below this one are in use
  pub wakeup : Bool  -- the channel of capacity 1 holds a signal
  pub jobs : List PollerKey
  pub queue_size : ℕ

-- `New`, with the maps that no item has filled yet.
unfoldable pub new_scheduler : ℕ → Scheduler
new_scheduler queue_size = record {
  heap = record { slots = []; index = λ p. none };
  key = λ p. record { namespace = []; target = []; poller = [] };
  next_poll_ms = λ p. 0;
  interval_ms = λ p. 0;
  polling = λ p. false;
  heap_idx = [];
  allocated = 0;
  wakeup = false;
  jobs = [];
  queue_size = queue_size;
}

abbrev pub with_field {ℓ} : {A : Type ℓ} → (ℕ → A) → ℕ → A → ℕ → A
with_field field p v q = if nat_beq p q then v else field q

abbrev pub with_heap : Scheduler → Heap.Heap → Scheduler
with_heap s h = record s { heap = h }

-- `heap.Push(&s.heap, item)` in the present state.
unfoldable pub push_item : ℕ → Scheduler → Option Scheduler
push_item p s = Heap.push s.next_poll_ms p s.heap >>= λ h. some (with_heap s h)

abbrev unschedule_at : Option ℕ → Scheduler → Option Scheduler
unschedule_at none s = some s
unschedule_at (some i) s = Heap.remove s.next_poll_ms s.heap i >>= λ h. some (with_heap s h)

-- `if item.index >= 0 { heap.Remove(&s.heap, item.index) }`. Taking it off the end sets the index.
unfoldable pub unschedule : ℕ → Scheduler → Option Scheduler
unschedule p s = unschedule_at (s.heap.index p) s

abbrev pub signal : Scheduler → Scheduler
signal s = record s { wakeup = true }

-- The new item of `Add`; the jitter is below the interval. Its index is set by the push that follows.
unfoldable pub new_item : PollerKey → ℕ → ℕ → ℕ → Scheduler → Scheduler
new_item k interval jitter now s = record s {
  key = with_field s.key s.allocated k;
  next_poll_ms = with_field s.next_poll_ms s.allocated (now + jitter);
  interval_ms = with_field s.interval_ms s.allocated interval;
  polling = with_field s.polling s.allocated false;
  allocated = suc s.allocated;
}

abbrev pub listed : Str → ℕ → Scheduler → Scheduler
listed k p s = record s { heap_idx = Map.put s.heap_idx k p }

abbrev add_missing : Option ℕ → PollerKey → ℕ → ℕ → ℕ → Scheduler → Option Scheduler
add_missing (some p) k interval jitter now s = some s
add_missing none k interval jitter now s =
    if nat_beq interval 0
    then none
    else (push_item s.allocated (new_item k interval jitter now s) >>= λ s'.
        some (signal (listed (key_string k) s.allocated s')))

-- `Add`. `rand.Int63n` panics on 0.
unfoldable pub add : PollerKey → ℕ → ℕ → ℕ → Scheduler → Option Scheduler
add k interval jitter now s =
    add_missing (Map.get s.heap_idx (key_string k)) k interval jitter now s

abbrev remove_found : Option ℕ → Str → Scheduler → Option Scheduler
remove_found none k s = some s
remove_found (some p) k s =
    unschedule p s >>= λ s'. some (record s' { heap_idx = Map.delete s'.heap_idx k })

-- `Remove`
unfoldable pub remove : PollerKey → Scheduler → Option Scheduler
remove k s = remove_found (Map.get s.heap_idx (key_string k)) (key_string k) s

abbrev update_found : Option ℕ → ℕ → Scheduler → Scheduler
update_found none interval s = s
update_found (some p) interval s = record s { interval_ms = with_field s.interval_ms p interval }

-- `UpdateInterval`
unfoldable pub update_interval : PollerKey → ℕ → Scheduler → Scheduler
update_interval k interval s = update_found (Map.get s.heap_idx (key_string k)) interval s

abbrev pause_found : Option ℕ → Scheduler → Option Scheduler
pause_found none s = some s
pause_found (some p) s = unschedule p s

-- `Pause`
unfoldable pub pause : PollerKey → Scheduler → Option Scheduler
pause k s = pause_found (Map.get s.heap_idx (key_string k)) s

-- The writes of `Resume` and `MarkComplete`: a new time, and not polling.
unfoldable pub set_next : ℕ → ℕ → Scheduler → Scheduler
set_next p time s = record s {
  next_poll_ms = with_field s.next_poll_ms p time;
  polling = with_field s.polling p false;
}

abbrev resume_item : Option ℕ → ℕ → ℕ → Scheduler → Option Scheduler
resume_item (some i) p now s = some s
resume_item none p now s = push_item p (set_next p now s) >>= λ s'. some (signal s')

abbrev resume_found : Option ℕ → ℕ → Scheduler → Option Scheduler
resume_found none now s = some s
resume_found (some p) now s = resume_item (s.heap.index p) p now s

-- `Resume`
unfoldable pub resume : PollerKey → ℕ → Scheduler → Option Scheduler
resume k now s = resume_found (Map.get s.heap_idx (key_string k)) now s

abbrev push_absent : Option ℕ → ℕ → Scheduler → Option Scheduler
push_absent (some i) p s = some s
push_absent none p s = push_item p s

abbrev complete_found : Option ℕ → ℕ → Scheduler → Option Scheduler
complete_found none now s = some s
complete_found (some p) now s =
    push_absent (s.heap.index p) p (set_next p (now + s.interval_ms p) s) >>= λ s'. some (signal s')

-- `MarkComplete`
unfoldable pub mark_complete : PollerKey → ℕ → Scheduler → Option Scheduler
mark_complete k now s = complete_found (Map.get s.heap_idx (key_string k)) now s

abbrev is_listed : Option ℕ → Bool
is_listed none = false
is_listed (some p) = true

-- `Contains`
unfoldable pub contains : PollerKey → Scheduler → Bool
contains k s = is_listed (Map.get s.heap_idx (key_string k))

-- `heap.Pop(&s.heap)`
unfoldable pub pop_item : Scheduler → Option (ℕ × Scheduler)
pop_item s = Heap.pop s.next_poll_ms s.heap >>= λ r. some (r.0, with_heap s r.1)

-- An item that is due goes on the list, marked, unless it is being polled.
unfoldable pub take_due : ℕ → List ℕ → Scheduler → Scheduler × List ℕ
take_due p due s =
    if s.polling p
    then (s, due)
    else (record s { polling = with_field s.polling p true }, due ++ p ∷ [])

abbrev collect_head :
    Option ℕ → ℕ → List ℕ → Scheduler → Option (Scheduler × List ℕ) → Option (Scheduler × List ℕ)
collect_head none now due s rest = some (s, due)
collect_head (some first) now due s rest =
    if ltb now (s.next_poll_ms first) then some (s, due) else rest

-- Phase 1 of `processDueItems`: pops until the first item is not due.
unfoldable pub collect_loop : ℕ → ℕ → List ℕ → Scheduler → Option (Scheduler × List ℕ)
collect_loop zero now due s = none
collect_loop (suc fuel) now due s =
    let rest =
      pop_item s >>= λ r. let (s', due') = take_due r.0 due r.1 in collect_loop fuel now due' s' in
    collect_head (get_elem? s.heap.slots 0) now due s rest

-- There are as many rounds as items at most.
unfoldable pub collect : ℕ → Scheduler → Option (Scheduler × List ℕ)
collect now s = collect_loop (suc (length s.heap.slots)) now [] s

-- Phase 2 for one item: a job if the queue has room, or else back on the heap 10 ms later.
unfoldable pub dispatch : ℕ → ℕ → Scheduler → Option Scheduler
dispatch now p s =
    if ltb (length s.jobs) s.queue_size
    then some (record s { jobs = s.jobs ++ s.key p ∷ [] })
    else push_item p (set_next p (now + 10) s)

unfoldable pub dispatch_all : ℕ → List ℕ → Scheduler → Option Scheduler
dispatch_all now [] s = some s
dispatch_all now (p ∷ due) s = dispatch now p s >>= dispatch_all now due

-- `processDueItems` when nothing else runs between its phases.
unfoldable pub process_due : ℕ → Scheduler → Option Scheduler
process_due now s = collect now s >>= λ r. dispatch_all now r.1 r.0
