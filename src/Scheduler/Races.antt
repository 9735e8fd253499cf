-- ===== src/Scheduler/Races.antt =====
-- What the scheduler's methods do to a poller whose poll is under way, or that another method has
-- taken off the list between the two phases of processDueItems.
use snmpproxy.Base.{
  ℕ, ◌+◌, ◌≤◌, ◌≡◌, ◌↔◌, refl, true, false, ◌||◌, none, some, str_eq, str_beq_iff, ltb, nat_beq,
  length, arith, Option-cases, Bool-cases, inl, inr,
}
use snmpproxy.Base.Map
use snmpproxy.Base.Map.{get-delete}
use snmpproxy.Scheduler.Heap.{◌>>=◌}
use snmpproxy.Scheduler.Heap.Indexed.{in_heap}
use snmpproxy.Scheduler.{
  PollerKey, Scheduler, key_string, with_heap, push_item, unschedule, add, remove, pause,
  mark_complete, set_next, dispatch, contains,
}
use snmpproxy.Scheduler.Invariant.{IsSound, push_item_lem, mark_complete_exact, add_exact, Gives}

-- `Pause` of a listed poller whose item is out of the heap, as it is while its poll is under way,
-- changes nothing, and the `MarkComplete` that follows the poll puts the item back into the heap.
pub pause_undone :
    (k : PollerKey) (p now : ℕ) (s : Scheduler)
    → IsSound s
    → Map.get s.heap_idx (key_string k) ≡ some p
    → s.heap.index p ≡ none
    → (s' : Scheduler) × (pause k s ≡ some s)
      × ((pause k s >>= mark_complete k now) ≡ some s')
      × (in_heap s'.heap p ≡ true)
      × (s'.next_poll_ms p ≡ now + s.interval_ms p)
pause_undone k p now s v e out =
    let paused : pause k s ≡ some s = unfold pause in unfold unschedule in rw (e, out) refl in
    let (s', done, v', items, next, polling) = mark_complete_exact k p now s v e in
    (s', paused, rw paused done, ground (arith, items p), next)

-- `Add` panics exactly if the poller is not listed and the interval is 0, in a state in which the
-- index is right.
pub add_panics :
    (k : PollerKey) (interval jitter now : ℕ) (s : Scheduler)
    → IsSound s
    → (add k interval jitter now s ≡ none)
      ↔ ((Map.get s.heap_idx (key_string k) ≡ none) × (interval ≡ 0))
add_panics k interval jitter now s v = elim (Option-cases (Map.get s.heap_idx (key_string k))) [
  | inr (p, e) ↦ unfold add in rw e (ground arith)
  | inl e ↦ elim (Bool-cases (nat_beq interval 0)) [
    | inl zero_interval ↦ unfold add in rw (e, zero_interval) (ground (arith, zero_interval))
    | inr positive ↦
        let (s', done, _, _, _, _, _) =
          add_exact k interval jitter now s v e (ground (arith, positive)) in
        rw done (ground (arith, positive))
  ]
]

-- A poller that is removed while its item waits to be dispatched comes back if the queue is full:
-- the item is in the heap again, due 10 ms later, though its key is not listed.
pub removed_comes_back :
    (k : PollerKey) (p now : ℕ) (s : Scheduler)
    → IsSound s
    → Map.get s.heap_idx (key_string k) ≡ some p
    → s.heap.index p ≡ none
    → s.queue_size ≤ length s.jobs
    → (s' : Scheduler) × ((remove k s >>= dispatch now p) ≡ some s')
      × (contains k s' ≡ false)
      × (in_heap s'.heap p ≡ true)
      × (s'.next_poll_ms p ≡ now + 10)
removed_comes_back k p now s v e out full =
    let s1 = record s { heap_idx = Map.delete s.heap_idx (key_string k) } in
    let s2 = set_next p (now + 10) s1 in
    let g : Gives (push_item p s2) s2 (λ q. nat_beq p q || in_heap s.heap q) =
      unfold set_next in push_item_lem p s2 v.indexed out in
    let removed : remove k s ≡ some s1 = unfold remove in unfold unschedule in rw (e, out) refl in
    let busy : ltb (length s.jobs) s.queue_size ≡ false = ground arith in
    let dropped = (get-delete s.heap_idx (key_string k) (key_string k)) in
    (
      with_heap s2 g.after,
      rw removed (unfold dispatch in rw busy g.result),
      unfold contains in
          unfold set_next in ground (arith, dropped, str_beq_iff (key_string k) (key_string k)),
      unfold set_next in ground (arith, g.items p),
      unfold set_next in ground arith,
    )
