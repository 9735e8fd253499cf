-- ===== src/Scheduler/Invariant.antt =====
-- The methods of the scheduler, each under its lock: their results, and the index of the items.
use snmpproxy.Base.{
  ℕ, ◌+◌, ◌<◌, ◌≡◌, refl, Bool, true, false, not, ◌&&◌, ◌||◌, Option, none, some, Str, str_eq,
  str_beq, str_beq_iff, if◌then◌else◌, nat_beq, arith, Bool-cases, Option-cases, inl, inr,
}
use snmpproxy.Base.Map
use snmpproxy.Base.Map.{Map, get-put, get-delete}
use snmpproxy.Scheduler.Heap
use snmpproxy.Scheduler.Heap.{get_elem?, ◌>>=◌}
use snmpproxy.Scheduler.Heap.Indexed.{IsIndexed, in_heap}
use snmpproxy.Scheduler.Heap.Moves.{push_lem, remove_lem}
use snmpproxy.Scheduler.{
  PollerKey, Scheduler, key_string, with_heap, with_field, push_item, unschedule, new_item, add,
  remove, update_interval, pause, set_next, resume, mark_complete, signal, listed,
}

-- The slice and the `index` fields agree, the map lists items under their own keys, and pointers in
-- use are allocated.
pub record IsSound (s : Scheduler) : Type 0 where
  pub indexed : IsIndexed s.heap
  pub keyed : (k : Str) (p : ℕ) → Map.get s.heap_idx k ≡ some p → key_string (s.key p) ≡ k
  pub known : (k : Str) (p : ℕ) → Map.get s.heap_idx k ≡ some p → p < s.allocated
  pub in_use : (p : ℕ) → in_heap s.heap p ≡ true → p < s.allocated

-- What an operation on the heap gives: a new heap, right again, with `kept` telling its items.
pub record Gives (r : Option Scheduler) (s : Scheduler) (kept : ℕ → Bool) : Type 0 where
  pub after : Heap.Heap
  pub result : r ≡ some (with_heap s after)
  pub indexed : IsIndexed after
  pub items : (q : ℕ) → in_heap after q ≡ kept q

pub push_item_lem :
    (p : ℕ) (s : Scheduler)
    → IsIndexed s.heap
    → s.heap.index p ≡ none
    → Gives (push_item p s) s (λ q. nat_beq p q || in_heap s.heap q)
push_item_lem p s v new =
    let (h, e, v', size, items) = push_lem s.next_poll_ms p s.heap v new in
    record { after = h; result = unfold push_item in rw e; indexed = v'; items = items }

pub unschedule_lem :
    (p : ℕ) (s : Scheduler)
    → IsIndexed s.heap
    → Gives (unschedule p s) s (λ q. not (nat_beq p q) && in_heap s.heap q)
unschedule_lem p s v = elim (Option-cases (s.heap.index p)) [
  | inl out ↦ record {
    after = s.heap;
    result = unfold unschedule in rw out;
    indexed = v;
    items = λ q. ground (arith, out);
  }
  | inr (i, held) ↦
      let (h, e, t) = remove_lem s.next_poll_ms s.heap p i v held in
      record {
        after = h;
        result = unfold unschedule in rw (held, e);
        indexed = t.indexed;
        items = t.items;
      }
]

pub with_heap-IsSound :
    {s : Scheduler} (h : Heap.Heap)
    → IsSound s
    → IsIndexed h
    → ((q : ℕ) → in_heap h q ≡ true → q < s.allocated)
    → IsSound (with_heap s h)
with_heap-IsSound h v i u = record { indexed = i; keyed = v.keyed; known = v.known; in_use = u }

-- `UpdateInterval` keeps the index right.
update_interval-IsSound :
    (k : PollerKey) (interval : ℕ) {s : Scheduler}
    → IsSound s
    → IsSound (update_interval k interval s)
update_interval-IsSound k interval {s} v = elim (Option-cases (Map.get s.heap_idx (key_string k))) [
  | inl e ↦ unfold update_interval in rw e v
  | inr (p, e) ↦
      unfold update_interval in
      rw e (record { indexed = v.indexed; keyed = v.keyed; known = v.known; in_use = v.in_use })
]

pub set_next-IsSound : (p time : ℕ) {s : Scheduler} → IsSound s → IsSound (set_next p time s)
unfolding set_next
set_next-IsSound p time v = record {
  indexed = v.indexed;
  keyed = v.keyed;
  known = v.known;
  in_use = v.in_use;
}

signal-IsSound : {s : Scheduler} → IsSound s → IsSound (signal s)
signal-IsSound v = record {
  indexed = v.indexed;
  keyed = v.keyed;
  known = v.known;
  in_use = v.in_use;
}

pub pushed-IsSound :
    (p : ℕ) {r : Option Scheduler}
    → (s : Scheduler) → p < s.allocated
    → IsSound s
    → (g : Gives r s (λ q. nat_beq p q || in_heap s.heap q)) → IsSound (with_heap s g.after)
pushed-IsSound p s lt v g =
    with_heap-IsSound g.after v g.indexed (λ q h. ground (arith, g.items q, v.in_use q))

-- `Pause` of a listed poller succeeds, keeps the index right, takes its item and no other out of the
-- heap, and keeps it listed.
pub pause_exact :
    (k : PollerKey) (p : ℕ) (s : Scheduler)
    → IsSound s
    → Map.get s.heap_idx (key_string k) ≡ some p
    → (s' : Scheduler) × (pause k s ≡ some s')
      × IsSound s'
      × (s'.heap_idx ≡ s.heap_idx)
      × ((q : ℕ) → in_heap s'.heap q ≡ (not (nat_beq p q) && in_heap s.heap q))
pause_exact k p s v e =
    let g = unschedule_lem p s v.indexed in
    (
      with_heap s g.after,
      unfold pause in rw e g.result,
      with_heap-IsSound g.after v g.indexed (λ q h. v.in_use q (ground (arith, g.items q))),
      refl,
      g.items,
    )

-- `Remove` of a listed poller succeeds, keeps the index right, takes its item and no other out of
-- the heap, and its key and no other off the list.
pub remove_exact :
    (k : PollerKey) (p : ℕ) (s : Scheduler)
    → IsSound s
    → Map.get s.heap_idx (key_string k) ≡ some p
    → (s' : Scheduler) × (remove k s ≡ some s')
      × IsSound s'
      × ((j : Str)
          → Map.get s'.heap_idx j
            ≡ (if str_beq (key_string k) j then none else Map.get s.heap_idx j))
      × ((q : ℕ) → in_heap s'.heap q ≡ (not (nat_beq p q) && in_heap s.heap q))
remove_exact k p s v e =
    let g = unschedule_lem p s v.indexed in
    let idx = λ (j : Str). get-delete s.heap_idx (key_string k) j in
    (
      record (with_heap s g.after) { heap_idx = Map.delete s.heap_idx (key_string k) },
      unfold remove in rw (e, g.result),
      record {
        indexed = g.indexed;
        keyed = λ j q h. v.keyed j q (ground (arith, idx j));
        known = λ j q h. v.known j q (ground (arith, idx j));
        in_use = λ q h. v.in_use q (ground (arith, g.items q));
      },
      idx,
      g.items,
    )

unallocated : (s : Scheduler) → IsSound s → s.heap.index s.allocated ≡ none
unallocated s v = elim (Option-cases (s.heap.index s.allocated)) [
  | inl out ↦ out
  | inr (i, held) ↦ absurd (omega (arith, v.in_use s.allocated (ground (arith, held))))
]

added_keyed :
    (k : PollerKey) (s : Scheduler)
    → IsSound s
    → (j : Str) (q : ℕ)
    → (if str_beq (key_string k) j then some s.allocated else Map.get s.heap_idx j) ≡ some q
    → key_string (with_field s.key s.allocated k q) ≡ j
added_keyed k s v j q h = elim (Bool-cases (str_beq (key_string k) j)) [
  | inl same ↦
      let new : nat_beq s.allocated q ≡ true = ground (arith, same) in
      rw new ((str_beq_iff (key_string k) j).0 same)
  | inr other ↦
      let old : Map.get s.heap_idx j ≡ some q = ground (arith, other) in
      let apart : nat_beq s.allocated q ≡ false = ground (arith, v.known j q old) in
      rw apart (v.keyed j q old)
]

-- `Add` of a poller that is not listed, with an interval above 0, succeeds, keeps the index right,
-- and lists the key with a new item, due the jitter from now, that stands in the heap.
pub add_exact :
    (k : PollerKey) (interval jitter now : ℕ) (s : Scheduler)
    → IsSound s
    → Map.get s.heap_idx (key_string k) ≡ none
    → 0 < interval
    → (s' : Scheduler) × (add k interval jitter now s ≡ some s')
      × IsSound s'
      × ((j : Str)
          → Map.get s'.heap_idx j
            ≡ (if str_beq (key_string k) j then some s.allocated else Map.get s.heap_idx j))
      × ((q : ℕ) → in_heap s'.heap q ≡ (nat_beq s.allocated q || in_heap s.heap q))
      × (s'.next_poll_ms s.allocated ≡ now + jitter)
      × (s'.wakeup ≡ true)
unfolding new_item
add_exact k interval jitter now s v e pos =
    let a = s.allocated in
    let s1 = new_item k interval jitter now s in
    let g = push_item_lem a s1 v.indexed (unallocated s v) in
    let idx = λ (j : Str). get-put s.heap_idx (key_string k) a j in
    let positive : nat_beq interval 0 ≡ false = ground arith in
    (
      signal (listed (key_string k) a (with_heap s1 g.after)),
      unfold add in rw (e, positive, g.result),
      record {
        indexed = g.indexed;
        keyed = λ j q h. added_keyed k s v j q (ground (arith, idx j));
        known = λ j q h. ground (arith, idx j, v.known j q);
        in_use = λ q h. ground (arith, g.items q, v.in_use q);
      },
      idx,
      g.items,
      ground arith,
      refl,
    )

resume_out :
    (k : PollerKey) (p now : ℕ) (s : Scheduler)
    → IsSound s
    → Map.get s.heap_idx (key_string k) ≡ some p
    → s.heap.index p ≡ none
    → (s' : Scheduler) × (resume k now s ≡ some s')
      × IsSound s'
      × ((q : ℕ) → in_heap s'.heap q ≡ (nat_beq p q || in_heap s.heap q))
      × (s'.next_poll_ms p ≡ (if in_heap s.heap p then s.next_poll_ms p else now))
unfolding set_next
resume_out k p now s v e out =
    let s1 = set_next p now s in
    let g = push_item_lem p s1 v.indexed out in
    (
      signal (with_heap s1 g.after),
      unfold resume in rw (e, out, g.result),
      signal-IsSound
          (pushed-IsSound p s1 (v.known (key_string k) p e) (set_next-IsSound p now v) g),
      g.items,
      ground (arith, out),
    )

complete_out :
    (k : PollerKey) (p now : ℕ) (s : Scheduler)
    → IsSound s
    → Map.get s.heap_idx (key_string k) ≡ some p
    → s.heap.index p ≡ none
    → (s' : Scheduler) × (mark_complete k now s ≡ some s')
      × IsSound s'
      × ((q : ℕ) → in_heap s'.heap q ≡ (nat_beq p q || in_heap s.heap q))
      × (s'.next_poll_ms p ≡ now + s.interval_ms p)
      × (s'.polling p ≡ false)
unfolding set_next
complete_out k p now s v e out =
    let s1 = set_next p (now + s.interval_ms p) s in
    let g = push_item_lem p s1 v.indexed out in
    (
      signal (with_heap s1 g.after),
      unfold mark_complete in rw (e, out, g.result),
      signal-IsSound (
          pushed-IsSound p s1 (v.known (key_string k) p e)
            (set_next-IsSound p (now + s.interval_ms p) v) g),
      g.items,
      ground arith,
      ground arith,
    )

-- `Resume` of a listed poller that is not in the heap succeeds, keeps the index right, puts its item
-- and no other into the heap, due now and not polling; one that is in the heap is left as it is.
pub resume_exact :
    (k : PollerKey) (p now : ℕ) (s : Scheduler)
    → IsSound s
    → Map.get s.heap_idx (key_string k) ≡ some p
    → (s' : Scheduler) × (resume k now s ≡ some s')
      × IsSound s'
      × ((q : ℕ) → in_heap s'.heap q ≡ (nat_beq p q || in_heap s.heap q))
      × (s'.next_poll_ms p ≡ (if in_heap s.heap p then s.next_poll_ms p else now))
resume_exact k p now s v e = elim (Option-cases (s.heap.index p)) [
  | inr (i, held) ↦
      (s, unfold resume in rw (e, held), v, λ q. ground (arith, held), ground (arith, held))
  | inl out ↦ resume_out k p now s v e out
]

-- `MarkComplete` of a listed poller succeeds, keeps the index right, puts its item into the heap if
-- it is in none of its slots, and makes it due an interval from now and not polling.
pub mark_complete_exact :
    (k : PollerKey) (p now : ℕ) (s : Scheduler)
    → IsSound s
    → Map.get s.heap_idx (key_string k) ≡ some p
    → (s' : Scheduler) × (mark_complete k now s ≡ some s')
      × IsSound s'
      × ((q : ℕ) → in_heap s'.heap q ≡ (nat_beq p q || in_heap s.heap q))
      × (s'.next_poll_ms p ≡ now + s.interval_ms p)
      × (s'.polling p ≡ false)
mark_complete_exact k p now s v e = elim (Option-cases (s.heap.index p)) [
  | inr (i, held) ↦ (
    signal (set_next p (now + s.interval_ms p) s),
    unfold mark_complete in rw (e, held),
    signal-IsSound (set_next-IsSound p (now + s.interval_ms p) v),
    unfold set_next in λ q. ground (arith, held),
    unfold set_next in ground arith,
    unfold set_next in ground arith,
  )
  | inl out ↦ complete_out k p now s v e out
]
