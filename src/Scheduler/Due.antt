-- ===== src/Scheduler/Due.antt =====
-- `processDueItems` of internal/scheduler/scheduler.go, run on its own: its loop and its two phases.
use snmpproxy.Base.{
  ℕ, zero, suc, ◌+◌, ◌≤◌, ◌<◌, ◌≡◌, refl, ap, ◌∙◌, Bool, true, false, not, ◌&&◌, ◌||◌, none, some,
  List, [], ◌∷◌, ◌++◌, nat_beq, ltb, length, any, any-append, length-append, arith, Bool-cases,
  Option-cases, inl, inr,
}
use snmpproxy.Scheduler.Heap
use snmpproxy.Scheduler.Heap.{get_elem?, ◌>>=◌}
use snmpproxy.Scheduler.Heap.Indexed.{in_heap}
use snmpproxy.Scheduler.Heap.Moves.{pop_lem, Taken}
use snmpproxy.Scheduler.{
  Scheduler, with_heap, push_item, set_next, pop_item, take_due, collect_loop, collect, dispatch,
  dispatch_all, process_due,
}
use snmpproxy.Scheduler.Invariant.{
  IsSound, Gives, push_item_lem, set_next-IsSound, pushed-IsSound, with_heap-IsSound,
}

abbrev pub distinct : List ℕ → Bool
distinct [] = true
distinct (p ∷ ps) = not (any (nat_beq p) ps) && distinct ps

distinct-append :
    (ps : List ℕ) (q : ℕ) → distinct (ps ++ q ∷ []) ≡ (distinct ps && not (any (nat_beq q) ps))
distinct-append [] q = refl
distinct-append (p ∷ ps) q =
    ground (arith, distinct-append ps q, any-append (nat_beq p) ps (q ∷ []))

-- The items that are on the list, each once, are out of the heap.
pub record IsWaiting (due : List ℕ) (s : Scheduler) : Type 0 where
  pub apart : distinct due ≡ true
  pub out : (q : ℕ) → any (nat_beq q) due ≡ true → in_heap s.heap q ≡ false
  pub known : (q : ℕ) → any (nat_beq q) due ≡ true → q < s.allocated

-- What the collecting loop does from `s` and `due` to `s'` and `due'`.
pub record Collected (now : ℕ) (s : Scheduler) (due : List ℕ) (s' : Scheduler) (due' : List ℕ)
    : Type 0 where
  pub sound : IsSound s'
  pub waiting : IsWaiting due' s'
  pub same_index : s'.heap_idx ≡ s.heap_idx
  pub same_next : s'.next_poll_ms ≡ s.next_poll_ms
  pub same_jobs : s'.jobs ≡ s.jobs
  pub same_size : s'.queue_size ≡ s.queue_size
  pub fewer : (q : ℕ) → in_heap s'.heap q ≡ true → in_heap s.heap q ≡ true
  pub kept : (q : ℕ) → in_heap s'.heap q ≡ true → s'.polling q ≡ s.polling q
  pub left : (q : ℕ) → in_heap s.heap q ≡ true → in_heap s'.heap q ≡ false → s.next_poll_ms q ≤ now
  pub taken :
      (q : ℕ)
      → any (nat_beq q) due' ≡ (
          any (nat_beq q) due
          || (in_heap s.heap q && (not (in_heap s'.heap q) && not (s.polling q))))

Collected-none :
    (now : ℕ) (s : Scheduler) (due : List ℕ)
    → IsSound s
    → IsWaiting due s
    → Collected now s due s due
Collected-none now s due v w = record {
  sound = v;
  waiting = w;
  same_index = refl;
  same_next = refl;
  same_jobs = refl;
  same_size = refl;
  fewer = λ q h. h;
  kept = λ q h. refl;
  left = λ q h h'. ground (arith, h, h');
  taken = λ q. ground arith;
}

take_due-Collected :
    (now p : ℕ) (s : Scheduler) (due : List ℕ) (h : Heap.Heap)
    → IsSound s
    → IsWaiting due s
    → Taken p s.heap h
    → in_heap s.heap p ≡ true
    → s.next_poll_ms p ≤ now
    → Collected now s due (take_due p due (with_heap s h)).0 (take_due p due (with_heap s h)).1
unfolding take_due
take_due-Collected now p s due h v w t here le = elim (Bool-cases (s.polling p)) [
  | inl busy ↦ rw busy (record {
    sound = with_heap-IsSound h v t.indexed (λ q k. ground (arith, t.items q, v.in_use q));
    waiting = record {
      apart = w.apart;
      out = λ q k. ground (arith, t.items q, w.out q k);
      known = w.known;
    };
    same_index = refl;
    same_next = refl;
    same_jobs = refl;
    same_size = refl;
    fewer = λ q k. ground (arith, t.items q);
    kept = λ q k. ground (arith, t.items q);
    left = λ q k k'. ground (arith, t.items q);
    taken = λ q. ground (arith, t.items q, busy);
  })
  | inr free ↦ rw free (record {
    sound = record {
      indexed = t.indexed;
      keyed = v.keyed;
      known = v.known;
      in_use = λ q k. ground (arith, t.items q, v.in_use q);
    };
    waiting = record {
      apart = ground (arith, distinct-append due p, w.apart, w.out p);
      out = λ q k. ground (arith, t.items q, w.out q, any-append (nat_beq q) due (p ∷ []));
      known = λ q k. ground (arith, w.known q, v.in_use p, any-append (nat_beq q) due (p ∷ []));
    };
    same_index = refl;
    same_next = refl;
    same_jobs = refl;
    same_size = refl;
    fewer = λ q k. ground (arith, t.items q);
    kept = λ q k. ground (arith, t.items q);
    left = λ q k k'. ground (arith, t.items q);
    taken = λ q. ground (arith, t.items q, free, any-append (nat_beq q) due (p ∷ []));
  })
]

Collected-trans :
    {now : ℕ} {s s1 s2 : Scheduler} {due due1 due2 : List ℕ}
    → Collected now s due s1 due1
    → Collected now s1 due1 s2 due2
    → Collected now s due s2 due2
Collected-trans {now} {s} {s1} {s2} {due} {due1} {due2} a b = record {
  sound = b.sound;
  waiting = b.waiting;
  same_index = b.same_index ∙ a.same_index;
  same_next = b.same_next ∙ a.same_next;
  same_jobs = b.same_jobs ∙ a.same_jobs;
  same_size = b.same_size ∙ a.same_size;
  fewer = λ q h. a.fewer q (b.fewer q h);
  kept = λ q h. b.kept q h ∙ a.kept q (b.fewer q h);
  left = λ q h h'. elim (Bool-cases (in_heap s1.heap q)) [
    | inl still ↦ omega (arith, b.left q still h', ap (λ f. f q) a.same_next)
    | inr gone ↦ a.left q h gone
  ];
  taken = λ q. ground (arith, b.taken q, a.taken q, a.fewer q, b.fewer q, a.kept q);
}

heap-take_due : (p : ℕ) (due : List ℕ) (s : Scheduler) → (take_due p due s).0.heap ≡ s.heap
unfolding take_due
heap-take_due p due s = ground arith

collect_loop_lem :
    (fuel now : ℕ) (due : List ℕ) (s : Scheduler)
    → IsSound s
    → IsWaiting due s
    → length s.heap.slots < fuel
    → (s' : Scheduler) × (due' : List ℕ) × (collect_loop fuel now due s ≡ some (s', due'))
      × Collected now s due s' due'
unfolding collect_loop
collect_loop_lem zero now due s v w lt = absurd (omega arith)
collect_loop_lem (suc fuel) now due s v w lt = elim (Option-cases (get_elem? s.heap.slots 0)) [
  | inl empty ↦ (s, due, rw empty refl, Collected-none now s due v w)
  | inr (p, first) ↦ elim (Bool-cases (ltb now (s.next_poll_ms p))) [
    | inl later ↦ (s, due, rw (first, later) refl, Collected-none now s due v w)
    | inr now_due ↦
        let (h, popped, t) = pop_lem s.next_poll_ms s.heap p v.indexed first in
        let popped' : pop_item s ≡ some (p, with_heap s h) = unfold pop_item in rw popped refl in
        let c =
          take_due-Collected now p s due h v w t (ground (arith, (v.indexed.at p 0).1 first))
            (ground arith) in
        let s1 = (take_due p due (with_heap s h)).0 in
        let due1 = (take_due p due (with_heap s h)).1 in
        let (s', due', e, c') =
          collect_loop_lem fuel now due1 s1 c.sound c.waiting (
            omega
              (arith, t.size, ap (λ x. length x.slots) (heap-take_due p due (with_heap s h)))) in
        (s', due', rw (first, now_due, popped') e, Collected-trans c c')
  ]
]

dispatch_lem :
    (now p : ℕ) (due : List ℕ) (s : Scheduler)
    → IsSound s
    → IsWaiting (p ∷ due) s
    → (s' : Scheduler) × (dispatch now p s ≡ some s')
      × IsSound s'
      × IsWaiting due s'
      × (s'.heap_idx ≡ s.heap_idx)
      × ((q : ℕ) → in_heap s.heap q ≡ true → in_heap s'.heap q ≡ true)
      × (length s.jobs ≤ s.queue_size → length s'.jobs ≤ s'.queue_size)
unfolding set_next
dispatch_lem now p due s v w = elim (Bool-cases (ltb (length s.jobs) s.queue_size)) [
  | inl room ↦ (
    record s { jobs = s.jobs ++ s.key p ∷ [] },
    unfold dispatch in rw room refl,
    record { indexed = v.indexed; keyed = v.keyed; known = v.known; in_use = v.in_use },
    record {
      apart = ground (arith, w.apart);
      out = λ q k. ground (arith, w.out q);
      known = λ q k. ground (arith, w.known q);
    },
    refl,
    λ q k. k,
    λ le. ground (arith, length-append s.jobs (s.key p ∷ [])),
  )
  | inr full ↦
      let s1 = set_next p (now + 10) s in
      let absent : s.heap.index p ≡ none = ground (arith, w.out p) in
      let g : Gives (push_item p s1) s1 (λ q. nat_beq p q || in_heap s.heap q) =
        push_item_lem p s1 v.indexed absent in
      (
        with_heap s1 g.after,
        unfold dispatch in rw full g.result,
        pushed-IsSound p s1 (w.known p (ground arith)) (set_next-IsSound p (now + 10) v) g,
        record {
          apart = ground (arith, w.apart);
          out = λ q k. ground (arith, w.out q, w.apart, g.items q);
          known = λ q k. ground (arith, w.known q);
        },
        refl,
        λ q k. ground (arith, g.items q),
        λ le. le,
      )
]

dispatch_all_lem :
    (now : ℕ) (due : List ℕ) (s : Scheduler)
    → IsSound s
    → IsWaiting due s
    → (s' : Scheduler) × (dispatch_all now due s ≡ some s')
      × IsSound s'
      × (s'.heap_idx ≡ s.heap_idx)
      × ((q : ℕ) → in_heap s.heap q ≡ true → in_heap s'.heap q ≡ true)
      × (length s.jobs ≤ s.queue_size → length s'.jobs ≤ s'.queue_size)
unfolding dispatch_all
dispatch_all_lem now [] s v w = (s, refl, v, refl, λ q h. h, λ le. le)
dispatch_all_lem now (p ∷ due) s v w =
    let (s1, e1, v1, w1, i1, h1, j1) = dispatch_lem now p due s v w in
    let (s2, e2, v2, i2, h2, j2) = dispatch_all_lem now due s1 v1 w1 in
    (s2, rw e1 e2, v2, i2 ∙ i1, λ q h. h2 q (h1 q h), λ le. j2 (j1 le))

-- Collecting the due items never panics and keeps the index right. No item enters the heap, and
-- those that leave it are due; the list holds, each once, those among them that were not marked as
-- polling. The times, the jobs and the listed keys are unchanged.
pub collect_exact :
    (now : ℕ) (s : Scheduler)
    → IsSound s
    → (s' : Scheduler) × (due : List ℕ) × (collect now s ≡ some (s', due))
      × Collected now s [] s' due
unfolding collect
collect_exact now s v =
    collect_loop_lem (suc (length s.heap.slots)) now [] s v
      (record { apart = refl; out = λ q h. ground (arith, h); known = λ q h. ground (arith, h) })
      (omega arith)

-- `processDueItems`, run on its own, never panics: the index is right afterwards, the same keys are
-- listed, the queue stays within its capacity, and an item that has left the heap was due.
pub process_due_safe :
    (now : ℕ) (s : Scheduler)
    → IsSound s
    → length s.jobs ≤ s.queue_size
    → (s' : Scheduler) × (process_due now s ≡ some s')
      × IsSound s'
      × (s'.heap_idx ≡ s.heap_idx)
      × (length s'.jobs ≤ s'.queue_size)
      × ((q : ℕ) → in_heap s.heap q ≡ true → in_heap s'.heap q ≡ false → s.next_poll_ms q ≤ now)
process_due_safe now s v le =
    let (s1, due, e1, c) = collect_exact now s v in
    let (s2, e2, v2, i2, h2, j2) = dispatch_all_lem now due s1 c.sound c.waiting in
    (
      s2,
      unfold process_due in rw e1 e2,
      v2,
      i2 ∙ c.same_index,
      j2 (omega (arith, ap length c.same_jobs, c.same_size)),
      λ q h h'. c.left q h (ground (arith, h2 q)),
    )
