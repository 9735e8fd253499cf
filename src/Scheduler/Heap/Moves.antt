-- ===== src/Scheduler/Heap/Moves.antt =====
-- The operations of container/heap and the `index` fields, whatever the order of the items is.
use snmpproxy.Base.{
  ℕ, zero, suc, ◌+◌, ◌-◌, ◌*◌, ◌/◌, ◌≤◌, ◌<◌, ◌≡◌, ap, ◌∙◌, Bool, not, ◌&&◌, ◌||◌, none, some, [],
  ◌∷◌, nat_beq, ltb, leb, length, arith, length-append, Bool-cases, inl, inr,
}
use snmpproxy.Scheduler.Heap.{
  Heap, get_elem?, less, up_loop, up, smaller_child, down_loop, down, append, drop_last, push, pop,
  settle, remove,
}
use snmpproxy.Base.Arrays.{get_elem?_lt, lt_of_get_elem?}
use snmpproxy.Scheduler.Heap.Indexed.{
  IsIndexed, Shuffled, Shuffled-refl, Shuffled-trans, in_heap, swap_lem, append-IsIndexed,
  append-items, drop_last_lem,
}

less_lem :
    (next : ℕ → ℕ) (h : Heap) (i j : ℕ)
    → i < length h.slots
    → j < length h.slots
    → (b : Bool) × (less next h i j ≡ some b)
unfolding less
less_lem next h i j hi hj =
    let (p, ep) = get_elem?_lt h.slots i hi in
    let (q, eq) = get_elem?_lt h.slots j hj in (ltb (next p) (next q), rw (ep, eq))

up_loop_lem :
    (next : ℕ → ℕ) (n fuel : ℕ) (h : Heap) (j : ℕ)
    → IsIndexed h
    → j < length h.slots
    → j < n
    → j < fuel
    → (h' : Heap) × (up_loop next fuel h j ≡ some h') × Shuffled n h h'
unfolding up_loop
up_loop_lem next n zero h j v hj b f = elim f [ ]
up_loop_lem next n (suc fuel) h j v hj b f = elim (Bool-cases (nat_beq ((j - 1) / 2) j)) [
  | inl top ↦ (h, rw top, Shuffled-refl v)
  | inr inner ↦
      let i = (j - 1) / 2 in
      let hi : i < length h.slots = omega arith in
      let bi : i < n = omega arith in
      let (t, et) = less_lem next h j i hj hi in
      let (h1, e1, s1, _) = swap_lem n h i j v hi hj bi b in
      let (h2, e2, s2) =
        up_loop_lem next n fuel h1 i s1.indexed (omega (arith, s1.size)) bi (ground arith) in
      elim (Bool-cases t) [
        | inl rise ↦ (h2, rw (inner, et, rise, e1, e2), Shuffled-trans s1 s2)
        | inr stay ↦ (h, rw (inner, et, stay), Shuffled-refl v)
      ]
]

-- `up` from a slot in range succeeds and moves items only.
pub up_lem :
    (next : ℕ → ℕ) (n : ℕ) (h : Heap) (j : ℕ)
    → IsIndexed h
    → j < length h.slots
    → j < n
    → (h' : Heap) × (up next h j ≡ some h') × Shuffled n h h'
unfolding up
up_lem next n h j v hj b = up_loop_lem next n (suc j) h j v hj b (omega arith)

smaller_child_lem :
    (next : ℕ → ℕ) (h : Heap) (i n : ℕ)
    → n ≤ length h.slots
    → 2 * i + 1 < n
    → (j : ℕ) × (smaller_child next h i n ≡ some j) × (i < j) × (j < n)
unfolding smaller_child
smaller_child_lem next h i n hn hi = elim (Bool-cases (ltb (2 * i + 1 + 1) n)) [
  | inl both ↦
      let (b, eb) = less_lem next h (2 * i + 1 + 1) (2 * i + 1) (ground arith) (omega arith) in
      elim (Bool-cases b) [
        | inl right ↦ (2 * i + 1 + 1, rw (both, eb, right), omega arith, ground arith)
        | inr left ↦ (2 * i + 1, rw (both, eb, left), omega arith, omega arith)
      ]
  | inr one ↦ (2 * i + 1, rw one, omega arith, omega arith)
]

down_loop_lem :
    (next : ℕ → ℕ) (n fuel : ℕ) (h : Heap) (i : ℕ)
    → IsIndexed h
    → n ≤ length h.slots
    → n - i < fuel
    → (h' : Heap) × (k : ℕ) × (down_loop next fuel h i n ≡ some (h', k)) × Shuffled n h h'
unfolding down_loop
down_loop_lem next n zero h i v hn f = elim f [ ]
down_loop_lem next n (suc fuel) h i v hn f = elim (Bool-cases (leb n (2 * i + 1))) [
  | inl leaf ↦ (h, i, rw leaf, Shuffled-refl v)
  | inr inner ↦
      let hi : 2 * i + 1 < n = ground arith in
      let (j, ej, ij, jn) = smaller_child_lem next h i n hn hi in
      let (t, et) = less_lem next h j i (omega arith) (omega arith) in
      let (h1, e1, s1, _) = swap_lem n h i j v (omega arith) (omega arith) (omega arith) jn in
      let (h2, k, e2, s2) =
        down_loop_lem next n fuel h1 j s1.indexed (omega (arith, s1.size)) (omega arith) in
      elim (Bool-cases t) [
        | inl sink ↦
            (h2, k, rw (inner, ej, et, sink, e1, e2), Shuffled-trans {h' = h1} {h'' = h2} s1 s2)
        | inr stay ↦ (h, i, rw (inner, ej, et, stay), Shuffled-refl v)
      ]
]

-- `down` within the first n slots succeeds and moves items only there.
pub down_lem :
    (next : ℕ → ℕ) (n : ℕ) (h : Heap) (i : ℕ)
    → IsIndexed h
    → n ≤ length h.slots
    → (h' : Heap) × (k : ℕ) × (down next h i n ≡ some (h', k)) × Shuffled n h h'
unfolding down
down_lem next n h i v hn = down_loop_lem next n (suc n) h i v hn (omega arith)

-- `heap.Push` of an item that is not in the heap succeeds and adds that item alone.
pub push_lem :
    (next : ℕ → ℕ) (p : ℕ) (h : Heap)
    → IsIndexed h
    → h.index p ≡ none
    → (h' : Heap) × (push next p h ≡ some h')
      × IsIndexed h'
      × (length h'.slots ≡ suc (length h.slots))
      × ((q : ℕ) → in_heap h' q ≡ (nat_beq p q || in_heap h q))
unfolding push
push_lem next p h v new =
    let h1 = append p h in
    let len : length h1.slots ≡ suc (length h.slots) =
      unfold append in omega (arith, length-append h.slots (p ∷ [])) in
    let (h2, e2, s2) =
      up_lem next (length h1.slots) h1 (length h1.slots - 1) (append-IsIndexed p h v new)
        (omega arith) (omega arith) in
    (h2, e2, s2.indexed, s2.size ∙ len, λ q. s2.items q ∙ append-items p q h)

-- What an operation that takes one item out leaves.
pub record Taken (p : ℕ) (h h' : Heap) : Type 0 where
  pub indexed : IsIndexed h'
  pub size : suc (length h'.slots) ≡ length h.slots
  pub items : (q : ℕ) → in_heap h' q ≡ (not (nat_beq p q) && in_heap h q)

take_last :
    (n p : ℕ) (h h1 : Heap)
    → Shuffled (suc n) h h1
    → length h.slots ≡ suc n
    → get_elem? h1.slots n ≡ some p
    → (h2 : Heap) × (drop_last h1 ≡ some (p, h2)) × Taken p h h2
take_last n p h h1 s len top =
    let (q, h2, e, last, v, size, items) = drop_last_lem h1 n s.indexed (s.size ∙ len) in
    let same : q ≡ p = ground arith in
    (
      h2,
      rw (← same) e,
      record {
        indexed = v;
        size = omega arith;
        items = λ r. rw (← same) (items r ∙ ap (λ b. not (nat_beq q r) && b) (s.items r));
      },
    )

Shuffled-suc : {n : ℕ} {h h' : Heap} → Shuffled n h h' → Shuffled (suc n) h h'
Shuffled-suc s = record {
  indexed = s.indexed;
  size = s.size;
  items = s.items;
  above = λ k le. s.above k (omega arith);
}

-- `heap.Pop` of a heap with an item succeeds, returns the item of the first slot, and takes that
-- item alone out.
pub pop_lem :
    (next : ℕ → ℕ) (h : Heap) (p : ℕ)
    → IsIndexed h
    → get_elem? h.slots 0 ≡ some p
    → (h' : Heap) × (pop next h ≡ some (p, h')) × Taken p h h'
pop_lem next h p v first =
    let n = length h.slots - 1 in
    let len : length h.slots ≡ suc n = omega (arith, lt_of_get_elem? h.slots 0 p first) in
    let (h1, e1, s1, top) =
      swap_lem (suc n) h 0 n v (omega arith) (omega arith) (omega arith) (omega arith) in
    let (h2, k, e2, s2) = down_lem next n h1 0 s1.indexed (omega (arith, s1.size)) in
    let (h3, e3, t) =
      take_last n p h h2 (Shuffled-trans s1 (Shuffled-suc s2)) len
        (s2.above n (omega arith) ∙ top ∙ first) in
    (h3, unfold pop in rw (e1, e2) e3, t)

settle_lem :
    (next : ℕ → ℕ) (n : ℕ) (h : Heap) (i : ℕ)
    → IsIndexed h
    → n ≤ length h.slots
    → i < n
    → (h' : Heap) × (settle next h i n ≡ some h') × Shuffled n h h'
unfolding settle
settle_lem next n h i v hn hi =
    let (h1, k, e1, s1) = down_lem next n h i v hn in
    let (h2, e2, s2) = up_lem next n h1 i s1.indexed (omega (arith, s1.size)) hi in
    elim (Bool-cases (ltb i k)) [
      | inl sank ↦ (h1, rw (e1, sank), s1)
      | inr stayed ↦ (h2, rw (e1, stayed, e2), Shuffled-trans s1 s2)
    ]

-- `heap.Remove` at the slot that an item's field names succeeds and takes that item alone out.
pub remove_lem :
    (next : ℕ → ℕ) (h : Heap) (p i : ℕ)
    → IsIndexed h
    → h.index p ≡ some i
    → (h' : Heap) × (remove next h i ≡ some h') × Taken p h h'
remove_lem next h p i v held =
    let here = (v.at p i).0 held in
    let n = length h.slots - 1 in
    let hi = lt_of_get_elem? h.slots i p here in
    let len : length h.slots ≡ suc n = omega arith in
    elim (Bool-cases (nat_beq n i)) [
      | inl last ↦
          let (h1, e1, t) =
            take_last n p h h (Shuffled-refl v) len
              (let same : n ≡ i = ground arith in rw same here) in
          (h1, unfold remove in rw (last, e1), t)
      | inr inner ↦
          let bound : i < n = ground arith in
          let (h1, e1, s1, top) =
            swap_lem (suc n) h i n v hi (omega arith) (omega arith) (omega arith) in
          let (h2, e2, s2) = settle_lem next n h1 i s1.indexed (omega (arith, s1.size)) bound in
          let (h3, e3, t) =
            take_last n p h h2 (Shuffled-trans s1 (Shuffled-suc s2)) len
              (s2.above n (omega arith) ∙ top ∙ here) in
          (h3, unfold remove in rw (inner, e1, e2, e3), t)
    ]
