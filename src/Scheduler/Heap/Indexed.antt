-- ===== src/Scheduler/Heap/Indexed.antt =====
-- The `index` fields against the slice, through swaps, appends and removals at the end.
use snmpproxy.Base.{
  ℕ, suc, ◌-◌, ◌≤◌, ◌<◌, ◌≡◌, refl, sym, ◌∙◌, ◌↔◌, Bool, true, false, not, ◌&&◌, ◌||◌, none, some,
  List, if◌then◌else◌, nat_beq, length, take, arith,
}
use snmpproxy.Base.Arrays.{
  get_elem?_lt, lt_of_get_elem?, length-set, get_elem?-set, get_elem?-append, get_elem?-take,
  length-take,
}
use snmpproxy.Scheduler.Heap.{Heap, get_elem?, set, with_index, swap, append, drop_last}

-- An item's field holds i exactly if the item stands in slot i.
pub record IsIndexed (h : Heap) : Type 0 where
  pub at : (p i : ℕ) → (h.index p ≡ some i) ↔ (get_elem? h.slots i ≡ some p)

abbrev pub in_heap : Heap → ℕ → Bool
in_heap h p = elim (h.index p) [ none ↦ false | some i ↦ true ]

-- `h'` holds the items of `h`, those below the slot n perhaps in other slots.
pub record Shuffled (n : ℕ) (h h' : Heap) : Type 0 where
  pub indexed : IsIndexed h'
  pub size : length h'.slots ≡ length h.slots
  pub items : (p : ℕ) → in_heap h' p ≡ in_heap h p
  pub above : (k : ℕ) → n ≤ k → get_elem? h'.slots k ≡ get_elem? h.slots k

pub Shuffled-refl : {n : ℕ} {h : Heap} → IsIndexed h → Shuffled n h h
Shuffled-refl v = record { indexed = v; size = refl; items = λ p. refl; above = λ k _. refl }

pub Shuffled-trans :
    {n : ℕ} {h h' h'' : Heap} → Shuffled n h h' → Shuffled n h' h'' → Shuffled n h h''
Shuffled-trans a b = record {
  indexed = b.indexed;
  size = b.size ∙ a.size;
  items = λ p. b.items p ∙ a.items p;
  above = λ k le. b.above k le ∙ a.above k le;
}

get_elem?-swap :
    (xs : List ℕ) (i j p q k : ℕ)
    → i < length xs
    → j < length xs
    → get_elem? (set (set xs i q) j p) k
      ≡ (if nat_beq j k then some p else if nat_beq i k then some q else get_elem? xs k)
get_elem?-swap xs i j p q k hi hj =
    rw (get_elem?-set (set xs i q) j p k (rw (length-set xs i q) hj), get_elem?-set xs i q k hi)

-- A swap of two slots in range succeeds; what stood in the first stands in the second.
pub swap_lem :
    (n : ℕ) (h : Heap) (i j : ℕ)
    → IsIndexed h
    → i < length h.slots
    → j < length h.slots
    → i < n
    → j < n
    → (h' : Heap) × (swap h i j ≡ some h')
      × Shuffled n h h'
      × (get_elem? h'.slots j ≡ get_elem? h.slots i)
unfolding swap
swap_lem n h i j v hi hj bi bj =
    let (p, ep) = get_elem?_lt h.slots i hi in
    let (q, eq) = get_elem?_lt h.slots j hj in
    let slots = set (set h.slots i q) j p in
    let after = λ (k : ℕ). get_elem?-swap h.slots i j p q k hi hj in
    (
      record { slots = slots; index = with_index (with_index h.index q (some i)) p (some j) },
      rw (ep, eq),
      record {
        indexed = record {
          at = λ r k.
              rw (after k) (ground (arith, v.at r k, (v.at p i).1 ep, (v.at q j).1 eq, ep, eq));
        };
        size = length-set (set h.slots i q) j p ∙ length-set h.slots i q;
        items = λ r. ground (arith, (v.at p i).1 ep, (v.at q j).1 eq);
        above = λ k le. ground (arith, after k);
      },
      ground (arith, after j),
    )

-- An item that is in no slot can be put at the end.
pub append-IsIndexed : (p : ℕ) (h : Heap) → IsIndexed h → h.index p ≡ none → IsIndexed (append p h)
unfolding append
append-IsIndexed p h v new = record {
  at = λ r k.
      rw (get_elem?-append h.slots p k)
        (ground (arith, v.at r k, v.at p k, lt_of_get_elem? h.slots k r));
}

pub append-items : (p q : ℕ) (h : Heap) → in_heap (append p h) q ≡ (nat_beq p q || in_heap h q)
unfolding append
append-items p q h = ground arith

-- The item at the end of a slice with an item can be taken off.
pub drop_last_lem :
    (h : Heap) (n : ℕ)
    → IsIndexed h
    → length h.slots ≡ suc n
    → (p : ℕ) × (h' : Heap) × (drop_last h ≡ some (p, h'))
      × (get_elem? h.slots n ≡ some p)
      × IsIndexed h'
      × (length h'.slots ≡ n)
      × ((q : ℕ) → in_heap h' q ≡ (not (nat_beq p q) && in_heap h q))
drop_last_lem h n v len =
    let (p, ep) = get_elem?_lt h.slots n (omega arith) in
    let h' : Heap = record { slots = take n h.slots; index = with_index h.index p none } in
    let last : length h.slots - 1 ≡ n = omega arith in
    (
      p,
      h',
      unfold drop_last in rw (last, ep),
      ep,
      record {
        at = λ r k.
            rw (get_elem?-take n h.slots k (sym len))
              (ground (arith, v.at r k, v.at p k, (v.at p n).1 ep, v.at r n, ep));
      },
      length-take n h.slots (omega arith),
      λ q. ground arith,
    )
