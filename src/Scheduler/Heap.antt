-- ===== src/Scheduler/Heap.antt =====
-- The heap of poll items: PollHeap of internal/scheduler/scheduler.go, with the operations of Go's
-- container/heap that the scheduler calls. The items are shared through pointers, which are
-- numbers here; `slots` is the slice of pointers, and `index` is the field of that name of every
-- item, where `none` stands for -1. `next` is the field NextPollMs. `none` as a result is a panic
-- by an index out of range, or a loop whose fuel has run out.
pub mod Indexed
pub mod Moves
use snmpproxy.Base.{
  ℕ, zero, suc, ◌+◌, ◌-◌, ◌*◌, ◌/◌, Bool, true, false, not, ◌&&◌, ◌||◌, Option, none, some, List,
  [], ◌∷◌, ◌++◌, if◌then◌else◌, ltb, leb, nat_beq, length, take,
}
pub use snmpproxy.Base.{get_elem?, set}
pub use snmpproxy.Base.Options.{◌>>=◌}

pub record Heap : Type 0 where
  pub slots : List ℕ
  pub index : ℕ → Option ℕ

abbrev pub with_index : (ℕ → Option ℕ) → ℕ → Option ℕ → ℕ → Option ℕ
with_index index p v q = if nat_beq p q then v else index q

-- `Less`
unfoldable pub less : (ℕ → ℕ) → Heap → ℕ → ℕ → Option Bool
less next h i j = do p ← get_elem? h.slots i; q ← get_elem? h.slots j; some (ltb (next p) (next q))

-- `Swap`
unfoldable pub swap : Heap → ℕ → ℕ → Option Heap
swap h i j = do
  p ← get_elem? h.slots i
  q ← get_elem? h.slots j
  some (record {
    slots = set (set h.slots i q) j p;
    index = with_index (with_index h.index q (some i)) p (some j);
  })

-- `PollHeap.Push`: at the end of the slice.
unfoldable pub append : ℕ → Heap → Heap
append p h = record {
  slots = h.slots ++ p ∷ [];
  index = with_index h.index p (some (length h.slots));
}

-- `PollHeap.Pop`: off the end of the slice; empty slices panic.
unfoldable pub drop_last : Heap → Option (ℕ × Heap)
drop_last h =
    let n = length h.slots - 1 in
    get_elem? h.slots n >>= λ p.
    some (p, record { slots = take n h.slots; index = with_index h.index p none })

-- `up` of container/heap. In Go (0 - 1) / 2 is 0, as here.
unfoldable pub up_loop : (ℕ → ℕ) → ℕ → Heap → ℕ → Option Heap
up_loop next zero h j = none
up_loop next (suc fuel) h j =
    let i = (j - 1) / 2 in
    let rise = swap h i j >>= λ h'. up_loop next fuel h' i in
    let test = less next h j i >>= λ below. if below then rise else some h in
    if nat_beq i j then some h else test

unfoldable pub up : (ℕ → ℕ) → Heap → ℕ → Option Heap
unfolding up_loop
up next h j = up_loop next (suc j) h j

-- The child that `down` compares with: the right one if it exists and comes before the left one.
unfoldable pub smaller_child : (ℕ → ℕ) → Heap → ℕ → ℕ → Option ℕ
smaller_child next h i n =
    let left = 2 * i + 1 in
    let right = left + 1 in
    if ltb right n
    then (less next h right left >>= λ before. some (if before then right else left))
    else some left

-- `down` of container/heap: the heap, and the index at which the loop ends.
unfoldable pub down_loop : (ℕ → ℕ) → ℕ → Heap → ℕ → ℕ → Option (Heap × ℕ)
down_loop next zero h i n = none
down_loop next (suc fuel) h i n =
    let step : Option (Heap × ℕ) = smaller_child next h i n >>= λ j. less next h j i >>= λ before.
    let sink = swap h i j >>= λ h'. down_loop next fuel h' j n in
    if before then sink else some (h, i) in
    if leb n (2 * i + 1) then some (h, i) else step

unfoldable pub down : (ℕ → ℕ) → Heap → ℕ → ℕ → Option (Heap × ℕ)
unfolding down_loop smaller_child
down next h i n = down_loop next (suc n) h i n

-- `heap.Push`
unfoldable pub push : (ℕ → ℕ) → ℕ → Heap → Option Heap
push next p h = let h' = append p h in up next h' (length h'.slots - 1)

-- `heap.Pop`
unfoldable pub pop : (ℕ → ℕ) → Heap → Option (ℕ × Heap)
pop next h =
    let n = length h.slots - 1 in swap h 0 n >>= λ h'. down next h' 0 n >>= λ r. drop_last r.0

-- The calls of `down` and `up` in `heap.Remove`.
unfoldable pub settle : (ℕ → ℕ) → Heap → ℕ → ℕ → Option Heap
settle next h i n = down next h i n >>= λ r. if ltb i r.1 then some r.0 else up next r.0 i

-- `heap.Remove`, whose result the scheduler does not use.
unfoldable pub remove : (ℕ → ℕ) → Heap → ℕ → Option Heap
remove next h i =
    let n = length h.slots - 1 in
    let moved = swap h i n >>= λ h'. settle next h' i n in
    (if nat_beq n i then some h else moved) >>= λ h'. drop_last h' >>= λ r. some r.1
