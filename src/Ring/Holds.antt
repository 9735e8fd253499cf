-- ===== src/Ring/Holds.antt =====
-- The samples that a ring holds, oldest first, through a write and a copy.
use snmpproxy.Base.{
  ℕ, zero, suc, ◌+◌, ◌-◌, ◌%◌, ◌≤◌, ◌<◌, ◌≡◌, refl, ap, sym, ◌∙◌, some, List, [], ◌∷◌, ◌++◌,
  if◌then◌else◌, ltb, nat_beq, length, drop, get_elem?, set, arith, length-append, Bool-cases, inl,
  inr,
}
use native.Mathlib.Nat.{mod-eq_of_lt, mod-eq-sub-mod}
use snmpproxy.Base.Arrays.{
  length-set, get_elem?-set, get_elem?-append, get_elem?-drop, length-drop, get_elem?_lt, drop_all,
  drop-cons,
}
use snmpproxy.Ring.{Sample, Ring, write, copy_from}

-- Once round at most, a remainder is a subtraction.
pub mod_once : (a size : ℕ) → a < size + size → a % size ≡ (if ltb a size then a else a - size)
mod_once a size h = elim (Bool-cases (ltb a size)) [
  | inl below ↦ rw below (mod-eq_of_lt (ground arith))
  | inr above ↦ rw above (
      mod-eq-sub-mod {n = a} {m = size} (ground arith)
      ∙ mod-eq_of_lt {n = a - size} {m = size} (ground arith))
]

-- The ring holds exactly `xs`, in the slots that end before the next write.
pub record Holds (xs : List Sample) (r : Ring) : Type 0 where
  pub size : length r.buffer ≡ r.buf_size
  pub inside : r.write_idx < r.buf_size
  pub counted : r.count ≡ length xs
  pub fits : length xs ≤ r.buf_size
  pub at :
      (i : ℕ)
      → i < length xs
      → get_elem? r.buffer ((r.write_idx + r.buf_size - length xs + i) % r.buf_size)
        ≡ get_elem? xs i

-- The last `n` of a list.
abbrev pub last_n : ℕ → List Sample → List Sample
last_n n xs = drop (length xs - n) xs

-- Where the samples of age stand: the one past the last is where the next write goes.
slot_next :
    (w size n j : ℕ)
    → w < size
    → n ≤ size
    → j ≤ n
    → suc n - size ≤ j
    → nat_beq w ((w + size - n + j) % size) ≡ nat_beq n j
slot_next w size n j lt le jn dj = ground (arith, mod_once (w + size - n + j) size)

-- The slots are counted from the next write, which a write moves on.
slot_shift :
    (w size n d i : ℕ)
    → w < size
    → n ≤ size
    → d ≡ suc n - size
    → d + i ≤ n
    → ((w + 1) % size + size - (suc n - d) + i) % size ≡ (w + size - n + (d + i)) % size
slot_shift w size n d i lt le e h = ground (
  arith,
  mod_once (w + 1) size,
  mod_once ((w + 1) % size + size - (suc n - d) + i) size,
  mod_once (w + size - n + (d + i)) size,
)

-- A write makes the sample the newest one, and drops the oldest if the ring is full.
pub write-Holds :
    (s : Sample) (xs : List Sample) (r : Ring)
    → Holds xs r
    → (r' : Ring) × (write s r ≡ some r')
      × Holds (last_n r.buf_size (xs ++ s ∷ [])) r'
      × (r'.buf_size ≡ r.buf_size)
write-Holds s xs r v =
    let d = length (xs ++ s ∷ []) - r.buf_size in
    let len : length (xs ++ s ∷ []) ≡ suc (length xs) = omega (arith, length-append xs (s ∷ [])) in
    let len' : length (drop d (xs ++ s ∷ [])) ≡ suc (length xs) - d =
      omega (arith, length-drop d (xs ++ s ∷ [])) in
    (
      record {
        buffer = set r.buffer r.write_idx s;
        buf_size = r.buf_size;
        write_idx = (r.write_idx + 1) % r.buf_size;
        count = if ltb r.count r.buf_size then r.count + 1 else r.count;
      },
      unfold write in ground arith,
      record {
        size = length-set r.buffer r.write_idx s ∙ v.size;
        inside = omega arith;
        counted = ground arith;
        fits = omega arith;
        at = λ i lt.
            let n = length xs in
            let j = d + i in
            let slot = (r.write_idx + r.buf_size - n + j) % r.buf_size in
            let old : j < n → get_elem? r.buffer slot ≡ get_elem? xs j = v.at j in
            let shift =
              slot_shift r.write_idx r.buf_size n d i v.inside v.fits (omega arith) (omega arith) in
            rw (len', shift)
              (ground (
                arith,
                old,
                get_elem?-set r.buffer r.write_idx s slot (omega arith),
                slot_next r.write_idx r.buf_size n j v.inside v.fits (omega arith) (omega arith),
                get_elem?-drop d (xs ++ s ∷ []) i,
                get_elem?-append xs s j,
              ));
      },
      refl,
    )

-- Copying from the slot of the k-th sample on gives the samples from there on.
pub copy_from-Holds :
    (xs : List Sample) (r : Ring) (start k i n : ℕ)
    → Holds xs r
    → start ≡ (r.write_idx + r.buf_size - length xs + k) % r.buf_size
    → k + (i + n) ≡ length xs
    → copy_from r.buffer r.buf_size start i n ≡ some (drop (k + i) xs)
unfolding copy_from
copy_from-Holds xs r start k i zero v e h = ap some (sym (drop_all (k + i) xs (omega arith)))
copy_from-Holds xs r start k i (suc n) v e h =
    let (x, there) = get_elem?_lt xs (k + i) (omega arith) in
    let slot : (start + i) % r.buf_size
        ≡ (r.write_idx + r.buf_size - length xs + (k + i)) % r.buf_size =
      ground (
        arith,
        e,
        mod_once (r.write_idx + r.buf_size - length xs + k) r.buf_size,
        mod_once (start + i) r.buf_size,
        mod_once (r.write_idx + r.buf_size - length xs + (k + i)) r.buf_size,
      ) in
    let read : get_elem? r.buffer ((start + i) % r.buf_size) ≡ some x =
      ap (get_elem? r.buffer) slot ∙ (v.at (k + i) (omega arith) ∙ there) in
    let next : k + suc i ≡ suc (k + i) = omega arith in
    let rest : copy_from r.buffer r.buf_size start (suc i) n ≡ some (drop (suc (k + i)) xs) =
      copy_from-Holds xs r start k (suc i) n v e (omega arith) ∙ ap (λ m. some (drop m xs)) next in
    rw (read, rest) (ap some (sym (drop-cons (k + i) xs x there)))
