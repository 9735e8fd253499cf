-- ===== src/Ring/Refine.antt =====
-- The ring against a list of its last samples, as a client sees it.
use snmpproxy.Base.{
  ℕ, zero, suc, ◌+◌, ◌-◌, ◌%◌, ◌≤◌, ◌<◌, ◌≡◌, refl, ap, sym, ◌∙◌, Bool, true, false, ◌&&◌, Option,
  some, List, [], ◌∷◌, ◌++◌, ltb, nat_beq, length, drop, get_elem?, arith, Bool-cases, inl, inr,
}
use snmpproxy.Base.Arrays.{length-drop, drop_all}
use snmpproxy.Base.Options.{◌>>=◌}
use snmpproxy.Ring.{
  Sample, Ring, new_ring, write, read_last_n, resize, kept, at_most, blanks, overwrite,
}
use snmpproxy.Ring.Holds.{Holds, last_n, mod_once, write-Holds, copy_from-Holds}

length-blanks : (n : ℕ) → length (blanks n) ≡ n
length-blanks zero = refl
length-blanks (suc n) = ap suc (length-blanks n)

length-overwrite : (ss bs : List Sample) → length (overwrite ss bs) ≡ length bs
length-overwrite [] bs = refl
length-overwrite (s ∷ ss) [] = refl
length-overwrite (s ∷ ss) (b ∷ bs) = ap suc (length-overwrite ss bs)

get_elem?-overwrite :
    (ss bs : List Sample) (i : ℕ)
    → length ss ≤ length bs
    → i < length ss
    → get_elem? (overwrite ss bs) i ≡ get_elem? ss i
get_elem?-overwrite [] bs i le lt = absurd (omega arith)
get_elem?-overwrite (s ∷ ss) [] i le lt = absurd (omega arith)
get_elem?-overwrite (s ∷ ss) (b ∷ bs) zero le lt = refl
get_elem?-overwrite (s ∷ ss) (b ∷ bs) (suc i) le lt =
    get_elem?-overwrite ss bs i (omega arith) (omega arith)

pub new_ring-Holds : (size : ℕ) → 0 < size → Holds [] (new_ring size)
unfolding new_ring
new_ring-Holds size pos = record {
  size = length-blanks size;
  inside = pos;
  counted = refl;
  fits = omega arith;
  at = λ i lt. absurd (omega arith);
}

-- `ReadLastN` returns the last n samples that the ring holds, oldest first, or all of them if there
-- are fewer.
pub read_last_n-Holds :
    (n : ℕ) (xs : List Sample) (r : Ring) → Holds xs r → read_last_n n r ≡ some (last_n n xs)
unfolding read_last_n
read_last_n-Holds n xs r v =
    let k = at_most r.count n in
    let short : length xs - k ≡ length xs - n = ground (arith, v.counted) in
    elim (Bool-cases (nat_beq k 0)) [
      | inl nothing ↦
          rw nothing (ap some (sym (drop_all (length xs - n) xs (ground (arith, v.counted)))))
      | inr more ↦
          rw (more, ← short)
            (copy_from-Holds xs r _ (length xs - k) 0 k v
                (ap (λ m. m % r.buf_size) (ground (arith, v.counted))) (ground (arith, v.counted))
              ∙ ap (λ m. some (drop m xs)) (omega arith))
    ]

kept-Holds :
    (k : ℕ) (xs : List Sample) (r : Ring)
    → Holds xs r
    → k ≤ length xs
    → kept k r ≡ some (drop (length xs - k) xs)
unfolding kept
kept-Holds k xs r v le = elim (Bool-cases (ltb 0 k)) [
  | inl some_kept ↦ rw some_kept (
      copy_from-Holds xs r _ (length xs - k) 0 k v
        (ap (λ m. m % r.buf_size) (omega (arith, v.counted))) (omega arith)
      ∙ ap (λ m. some (drop m xs)) (omega arith))
  | inr nothing ↦ rw nothing (ap some (sym (drop_all (length xs - k) xs (ground (arith, nothing)))))
]

-- The new buffer of a resize, with `k` samples in it.
resized-Holds :
    (size k : ℕ) (ys : List Sample)
    → 0 < size
    → k ≤ size
    → length ys ≡ k
    → Holds ys (record {
      buffer = overwrite ys (blanks size);
      buf_size = size;
      write_idx = k % size;
      count = k;
    })
resized-Holds size k ys pos le len = record {
  size = length-overwrite ys (blanks size) ∙ length-blanks size;
  inside = grind arith;
  counted = sym len;
  fits = omega arith;
  at = λ i lt.
      let slot : (k % size + size - length ys + i) % size ≡ i =
        ground (arith, mod_once k size, mod_once (k % size + size - length ys + i) size) in
      ap (get_elem? (overwrite ys (blanks size))) slot
      ∙ get_elem?-overwrite ys (blanks size) i (omega (arith, length-blanks size)) lt;
}

-- `ResizeBuffer` to a size above 0 keeps the last samples that fit, and all of them if all fit.
pub resize-Holds :
    (new_size : ℕ) (xs : List Sample) (r : Ring)
    → Holds xs r
    → 0 < new_size
    → (r' : Ring) × (resize new_size r ≡ some r')
      × Holds (last_n new_size xs) r'
      × (r'.buf_size ≡ new_size)
unfolding resize
resize-Holds new_size xs r v pos = elim (Bool-cases (nat_beq new_size r.buf_size)) [
  | inl same ↦
      let all : last_n new_size xs ≡ xs =
        ap (λ m. drop m xs) (let e : length xs - new_size ≡ 0 = ground (arith, v.fits) in e) in
      (r, rw same refl, rw all v, ground arith)
  | inr other ↦
      let k = at_most new_size r.count in
      let ys = drop (length xs - k) xs in
      let len : length ys ≡ k = ground (arith, length-drop (length xs - k) xs, v.counted) in
      let short : length xs - k ≡ length xs - new_size = ground (arith, v.counted) in
      let positive : nat_beq new_size 0 ≡ false = ground arith in
      (
        record {
          buffer = overwrite ys (blanks new_size);
          buf_size = new_size;
          write_idx = k % new_size;
          count = k;
        },
        rw (other, kept-Holds k xs r v (ground (arith, v.counted)), positive) refl,
        rw (← short) (resized-Holds new_size k ys pos (ground arith) len),
        refl,
      )
]

pub data Op : Type 0 where
  write_op : Sample → Op
  resize_op : ℕ → Op

unfoldable pub run : List Op → Ring → Option Ring
run [] r = some r
run (write_op s ∷ ops) r = write s r >>= run ops
run (resize_op n ∷ ops) r = resize n r >>= run ops

-- The same operations on the size and the list of the last samples.
unfoldable pub remember : List Op → ℕ → List Sample → List Sample
remember [] size xs = xs
remember (write_op s ∷ ops) size xs = remember ops size (last_n size (xs ++ s ∷ []))
remember (resize_op n ∷ ops) size xs = remember ops n (last_n n xs)

-- No operation resizes to 0.
abbrev pub no_zero : List Op → Bool
no_zero [] = true
no_zero (write_op s ∷ ops) = no_zero ops
no_zero (resize_op n ∷ ops) = ltb 0 n && no_zero ops

run-Holds :
    (ops : List Op) (xs : List Sample) (r : Ring)
    → no_zero ops ≡ true
    → Holds xs r
    → (r' : Ring) × (run ops r ≡ some r') × Holds (remember ops r.buf_size xs) r'
unfolding run remember
run-Holds [] xs r pos v = (r, refl, v)
run-Holds (write_op s ∷ ops) xs r pos v =
    let (r1, e1, v1, size1) = write-Holds s xs r v in
    let (r2, e2, v2) = run-Holds ops (last_n r.buf_size (xs ++ s ∷ [])) r1 pos v1 in
    (r2, rw e1 e2, rw size1 at v2)
run-Holds (resize_op n ∷ ops) xs r pos v =
    let (r1, e1, v1, size1) = resize-Holds n xs r v (ground arith) in
    let (r2, e2, v2) = run-Holds ops (last_n n xs) r1 (ground arith) v1 in
    (r2, rw e1 e2, rw size1 at v2)

-- After any samples and resizes to sizes above 0, on a new buffer of a size above 0, nothing has
-- panicked, and `ReadLastN` returns the last n of the samples that a list cut to the size at each
-- step still holds, oldest first.
pub run_refines :
    (ops : List Op) (size n : ℕ)
    → 0 < size
    → no_zero ops ≡ true
    → (run ops (new_ring size) >>= read_last_n n) ≡ some (last_n n (remember ops size []))
run_refines ops size n pos pos' =
    let (r, e, v) = run-Holds ops [] (new_ring size) pos' (new_ring-Holds size pos) in
    rw e (unfold new_ring in read_last_n-Holds n (remember ops size []) r v)
