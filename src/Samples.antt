-- ===== src/Samples.antt =====
-- The sample buffer of the sync manager in internal/manager/sync.go. A flush takes the buffer under
-- the lock and inserts it into the store without it, so that other goroutines run in between: the
-- two halves are steps of their own, and a taken batch is in flight until its insertion. What is
-- in the store, and what the store refused, is recorded.
use snmpproxy.Base.{
  ℕ, zero, suc, ◌+◌, ◌<◌, ◌≡◌, refl, ap, sym, ◌∙◌, Bool, true, false, ◌&&◌, Option, none, some,
  List, [], ◌∷◌, ◌++◌, if◌then◌else◌, leb, nat_beq, length, get_elem?, arith, Bool-cases,
  Option-cases, inl, inr,
}

pub record SampleBuffer (A : Type 0) : Type 0 where
  pub buffer : List A
  pub batch_size : ℕ
  pub in_flight : List (List A)
  pub stored : List A
  pub refused : List A

pub data SampleStep (A : Type 0) : Type 0 where
  append_sample : A → SampleStep A
  take_buffer : SampleStep A
  insert_batch : ℕ → Bool → SampleStep A

module _ {A : Type 0} where
  abbrev pub remove_at : ℕ → List (List A) → List (List A)
  remove_at i [] = []
  remove_at zero (b ∷ bs) = bs
  remove_at (suc i) (b ∷ bs) = b ∷ remove_at i bs

  abbrev pub insert_taken : Option (List A) → ℕ → Bool → SampleBuffer A → SampleBuffer A
  insert_taken none i done s = s
  insert_taken (some b) i true s = record s {
    in_flight = remove_at i s.in_flight;
    stored = s.stored ++ b;
  }
  insert_taken (some b) i false s = record s {
    in_flight = remove_at i s.in_flight;
    refused = s.refused ++ b;
  }

  -- The critical section of `AddSample`, that of `flushSamples`, and the insertion of the batch that
  -- is the `i`-th in flight, with the store's answer.
  unfoldable pub sample_step : SampleStep A → SampleBuffer A → SampleBuffer A
  sample_step (append_sample a) s = record s { buffer = s.buffer ++ a ∷ [] }
  sample_step take_buffer s =
      if nat_beq (length s.buffer) 0
      then s
      else record s { buffer = []; in_flight = s.in_flight ++ s.buffer ∷ [] }
  sample_step (insert_batch i done) s = insert_taken (get_elem? s.in_flight i) i done s

  unfoldable pub sample_steps : List (SampleStep A) → SampleBuffer A → SampleBuffer A
  sample_steps [] s = s
  sample_steps (x ∷ xs) s = sample_steps xs (sample_step x s)

  -- `flushSamples` with nothing in between; it inserts the batch that it has just taken.
  unfoldable pub flush_samples : Bool → SampleBuffer A → SampleBuffer A
  unfolding sample_step
  flush_samples done s =
      if nat_beq (length s.buffer) 0
      then s
      else sample_step (insert_batch (length s.in_flight) done) (sample_step take_buffer s)

  -- `AddSample` with nothing in between.
  unfoldable pub add_sample : A → Bool → SampleBuffer A → SampleBuffer A
  add_sample a done s =
      let s' = sample_step (append_sample a) s in
      let flushed = flush_samples done s' in
      if leb s'.batch_size (length s'.buffer) then flushed else s'

  -- How many of the samples pass a test.
  abbrev pub count : (A → Bool) → List A → ℕ
  count p [] = 0
  count p (a ∷ as') = if p a then suc (count p as') else count p as'

  abbrev pub count_all : (A → Bool) → List (List A) → ℕ
  count_all p [] = 0
  count_all p (b ∷ bs) = count p b + count_all p bs

  abbrev pub appended : List (SampleStep A) → List A
  appended [] = []
  appended (append_sample a ∷ xs) = a ∷ appended xs
  appended (take_buffer ∷ xs) = appended xs
  appended (insert_batch i done ∷ xs) = appended xs

  abbrev pub all_inserted : List (SampleStep A) → Bool
  all_inserted [] = true
  all_inserted (append_sample a ∷ xs) = all_inserted xs
  all_inserted (take_buffer ∷ xs) = all_inserted xs
  all_inserted (insert_batch i done ∷ xs) = done && all_inserted xs

  -- Where the samples that pass the test are.
  abbrev pub total : (A → Bool) → SampleBuffer A → ℕ
  total p s = count p s.buffer + count_all p s.in_flight + count p s.stored + count p s.refused

  count-append : (p : A → Bool) (xs ys : List A) → count p (xs ++ ys) ≡ count p xs + count p ys
  count-append p [] ys = omega arith
  count-append p (x ∷ xs) ys = ground (arith, count-append p xs ys)

  count_all-append_one :
      (p : A → Bool) (bs : List (List A)) (b : List A)
      → count_all p (bs ++ b ∷ []) ≡ count_all p bs + count p b
  count_all-append_one p [] b = omega arith
  count_all-append_one p (c ∷ bs) b = omega (arith, count_all-append_one p bs b)

  count_all-remove_at :
      (p : A → Bool) (bs : List (List A)) (i : ℕ) (b : List A)
      → get_elem? bs i ≡ some b
      → count_all p (remove_at i bs) + count p b ≡ count_all p bs
  count_all-remove_at p [] i b e = ground arith
  count_all-remove_at p (c ∷ bs) zero b e = let same : c ≡ b = cc in rw same (omega arith)
  count_all-remove_at p (c ∷ bs) (suc i) b e = omega (arith, count_all-remove_at p bs i b e)

  total-insert_taken :
      (p : A → Bool) (i : ℕ) (done : Bool) (s : SampleBuffer A)
      → total p (insert_taken (get_elem? s.in_flight i) i done s) ≡ total p s
  total-insert_taken p i done s = elim (Option-cases (get_elem? s.in_flight i)) [
    | inl e ↦ rw e refl
    | inr (b, e) ↦ rw e (elim (Bool-cases done) [
      | inl f ↦
          rw f (omega (arith, count-append p s.stored b, count_all-remove_at p s.in_flight i b e))
      | inr f ↦
          rw f (omega (arith, count-append p s.refused b, count_all-remove_at p s.in_flight i b e))
    ])
  ]

  total-take_buffer :
      (p : A → Bool) (s : SampleBuffer A) → total p (sample_step take_buffer s) ≡ total p s
  unfolding sample_step
  total-take_buffer p s = elim (Bool-cases (nat_beq (length s.buffer) 0)) [
    | inl e ↦ rw e refl
    | inr e ↦ rw e (omega (arith, count_all-append_one p s.in_flight s.buffer))
  ]

  -- In any interleaving of additions and of the two halves of flushes, no sample is lost or
  -- duplicated: of the samples of any kind, those in the buffer, in flight, in the store and refused
  -- by the store are together those from before and those that were added.
  pub samples_conserved :
      (p : A → Bool) (xs : List (SampleStep A)) (s : SampleBuffer A)
      → total p (sample_steps xs s) ≡ total p s + count p (appended xs)
  unfolding sample_steps
  samples_conserved p [] s = omega arith
  samples_conserved p (append_sample a ∷ xs) s =
      samples_conserved p xs (sample_step (append_sample a) s)
      ∙ unfold sample_step in ground (arith, count-append p s.buffer (a ∷ []))
  samples_conserved p (take_buffer ∷ xs) s =
      samples_conserved p xs (sample_step take_buffer s) ∙ rw (total-take_buffer p s) refl
  samples_conserved p (insert_batch i done ∷ xs) s =
      samples_conserved p xs (sample_step (insert_batch i done) s)
      ∙ unfold sample_step in rw (total-insert_taken p i done s) refl

  refused-insert_taken :
      (o : Option (List A)) (i : ℕ) (s : SampleBuffer A)
      → (insert_taken o i true s).refused ≡ s.refused
  refused-insert_taken none i s = refl
  refused-insert_taken (some b) i s = refl

  refused-sample_step :
      (x : SampleStep A) (s : SampleBuffer A)
      → all_inserted (x ∷ []) ≡ true
      → (sample_step x s).refused ≡ s.refused
  unfolding sample_step
  refused-sample_step (append_sample a) s h = refl
  refused-sample_step take_buffer s h = ground arith
  refused-sample_step (insert_batch i true) s h = refused-insert_taken (get_elem? s.in_flight i) i s
  refused-sample_step (insert_batch i false) s h = ground arith

  -- If the store takes every batch, it refuses no sample, in any interleaving.
  pub refused-sample_steps :
      (xs : List (SampleStep A)) (s : SampleBuffer A)
      → all_inserted xs ≡ true
      → (sample_steps xs s).refused ≡ s.refused
  unfolding sample_steps
  refused-sample_steps [] s h = refl
  refused-sample_steps (append_sample a ∷ xs) s h =
      refused-sample_steps xs (sample_step (append_sample a) s) h
      ∙ refused-sample_step (append_sample a) s refl
  refused-sample_steps (take_buffer ∷ xs) s h =
      refused-sample_steps xs (sample_step take_buffer s) h ∙ refused-sample_step take_buffer s refl
  refused-sample_steps (insert_batch i done ∷ xs) s h =
      refused-sample_steps xs (sample_step (insert_batch i done) s) (ground arith)
      ∙ refused-sample_step (insert_batch i done) s (ground arith)

  get_elem?-last : (bs : List (List A)) (b : List A) → get_elem? (bs ++ b ∷ []) (length bs) ≡ some b
  get_elem?-last [] b = refl
  get_elem?-last (c ∷ bs) b = get_elem?-last bs b

  remove_at-last : (bs : List (List A)) (b : List A) → remove_at (length bs) (bs ++ b ∷ []) ≡ bs
  remove_at-last [] b = refl
  remove_at-last (c ∷ bs) b = ap (◌∷◌ c) (remove_at-last bs b)

  nil_of_empty : (xs : List A) → nat_beq (length xs) 0 ≡ true → xs ≡ []
  nil_of_empty [] h = refl
  nil_of_empty (x ∷ xs) h = ground arith

  append_nil : (xs ys : List A) → ys ≡ [] → xs ≡ xs ++ ys
  append_nil [] ys h = sym h
  append_nil (x ∷ xs) ys h = ap (◌∷◌ x) (append_nil xs ys h)

  moved_by : (done : Bool) (xs ys : List A) → ys ≡ [] → xs ≡ (if done then xs ++ ys else xs)
  moved_by true xs ys h = append_nil xs ys h
  moved_by false xs ys h = refl

  kept_by : (done : Bool) (xs ys : List A) → ys ≡ [] → xs ≡ (if done then xs else xs ++ ys)
  kept_by true xs ys h = refl
  kept_by false xs ys h = append_nil xs ys h

  insert_last :
      (done : Bool) (s : SampleBuffer A) (b : List A) (bs : List (List A))
      → s.in_flight ≡ bs ++ b ∷ []
      → insert_taken (some b) (length bs) done s ≡ record s {
        in_flight = bs;
        stored = if done then s.stored ++ b else s.stored;
        refused = if done then s.refused else s.refused ++ b;
      }
  insert_last true s b bs e = rw e (rw (remove_at-last bs b) refl)
  insert_last false s b bs e = rw e (rw (remove_at-last bs b) refl)

  -- A flush with nothing in between leaves the buffer empty and what was in flight as it was; it
  -- appends the buffer, in its order, to the store, or to what the store refused.
  pub flush_samples_exact :
      (done : Bool) (s : SampleBuffer A)
      → flush_samples done s ≡ record s {
        buffer = [];
        stored = if done then s.stored ++ s.buffer else s.stored;
        refused = if done then s.refused else s.refused ++ s.buffer;
      }
  unfolding flush_samples sample_step
  flush_samples_exact done s = elim (Bool-cases (nat_beq (length s.buffer) 0)) [
    | inl e ↦
        let n = nil_of_empty s.buffer e in
        let st = moved_by done s.stored s.buffer n in
        let rf = kept_by done s.refused s.buffer n in
        rw e (λ i. record s { buffer = n i; stored = st i; refused = rf i })
    | inr e ↦ rw e (
        rw (get_elem?-last s.in_flight s.buffer) (
          insert_last done (record s { buffer = []; in_flight = s.in_flight ++ s.buffer ∷ [] })
            s.buffer s.in_flight refl))
  ]

  -- An addition with nothing in between, to a buffer below the batch size, leaves it below.
  pub add_sample_bounded :
      (a : A) (done : Bool) (s : SampleBuffer A)
      → length s.buffer < s.batch_size
      → length (add_sample a done s).buffer < (add_sample a done s).batch_size
  unfolding add_sample sample_step
  add_sample_bounded a done s h =
      let s' = sample_step (append_sample a) s in
      elim (Bool-cases (leb s.batch_size (length (s.buffer ++ a ∷ [])))) [
        | inl e ↦ rw e (rw (flush_samples_exact done s') (ground arith))
        | inr e ↦ rw e (ground arith)
      ]
