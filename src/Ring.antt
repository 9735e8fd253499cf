-- ===== src/Ring.antt =====
-- The ring buffer of samples in Target of internal/server/poller.go: the fields buffer, bufSize,
-- writeIdx and count, and the methods that read and write them. `none` is a panic: an index out of
-- range, or a remainder by 0. Sizes and counts are far below 2 ^ 63.
pub mod Holds
pub mod Refine
use snmpproxy.Base.{
  ℕ, zero, suc, ◌+◌, ◌-◌, ◌%◌, Bool, true, false, Option, none, some, List, [], ◌∷◌, ◌++◌, Str,
  if◌then◌else◌, ltb, nat_beq, length, get_elem?, set,
}
use snmpproxy.Base.Options.{◌>>=◌}

pub record Sample : Type 0 where
  pub timestamp_ms : ℕ
  pub counter : ℕ
  pub text : Str
  pub valid : Bool
  pub error : Str
  pub poll_ms : ℕ

-- The zero value that `make` fills a buffer with.
abbrev pub blank : Sample
blank = record { timestamp_ms = 0; counter = 0; text = []; valid = false; error = []; poll_ms = 0 }

pub record Ring : Type 0 where
  pub buffer : List Sample
  pub buf_size : ℕ
  pub write_idx : ℕ
  pub count : ℕ

-- `make([]Sample, n)`
abbrev pub blanks : ℕ → List Sample
blanks zero = []
blanks (suc n) = blank ∷ blanks n

-- The buffer of a new target.
unfoldable pub new_ring : ℕ → Ring
new_ring size = record { buffer = blanks size; buf_size = size; write_idx = 0; count = 0 }

-- The first block of `WriteSample`.
unfoldable pub write : Sample → Ring → Option Ring
write s r =
    if ltb r.write_idx (length r.buffer)
    then some (record {
      buffer = set r.buffer r.write_idx s;
      buf_size = r.buf_size;
      write_idx = (r.write_idx + 1) % r.buf_size;
      count = if ltb r.count r.buf_size then r.count + 1 else r.count;
    })
    else none

-- The loop `result[i] = t.buffer[(start+i)%t.bufSize]`, from `i` on for `n` rounds.
unfoldable pub copy_from : List Sample → ℕ → ℕ → ℕ → ℕ → Option (List Sample)
copy_from buffer size start i zero = some []
copy_from buffer size start i (suc n) = get_elem? buffer ((start + i) % size) >>= λ s.
    copy_from buffer size start (suc i) n >>= λ rest. some (s ∷ rest)

abbrev pub at_most : ℕ → ℕ → ℕ
at_most limit n = if ltb limit n then limit else n

-- `ReadLastN` for an n that is not negative.
unfoldable pub read_last_n : ℕ → Ring → Option (List Sample)
read_last_n n r =
    let k = at_most r.count n in
    if nat_beq k 0
    then some []
    else copy_from r.buffer r.buf_size ((r.write_idx + r.buf_size - k) % r.buf_size) 0 k

-- The last loop of `ResizeBuffer`, from the first index on.
abbrev pub overwrite : List Sample → List Sample → List Sample
overwrite [] buffer = buffer
overwrite (s ∷ ss) [] = []
overwrite (s ∷ ss) (b ∷ bs) = s ∷ overwrite ss bs

-- The samples that `ResizeBuffer` keeps, `k` of them.
unfoldable pub kept : ℕ → Ring → Option (List Sample)
kept k r =
    let skip = r.count - k in
    let start = (r.write_idx + skip + r.buf_size - r.count) % r.buf_size in
    if ltb 0 k then copy_from r.buffer r.buf_size start 0 k else some []

-- `ResizeBuffer`
unfoldable pub resize : ℕ → Ring → Option Ring
unfolding kept
resize new_size r =
    let k = at_most new_size r.count in
    let moved = kept k r >>= λ samples.
    if nat_beq new_size 0
    then none
    else some (record {
      buffer = overwrite samples (blanks new_size);
      buf_size = new_size;
      write_idx = k % new_size;
      count = k;
    }) in
    if nat_beq new_size r.buf_size then some r else moved
