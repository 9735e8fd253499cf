-- ===== src/Target/Health.antt =====
-- The state, the counters and the durations of a target after any samples.
use snmpproxy.Base.{
  ℕ, suc, ◌+◌, ◌≤◌, ◌<◌, ◌≡◌, refl, ap, sym, Str, ◌∙◌, Option, none, some, List, [], ◌∷◌, ◌++◌,
  if◌then◌else◌, leb, length, arith,
}
use snmpproxy.Base.Int64.{half_word}
use snmpproxy.Base.Options.{◌>>=◌}
use snmpproxy.Ring.{Sample}
use snmpproxy.Ring.Holds.{Holds, last_n, write-Holds}
use snmpproxy.Ring.Refine.{new_ring-Holds}
use snmpproxy.Target.{
  or_default, CreateRequest, SnmpRequest, with_snmp, new_target, Target, TargetState, polling,
  unreachable, write_sample, count_sample, time_sample,
}

unfoldable pub write_samples : List Sample → Target → Option Target
write_samples [] t = some t
write_samples (s ∷ ss) t = write_sample s t >>= write_samples ss

-- The failed samples since the last valid one, on top of `n`.
abbrev pub failures_since : ℕ → List Sample → ℕ
failures_since n [] = n
failures_since n (s ∷ ss) = failures_since (if s.valid then 0 else suc n) ss

abbrev pub valid_count : List Sample → ℕ
valid_count [] = 0
valid_count (s ∷ ss) = if s.valid then suc (valid_count ss) else valid_count ss

abbrev pub state_for : ℕ → TargetState
state_for n = if leb 3 n then unreachable else polling

-- The target's account of the samples so far.
pub record Accounts (t : Target) : Type 0 where
  pub total : t.polls_total ≡ t.polls_ok + t.polls_failed
  pub state : t.state ≡ state_for t.err_count
  pub recent : t.err_count ≤ t.polls_failed

-- One more sample, in a ring that holds `xs`.
pub write_sample-Accounts :
    (s : Sample) (xs : List Sample) (t : Target)
    → Holds xs t.ring
    → Accounts t
    → suc t.polls_total < half_word
    → (t' : Target) × (write_sample s t ≡ some t')
      × Holds (last_n t.ring.buf_size (xs ++ s ∷ [])) t'.ring
      × (t'.ring.buf_size ≡ t.ring.buf_size)
      × Accounts t'
      × (t'.err_count ≡ (if s.valid then 0 else suc t.err_count))
      × (t'.polls_ok ≡ (if s.valid then suc t.polls_ok else t.polls_ok))
      × (t'.polls_total ≡ suc t.polls_total)
unfolding write_sample count_sample time_sample
write_sample-Accounts s xs t v a lt =
    let (r, e, v', size) = write-Holds s xs t.ring v in
    let t1 = time_sample s.poll_ms (count_sample s (record t { ring = r })) in
    (
      t1,
      (rw e refl),
      ground arith,
      ground arith,
      record { total = ground arith; state = ground arith; recent = ground arith },
      ground arith,
      ground arith,
      ground arith,
    )

write_samples-Accounts :
    (ss : List Sample) (xs : List Sample) (t : Target)
    → Holds xs t.ring
    → Accounts t
    → t.polls_total + length ss < half_word
    → (t' : Target) × (write_samples ss t ≡ some t')
      × Accounts t'
      × (t'.err_count ≡ failures_since t.err_count ss)
      × (t'.polls_ok ≡ t.polls_ok + valid_count ss)
      × (t'.polls_total ≡ t.polls_total + length ss)
unfolding write_samples
write_samples-Accounts [] xs t v a lt = (t, refl, a, refl, ground arith, ground arith)
write_samples-Accounts (s ∷ ss) xs t v a lt =
    let (t1, e, v1, size, a1, errs, ok, total) = write_sample-Accounts s xs t v a (ground arith) in
    let (t2, e2, a2, errs2, ok2, total2) =
      write_samples-Accounts ss (last_n t.ring.buf_size (xs ++ s ∷ [])) t1 v1 a1 (ground arith) in
    (t2, (rw e e2), a2, errs2 ∙ ap (λ n. failures_since n ss) errs, ground arith, ground arith)

-- Nothing is counted yet and no sample is held.
abbrev Fresh : Target → Type 0
Fresh t = Holds [] t.ring × Accounts t × (t.err_count ≡ 0) × (t.polls_ok ≡ 0) × (t.polls_total ≡ 0)

with_snmp-Fresh : (o : Option SnmpRequest) (t : Target) → Fresh t → Fresh (with_snmp o t)
with_snmp-Fresh none t h = h
with_snmp-Fresh (some c) t (v, a, errs, ok, total) =
    (v, record { total = a.total; state = a.state; recent = a.recent }, errs, ok, total)

new_target-Fresh :
    (id : Str) (req : CreateRequest) (default_size now : ℕ)
    → 0 < or_default req.buffer_size default_size
    → Fresh (new_target id req default_size now)
unfolding new_target
new_target-Fresh id req default_size now lt = with_snmp-Fresh req.snmp _ (
  new_ring-Holds (or_default req.buffer_size default_size) lt,
  record { total = refl; state = refl; recent = ground arith },
  refl,
  refl,
  refl,
)

-- A new target whose buffer is not empty takes any samples, fewer than 2 ^ 63, without a panic.
-- Then its polls_total counts all of them, its polls_ok the valid ones and its polls_failed the
-- rest; its err_count is the number of failed samples since the last valid one, and it is
-- unreachable exactly if those are three or more.
pub write_sample_health :
    (id : Str) (req : CreateRequest) (default_size now : ℕ) (ss : List Sample)
    → 0 < or_default req.buffer_size default_size
    → length ss < half_word
    → (t : Target) × (write_samples ss (new_target id req default_size now) ≡ some t)
      × (t.polls_total ≡ length ss)
      × (t.polls_ok ≡ valid_count ss)
      × (t.polls_ok + t.polls_failed ≡ t.polls_total)
      × (t.err_count ≡ failures_since 0 ss)
      × (t.state ≡ state_for (failures_since 0 ss))
write_sample_health id req default_size now ss pos lt =
    let (v, a, errs, ok, total) = new_target-Fresh id req default_size now pos in
    let (t, e, a', errs', ok', total') =
      write_samples-Accounts ss [] (new_target id req default_size now) v a (ground arith) in
    let since : t.err_count ≡ failures_since 0 ss = errs' ∙ ap (λ n. failures_since n ss) errs in
    (t, e, ground arith, ground arith, sym a'.total, since, a'.state ∙ ap state_for since)
