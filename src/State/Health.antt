-- ===== src/State/Health.antt =====
-- The health state as a function of the poll results.
use snmpproxy.Base.{
  ℕ, zero, suc, ◌+◌, ◌≤◌, ◌<◌, ◌≡◌, refl, Bool, true, false, Str, arith, leb, if◌then◌else◌,
}
use snmpproxy.Base.Int64.{half_word}
use snmpproxy.State.{PollerState, HealthState, up, degraded, down, record_poll_result}

-- `n` more results, all alike, at the times and with the messages given by functions.
unfoldable pub record_polls : (ℕ → ℕ) → (ℕ → Str) → Bool → ℕ → PollerState → PollerState
record_polls now msg success zero s = s
record_polls now msg success (suc n) s =
    record_polls now msg success n (record_poll_result (now n) success (msg n) s)

-- The health after failures: `k` in a row by now, `h` before them.
abbrev pub health_of_failures : ℕ → HealthState → HealthState
health_of_failures k h = if leb 5 k then down else if leb 3 k then degraded else h

-- The health after successes: `k` in a row by now, `h` before them.
abbrev pub health_of_successes : ℕ → HealthState → HealthState
health_of_successes k down = if leb 2 k then up else down
health_of_successes k h = up

failure_step :
    (now : ℕ) (msg : Str) (s : PollerState)
    → s.consecutive_failures + 1 < half_word
    → ((record_poll_result now false msg s).consecutive_failures ≡ s.consecutive_failures + 1)
      × ((record_poll_result now false msg s).health_state
          ≡ health_of_failures (s.consecutive_failures + 1) s.health_state)
unfolding record_poll_result
failure_step now msg s h = ground arith

success_step :
    (now : ℕ) (msg : Str) (s : PollerState)
    → s.recent_successes + 1 < half_word
    → ((record_poll_result now true msg s).recent_successes ≡ s.recent_successes + 1)
      × ((record_poll_result now true msg s).health_state
          ≡ health_of_successes (s.recent_successes + 1) s.health_state)
unfolding record_poll_result
success_step now msg s h = ground arith

failures_again :
    (a b : ℕ) (h : HealthState)
    → a ≤ b
    → health_of_failures b (health_of_failures a h) ≡ health_of_failures b h
failures_again a b h le = ground arith

successes_again :
    (a b : ℕ) (h : HealthState)
    → a < b
    → 0 < a
    → health_of_successes b (health_of_successes a h) ≡ health_of_successes b h
successes_again a b h lt pos = ground arith

-- After n + 1 failed polls in a row the failure count has grown by n + 1, and the health is down
-- from five failures on, degraded from three on, and as before under three. The count must stay
-- below 2 ^ 63.
pub record_polls-failures :
    (now : ℕ → ℕ) (msg : ℕ → Str) (n : ℕ) (s : PollerState)
    → s.consecutive_failures + suc n < half_word
    → let t = record_polls now msg false (suc n) s in
      (t.consecutive_failures ≡ s.consecutive_failures + suc n)
      × (t.health_state ≡ health_of_failures (s.consecutive_failures + suc n) s.health_state)
      × (t.recent_successes ≡ 0)
unfolding record_polls
record_polls-failures now msg zero s h =
    let (count, health) = failure_step (now 0) (msg 0) s (omega arith) in
    (ground arith, ground arith, unfold record_poll_result in refl)
record_polls-failures now msg (suc n) s h =
    let s' = record_poll_result (now (suc n)) false (msg (suc n)) s in
    let (count, health) = failure_step (now (suc n)) (msg (suc n)) s (omega arith) in
    let (count', health', zero') = record_polls-failures now msg n s' (omega arith) in
    let again =
      failures_again (s.consecutive_failures + 1) (s.consecutive_failures + suc (suc n))
        s.health_state (omega arith) in
    let sum : s'.consecutive_failures + suc n ≡ s.consecutive_failures + suc (suc n) =
      omega arith in
    (omega arith, cc, zero')

-- After n + 1 successful polls in a row the success count has grown by n + 1, no failure is
-- counted, and the health is up, unless it was down and fewer than two successes are counted. The
-- count must stay below 2 ^ 63.
pub record_polls-successes :
    (now : ℕ → ℕ) (msg : ℕ → Str) (n : ℕ) (s : PollerState)
    → s.recent_successes + suc n < half_word
    → let t = record_polls now msg true (suc n) s in
      (t.recent_successes ≡ s.recent_successes + suc n)
      × (t.health_state ≡ health_of_successes (s.recent_successes + suc n) s.health_state)
      × (t.consecutive_failures ≡ 0)
unfolding record_polls
record_polls-successes now msg zero s h =
    let (count, health) = success_step (now 0) (msg 0) s (omega arith) in
    (ground arith, ground arith, unfold record_poll_result in refl)
record_polls-successes now msg (suc n) s h =
    let s' = record_poll_result (now (suc n)) true (msg (suc n)) s in
    let (count, health) = success_step (now (suc n)) (msg (suc n)) s (omega arith) in
    let (count', health', zero') = record_polls-successes now msg n s' (omega arith) in
    let again =
      successes_again (s.recent_successes + 1) (s.recent_successes + suc (suc n)) s.health_state
        (omega arith) (omega arith) in
    let sum : s'.recent_successes + suc n ≡ s.recent_successes + suc (suc n) = omega arith in
    (omega arith, cc, zero')
