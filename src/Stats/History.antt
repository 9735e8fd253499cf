-- ===== src/Stats/History.antt =====
-- The statistics after any polls, against a direct account of the polls.
use Prim.Native.Nat.{min, max}
use snmpproxy.Base.{
  ℕ, suc, ◌+◌, ◌/◌, ◌*◌, ◌^◌, ◌≤◌, ◌<◌, ◌≡◌, Bool, not, ◌&&◌, List, [], ◌∷◌, Str, arith, length,
  if◌then◌else◌,
}
use snmpproxy.Stats.{PollerStats, Poll, new_poller_stats, record_poll, get_stats}

-- The statistics after polls, the newest first.
unfoldable pub record_polls : List Poll → PollerStats → PollerStats
record_polls [] s = s
record_polls (p ∷ ps) s = record_poll p (record_polls ps s)

abbrev pub count_where : (Poll → Bool) → List Poll → ℕ
count_where want [] = 0
count_where want (p ∷ ps) = if want p then suc (count_where want ps) else count_where want ps

abbrev pub sum_ms : List Poll → ℕ
sum_ms [] = 0
sum_ms (p ∷ ps) = p.poll_ms + sum_ms ps

abbrev pub least_ms : Poll → List Poll → ℕ
least_ms p [] = p.poll_ms
least_ms p (q ∷ qs) = min p.poll_ms (least_ms q qs)

abbrev pub greatest_ms : Poll → List Poll → ℕ
greatest_ms p [] = p.poll_ms
greatest_ms p (q ∷ qs) = max p.poll_ms (greatest_ms q qs)

-- Every duration is below 2 ^ 31 milliseconds.
abbrev pub AllShort : List Poll → Type 0
AllShort [] = Unit
AllShort (p ∷ ps) = (p.poll_ms < 2 ^ 31) × AllShort ps

abbrev pub succeeded : Poll → Bool
succeeded p = p.success

abbrev pub failed_poll : Poll → Bool
failed_poll p = not p.success

abbrev pub timed_out : Poll → Bool
timed_out p = not p.success && p.timeout

pub record Tracks (p : Poll) (ps : List Poll) (s : PollerStats) : Type 0 where
  pub total : s.polls_total ≡ length (p ∷ ps)
  pub success : s.polls_success ≡ count_where succeeded (p ∷ ps)
  pub failed : s.polls_failed ≡ count_where failed_poll (p ∷ ps)
  pub timeout : s.polls_timeout ≡ count_where timed_out (p ∷ ps)
  pub sum : s.poll_ms_sum ≡ sum_ms (p ∷ ps)
  pub least : s.poll_ms_min ≡ least_ms p ps
  pub greatest : s.poll_ms_max ≡ greatest_ms p ps
  pub count : s.poll_ms_count ≡ length (p ∷ ps)

count_where-le : (want : Poll → Bool) (ps : List Poll) → count_where want ps ≤ length ps
count_where-le want [] = omega arith
count_where-le want (p ∷ ps) = ground (arith, count_where-le want ps)

sum_ms-le : (ps : List Poll) → AllShort ps → sum_ms ps ≤ length ps * 2 ^ 31
sum_ms-le [] h = omega arith
sum_ms-le (p ∷ ps) h = omega (arith, sum_ms-le ps h.1, h.0)

least_ms-lt : (p : Poll) (ps : List Poll) → p.poll_ms < 2 ^ 31 → least_ms p ps < 2 ^ 31
least_ms-lt p [] h = h
least_ms-lt p (q ∷ qs) h = omega arith

greatest_ms-lt :
    (p : Poll) (ps : List Poll) → p.poll_ms < 2 ^ 31 → AllShort ps → greatest_ms p ps < 2 ^ 31
greatest_ms-lt p [] h k = h
greatest_ms-lt p (q ∷ qs) h k = omega (arith, greatest_ms-lt q qs k.0 k.1)

Tracks-record_poll :
    (p q : Poll) (ps : List Poll) (s : PollerStats)
    → length (q ∷ ps) < 2 ^ 31
    → AllShort (p ∷ q ∷ ps)
    → Tracks q ps s
    → Tracks p (q ∷ ps) (record_poll p s)
unfolding record_poll
Tracks-record_poll p q ps s short all h = record {
  total = ground (arith, h.total);
  success = ground (arith, h.success, count_where-le succeeded (q ∷ ps));
  failed = ground (arith, h.failed, count_where-le failed_poll (q ∷ ps));
  timeout = ground (arith, h.timeout, count_where-le timed_out (q ∷ ps));
  sum = ground (arith, h.sum, sum_ms-le (q ∷ ps) all.1);
  least = ground (arith, h.least, least_ms-lt q ps all.1.0);
  greatest = ground (arith, h.greatest, greatest_ms-lt q ps all.1.0 all.1.1);
  count = ground (arith, h.count);
}

Tracks-first :
    (p : Poll) (ns t n : Str)
    → p.poll_ms < 2 ^ 31
    → Tracks p [] (record_poll p (new_poller_stats ns t n))
unfolding record_poll new_poller_stats
Tracks-first p ns t n h = ground arith

Tracks-record_polls :
    (p : Poll) (ps : List Poll) (ns t n : Str)
    → length (p ∷ ps) < 2 ^ 31
    → AllShort (p ∷ ps)
    → Tracks p ps (record_polls (p ∷ ps) (new_poller_stats ns t n))
unfolding record_polls
Tracks-record_polls p [] ns t n short all = Tracks-first p ns t n all.0
Tracks-record_polls p (q ∷ ps) ns t n short all =
    Tracks-record_poll p q ps (record_polls (q ∷ ps) (new_poller_stats ns t n)) (omega arith) all
      (Tracks-record_polls q ps ns t n (omega arith) all.1)

Tracks-get_stats :
    (p : Poll) (ps : List Poll) (s : PollerStats)
    → length (p ∷ ps) < 2 ^ 31
    → AllShort (p ∷ ps)
    → Tracks p ps s
    → get_stats s ≡ record {
      total = length (p ∷ ps);
      success = count_where succeeded (p ∷ ps);
      failed = count_where failed_poll (p ∷ ps);
      timeout = count_where timed_out (p ∷ ps);
      avg_ms = sum_ms (p ∷ ps) / length (p ∷ ps);
      min_ms = least_ms p ps;
      max_ms = greatest_ms p ps;
    }
unfolding get_stats
Tracks-get_stats p ps s short all h = ground (
  arith,
  h.total,
  h.success,
  h.failed,
  h.timeout,
  h.sum,
  h.least,
  h.greatest,
  h.count,
  sum_ms-le (p ∷ ps) all,
  least_ms-lt p ps all.0,
)

-- After one poll or more on fresh statistics, the newest first, fewer than 2 ^ 31 polls of less
-- than 2 ^ 31 ms each, `GetStats` returns the number of polls, of successes, of failures and of
-- failures by timeout, the mean duration rounded down, and the least and the greatest duration.
pub get_stats_exact :
    (p : Poll) (ps : List Poll) (ns t n : Str)
    → length (p ∷ ps) < 2 ^ 31
    → AllShort (p ∷ ps)
    → get_stats (record_polls (p ∷ ps) (new_poller_stats ns t n)) ≡ record {
      total = length (p ∷ ps);
      success = count_where succeeded (p ∷ ps);
      failed = count_where failed_poll (p ∷ ps);
      timeout = count_where timed_out (p ∷ ps);
      avg_ms = sum_ms (p ∷ ps) / length (p ∷ ps);
      min_ms = least_ms p ps;
      max_ms = greatest_ms p ps;
    }
get_stats_exact p ps ns t n short all =
    Tracks-get_stats p ps (record_polls (p ∷ ps) (new_poller_stats ns t n)) short all
      (Tracks-record_polls p ps ns t n short all)
