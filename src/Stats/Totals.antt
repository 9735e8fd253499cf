-- ===== src/Stats/Totals.antt =====
-- The sums of the counters, modulo 2 ^ 64: for each poller and for the aggregates.
use snmpproxy.Base.{◌%◌, ◌≡◌, refl, Bool, true, false, [], ◌∷◌, Str, arith, if◌then◌else◌}
use snmpproxy.Base.Int64.{add64, word}
use snmpproxy.Stats.{
  PollerStats, Poll, Sums, StatsManager, record_poll, sum_where, no_totals, add_totals, aggregate,
  aggregate_by_namespace, aggregate_by_target,
}

-- Successes and failures make up the total.
abbrev pub IsBalanced : PollerStats → Type 0
IsBalanced s = add64 s.polls_success s.polls_failed ≡ s.polls_total % word

pub record_poll-IsBalanced :
    (p : Poll) (s : PollerStats) → IsBalanced s → IsBalanced (record_poll p s)
unfolding record_poll
record_poll-IsBalanced p s h = ground arith

abbrev pub AllBalanced : StatsManager → Type 0
AllBalanced [] = Unit
AllBalanced ((k, s) ∷ m) = IsBalanced s × AllBalanced m

abbrev pub SumsBalanced : Sums → Type 0
SumsBalanced t = add64 t.success t.failed ≡ t.total % word

add_totals-balanced :
    (t : Sums) (s : PollerStats) → SumsBalanced t → IsBalanced s → SumsBalanced (add_totals t s)
add_totals-balanced t s h k = omega arith

taken_or_left-balanced :
    (b : Bool) (t : Sums) (s : PollerStats)
    → SumsBalanced t
    → IsBalanced s
    → SumsBalanced (if b then add_totals t s else t)
taken_or_left-balanced true t s h k = add_totals-balanced t s h k
taken_or_left-balanced false t s h k = h

sum_where-balanced :
    (want : PollerStats → Bool) (t : Sums) (m : StatsManager)
    → SumsBalanced t
    → AllBalanced m
    → SumsBalanced (sum_where want t m)
unfolding sum_where
sum_where-balanced want t [] h k = h
sum_where-balanced want t ((key, s) ∷ m) h k =
    sum_where-balanced want (if want s then add_totals t s else t) m
      (taken_or_left-balanced (want s) t s h k.0) k.1

-- If in each poller's statistics the successes and failures make up the total, modulo 2 ^ 64, they
-- do so in the aggregates over all pollers, over a namespace and over a target.
pub aggregates_balanced :
    (m : StatsManager) (ns t : Str)
    → AllBalanced m
    → SumsBalanced (aggregate m)
      × SumsBalanced (aggregate_by_namespace ns m)
      × SumsBalanced (aggregate_by_target ns t m)
unfolding aggregate aggregate_by_namespace aggregate_by_target
aggregates_balanced m ns t h = (
  sum_where-balanced _ no_totals m refl h,
  sum_where-balanced _ no_totals m refl h,
  sum_where-balanced _ no_totals m refl h,
)
