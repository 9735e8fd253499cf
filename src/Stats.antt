-- ===== src/Stats.antt =====
-- Poll counters and timings: PollerStats and StatsManager of internal/manager/stats.go. Each field
-- is the bit pattern of an int64 or int. The counters are bumped one after another, so that
-- `RecordPoll` is one step only with respect to readers that wait for it to end.
pub mod History
pub mod Totals
use snmpproxy.Base.{
  ℕ, ◌+◌, Bool, true, false, ◌&&◌, ◌||◌, Option, none, some, List, [], ◌∷◌, Str, str_eq, str_beq,
  if◌then◌else◌, leb,
}
use snmpproxy.Base.Int64.{add64, slt, sdiv, half_word, minus_one}
use snmpproxy.Base.Map
use snmpproxy.Base.Map.{Map}
use snmpproxy.State.{poller_key}

pub record PollerStats : Type 0 where
  pub namespace : Str
  pub target : Str
  pub poller : Str
  pub polls_total : ℕ
  pub polls_success : ℕ
  pub polls_failed : ℕ
  pub polls_timeout : ℕ
  pub poll_ms_sum : ℕ
  pub poll_ms_min : ℕ
  pub poll_ms_max : ℕ
  pub poll_ms_count : ℕ
  pub dirty : Bool

unfoldable pub new_poller_stats : Str → Str → Str → PollerStats
new_poller_stats ns t p = record {
  namespace = ns;
  target = t;
  poller = p;
  polls_total = 0;
  polls_success = 0;
  polls_failed = 0;
  polls_timeout = 0;
  poll_ms_sum = 0;
  poll_ms_min = minus_one;
  poll_ms_max = 0;
  poll_ms_count = 0;
  dirty = false;
}

-- The outcome of one poll, as `RecordPoll` is told it.
pub record Poll : Type 0 where
  pub success : Bool
  pub timeout : Bool
  pub poll_ms : ℕ

-- The atomic counters.
unfoldable pub count_poll : Bool → Bool → PollerStats → PollerStats
count_poll true timeout s = record s {
  polls_total = add64 s.polls_total 1;
  polls_success = add64 s.polls_success 1;
}
count_poll false true s = record s {
  polls_total = add64 s.polls_total 1;
  polls_failed = add64 s.polls_failed 1;
  polls_timeout = add64 s.polls_timeout 1;
}
count_poll false false s = record s {
  polls_total = add64 s.polls_total 1;
  polls_failed = add64 s.polls_failed 1;
}

-- The timings, under the lock.
unfoldable pub time_poll : ℕ → PollerStats → PollerStats
time_poll ms s = record s {
  poll_ms_sum = add64 s.poll_ms_sum ms;
  poll_ms_count = add64 s.poll_ms_count 1;
  poll_ms_min = if slt s.poll_ms_min 0 || slt ms s.poll_ms_min then ms else s.poll_ms_min;
  poll_ms_max = if slt s.poll_ms_max ms then ms else s.poll_ms_max;
}

-- `RecordPoll`
unfoldable pub record_poll : Poll → PollerStats → PollerStats
unfolding count_poll time_poll
record_poll p s =
    let counted = time_poll p.poll_ms (count_poll p.success p.timeout s) in
    record counted { dirty = true }

-- What `GetStats` returns.
pub record Snapshot : Type 0 where
  pub total : ℕ
  pub success : ℕ
  pub failed : ℕ
  pub timeout : ℕ
  pub avg_ms : ℕ
  pub min_ms : ℕ
  pub max_ms : ℕ

unfoldable pub get_stats : PollerStats → Snapshot
get_stats s = record {
  total = s.polls_total;
  success = s.polls_success;
  failed = s.polls_failed;
  timeout = s.polls_timeout;
  avg_ms = if slt 0 s.poll_ms_count then sdiv s.poll_ms_sum s.poll_ms_count else 0;
  min_ms = if slt s.poll_ms_min 0 then 0 else s.poll_ms_min;
  max_ms = s.poll_ms_max;
}

unfoldable pub is_dirty : PollerStats → Bool
is_dirty s = s.dirty

unfoldable pub clear_dirty : PollerStats → PollerStats
clear_dirty s = record s { dirty = false }

unfoldable pub reset : PollerStats → PollerStats
reset s = record s {
  polls_total = 0;
  polls_success = 0;
  polls_failed = 0;
  polls_timeout = 0;
  poll_ms_sum = 0;
  poll_ms_min = minus_one;
  poll_ms_max = 0;
  poll_ms_count = 0;
  dirty = true;
}

-- StatsManager: the statistics of each poller under its key.
abbrev pub StatsManager : Type 0
StatsManager = Map Str PollerStats

abbrev get_found :
    Option PollerStats → Str → PollerStats → StatsManager → PollerStats × StatsManager
get_found (some s) key fresh m = (s, m)
get_found none key fresh m = (fresh, Map.put m key fresh)

-- `Get` makes a missing entry.
unfoldable pub get : Str → Str → Str → StatsManager → PollerStats × StatsManager
get ns t p m =
    let key = poller_key ns t p in get_found (Map.get m key) key (new_poller_stats ns t p) m

-- `Remove`
unfoldable pub remove : Str → Str → Str → StatsManager → StatsManager
remove ns t p m = Map.delete m (poller_key ns t p)

-- `GetDirty`
unfoldable pub get_dirty : StatsManager → List PollerStats
unfolding is_dirty
get_dirty [] = []
get_dirty ((k, s) ∷ m) = if is_dirty s then s ∷ get_dirty m else get_dirty m

pub record Sums : Type 0 where
  pub total : ℕ
  pub success : ℕ
  pub failed : ℕ
  pub timeout : ℕ

abbrev pub add_totals : Sums → PollerStats → Sums
add_totals t s = record {
  total = add64 t.total s.polls_total;
  success = add64 t.success s.polls_success;
  failed = add64 t.failed s.polls_failed;
  timeout = add64 t.timeout s.polls_timeout;
}

-- The loop of the three aggregates, over the entries that `want` accepts.
unfoldable pub sum_where : (PollerStats → Bool) → Sums → StatsManager → Sums
sum_where want t [] = t
sum_where want t ((k, s) ∷ m) = sum_where want (if want s then add_totals t s else t) m

abbrev pub no_totals : Sums
no_totals = record { total = 0; success = 0; failed = 0; timeout = 0 }

-- `Aggregate`
unfoldable pub aggregate : StatsManager → Sums
aggregate m = sum_where (λ s. true) no_totals m

-- `AggregateByNamespace`, which returns the first three of the totals.
unfoldable pub aggregate_by_namespace : Str → StatsManager → Sums
aggregate_by_namespace ns m = sum_where (λ s. str_beq s.namespace ns) no_totals m

-- `AggregateByTarget`, likewise.
unfoldable pub aggregate_by_target : Str → Str → StatsManager → Sums
aggregate_by_target ns t m =
    sum_where (λ s. str_beq s.namespace ns && str_beq s.target t) no_totals m
