-- ===== src/State/Manager.antt =====
-- StateManager of internal/manager/state.go: the states of all pollers under their keys. Each method
-- runs under the lock. The counts are kept under the texts of the constants.
use snmpproxy.Base.{
  ℕ, suc, ◌+◌, ◌≡◌, refl, false, Option, none, some, List, [], ◌∷◌, Str, str_eq, str_beq,
  str_beq_iff, if◌then◌else◌, length, arith, Option-cases, inl, inr,
}
use snmpproxy.Base.Map
use snmpproxy.Base.Map.{Map, get-put, get-delete}
use snmpproxy.Base.Text.{lit}
use snmpproxy.State.{
  PollerState, OperState, HealthState, stopped, starting, running, stopping, error, unknown, up,
  degraded, down, new_poller_state, poller_key, is_dirty,
}

abbrev pub StateManager : Type 0
StateManager = Map Str PollerState

abbrev found_or_new :
    Option PollerState → Str → PollerState → StateManager → PollerState × StateManager
found_or_new (some s) key fresh m = (s, m)
found_or_new none key fresh m = (fresh, Map.put m key fresh)

-- `Get`, whose two lookups see the same map here.
unfoldable pub get : Str → Str → Str → StateManager → PollerState × StateManager
get ns t p m =
    let key = poller_key ns t p in found_or_new (Map.get m key) key (new_poller_state ns t p) m

-- `Remove`
unfoldable pub remove : Str → Str → Str → StateManager → StateManager
remove ns t p m = Map.delete m (poller_key ns t p)

-- `GetDirty`
unfoldable pub get_dirty : StateManager → List PollerState
get_dirty [] = []
get_dirty ((k, s) ∷ m) = if is_dirty s then s ∷ get_dirty m else get_dirty m

-- `GetAll`
unfoldable pub get_all : StateManager → List PollerState
get_all [] = []
get_all ((k, s) ∷ m) = s ∷ get_all m

-- `Count`
unfoldable pub count : StateManager → ℕ
count m = length m

abbrev pub oper_text : OperState → Str
oper_text stopped = lit "stopped"
oper_text starting = lit "starting"
oper_text running = lit "running"
oper_text stopping = lit "stopping"
oper_text error = lit "error"
oper_text (OperState.other x) = x

abbrev pub health_text : HealthState → Str
health_text unknown = lit "unknown"
health_text up = lit "up"
health_text degraded = lit "degraded"
health_text down = lit "down"
health_text (HealthState.other x) = x

abbrev pub or_zero : Option ℕ → ℕ
or_zero none = 0
or_zero (some n) = n

-- `counts[text]++` for each state
unfoldable pub count_by : (PollerState → Str) → StateManager → Map Str ℕ → Map Str ℕ
count_by text [] counts = counts
count_by text ((k, s) ∷ m) counts =
    count_by text m (Map.put counts (text s) (or_zero (Map.get counts (text s)) + 1))

-- `CountByOperState`
unfoldable pub count_by_oper_state : StateManager → Map Str ℕ
unfolding count_by
count_by_oper_state m = count_by (λ s. oper_text s.oper_state) m []

-- `CountByHealthState`
unfoldable pub count_by_health_state : StateManager → Map Str ℕ
unfolding count_by
count_by_health_state m = count_by (λ s. health_text s.health_state) m []

-- How many of the states have this text.
abbrev pub having : (PollerState → Str) → Str → List PollerState → ℕ
having text x [] = 0
having text x (s ∷ ss) = if str_beq (text s) x then suc (having text x ss) else having text x ss

count_by-having :
    (text : PollerState → Str) (x : Str) (m : StateManager) (counts : Map Str ℕ)
    → or_zero (Map.get (count_by text m counts) x)
      ≡ or_zero (Map.get counts x) + having text x (get_all m)
unfolding count_by get_all
count_by-having text x [] counts = omega arith
count_by-having text x ((k, s) ∷ m) counts =
    let counted = Map.put counts (text s) (or_zero (Map.get counts (text s)) + 1) in
    ground (
      arith,
      count_by-having text x m counted,
      get-put counts (text s) (or_zero (Map.get counts (text s)) + 1) x,
      str_beq_iff (text s) x,
    )

-- The counts by operational and by health state give, for every text, the number of pollers whose
-- state has it, where a missing text counts as none.
pub counts_exact :
    (m : StateManager) (x : Str)
    → (or_zero (Map.get (count_by_oper_state m) x)
        ≡ having (λ s. oper_text s.oper_state) x (get_all m))
      × (or_zero (Map.get (count_by_health_state m) x)
          ≡ having (λ s. health_text s.health_state) x (get_all m))
unfolding count_by_oper_state count_by_health_state Map.get
counts_exact m x = (
  omega (arith, count_by-having (λ s. oper_text s.oper_state) x m []),
  omega (arith, count_by-having (λ s. health_text s.health_state) x m []),
)

-- `Get` returns the state that is kept under the poller's key, or a new one that it puts there; it
-- keeps every other entry, and a second `Get` returns the same state and changes nothing.
pub get_exact :
    (ns t p : Str) (m : StateManager)
    → let (s, m') = get ns t p m in
      (get ns t p m' ≡ (s, m'))
      × (Map.get m' (poller_key ns t p) ≡ some s)
      × ((k : Str) → str_beq (poller_key ns t p) k ≡ false → Map.get m' k ≡ Map.get m k)
      × ((old : PollerState) → Map.get m (poller_key ns t p) ≡ some old → s ≡ old)
unfolding get
get_exact ns t p m = elim (Option-cases (Map.get m (poller_key ns t p))) [
  | inr (s, e) ↦ rw (e, e) (refl, refl, λ k other. refl, λ old h. ground (arith, h))
  | inl e ↦
      let fresh = new_poller_state ns t p in
      let there : Map.get (Map.put m (poller_key ns t p) fresh) (poller_key ns t p) ≡ some fresh =
        ground (
          arith,
          get-put m (poller_key ns t p) fresh (poller_key ns t p),
          str_beq_iff (poller_key ns t p) (poller_key ns t p),
        ) in
      rw (e, there)
        (
          refl,
          refl,
          λ k other. ground (arith, get-put m (poller_key ns t p) fresh k, other),
          λ old h. ground (arith, h),
        )
]
