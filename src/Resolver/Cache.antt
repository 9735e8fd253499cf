-- ===== src/Resolver/Cache.antt =====
-- `Resolve` with its cache, and the invalidations.
use mathlib.Core.List.{append_assoc}
use snmpproxy.Base.{
  ℕ, ◌-◌, ◌<◌, ◌≡◌, refl, ◌≢◌, Bool, true, false, ◌&&◌, Option, none, some, [], ◌∷◌, ◌++◌, Str,
  str_eq, str_beq, str_beq_iff, if◌then◌else◌, ltb, length, length-append, arith,
}
use snmpproxy.Base.Results.{Result, ok, err, ◌>>=◌}
use snmpproxy.Base.Text.{lit, has_prefix}
use snmpproxy.Base.Keys.{slash_free, has_prefix-slash, has_prefix-append}
use snmpproxy.Base.Map
use snmpproxy.Base.Map.{Map, get-put, get-delete}
use snmpproxy.State.{poller_key}
use snmpproxy.Resolver.{
  ResolvedPollerConfig, ServerConfig, Level, Poller, level_defaults, polling_of, apply_level,
  apply_server, apply_poller, empty_config,
}

-- The lookups in the store; a missing entity is nil without an error.
pub record StoreReads (E : Type 0) : Type 0 where
  pub get_server_config : Result E ServerConfig
  pub get_namespace : Str → Result E (Option Level)
  pub get_target : Str → Str → Result E (Option Level)
  pub get_poller : Str → Str → Str → Result E (Option Poller)

pub record CacheEntry : Type 0 where
  pub config : ResolvedPollerConfig
  pub created_at : ℕ

abbrev pub Cache : Type 0
Cache = Map Str CacheEntry

abbrev is_fresh : ℕ → ℕ → Option CacheEntry → Option ResolvedPollerConfig
is_fresh ttl now none = none
is_fresh ttl now (some entry) = if ltb (now - entry.created_at) ttl then some entry.config else none

module _ {E : Type 0} where
  -- The part of `Resolve` after the cache: four lookups, each of which may fail.
  unfoldable pub resolve_fresh : StoreReads E → Str → Str → Str → Result E ResolvedPollerConfig
  unfolding empty_config
  resolve_fresh store ns t p = do
    server ← store.get_server_config
    found_ns ← store.get_namespace ns
    found_t ← store.get_target ns t
    found_p ← store.get_poller ns t p
    ok (
        apply_poller (polling_of found_p) (
          apply_level (level_defaults found_t) (lit "target:" ++ t) (
            apply_level (level_defaults found_ns) (lit "namespace:" ++ ns)
              (apply_server (some server) empty_config))))

  abbrev store_result :
      ℕ → Str → Cache → Result E ResolvedPollerConfig → Result E ResolvedPollerConfig × Cache
  store_result now key cache (ok config) =
      (ok config, Map.put cache key (record { config = config; created_at = now }))
  store_result now key cache (err e) = (err e, cache)

  abbrev hit_or_store :
      Option ResolvedPollerConfig
      → ℕ
      → Str
      → Cache
      → Result E ResolvedPollerConfig
      → Result E ResolvedPollerConfig × Cache
  hit_or_store (some config) now key cache fresh = (ok config, cache)
  hit_or_store none now key cache fresh = store_result now key cache fresh

  -- `Resolve` at the time `now`; the clock is monotonic.
  unfoldable pub resolve :
      ℕ → StoreReads E → ℕ → Str → Str → Str → Cache → Result E ResolvedPollerConfig × Cache
  resolve ttl store now ns t p cache =
      let key = poller_key ns t p in
      hit_or_store (is_fresh ttl now (Map.get cache key)) now key cache (resolve_fresh store ns t p)

-- `Invalidate`
unfoldable pub invalidate : Str → Str → Str → Cache → Cache
invalidate ns t p cache = Map.delete cache (poller_key ns t p)

-- The test of the two `Range` loops: a proper prefix of the key.
unfoldable pub below_prefix : Str → Str → Bool
below_prefix prefix key = ltb (length prefix) (length key) && has_prefix prefix key

unfoldable pub drop_prefix : Str → Cache → Cache
drop_prefix prefix [] = []
drop_prefix prefix ((key, entry) ∷ cache) =
    if below_prefix prefix key
    then drop_prefix prefix cache
    else (key, entry) ∷ drop_prefix prefix cache

-- `InvalidateTarget`
unfoldable pub invalidate_target : Str → Str → Cache → Cache
unfolding drop_prefix
invalidate_target ns t cache = drop_prefix (ns ++ (lit "/" ++ (t ++ lit "/"))) cache

-- `InvalidateNamespace`
unfoldable pub invalidate_namespace : Str → Cache → Cache
unfolding drop_prefix
invalidate_namespace ns cache = drop_prefix (ns ++ lit "/") cache

-- `InvalidateAll`
unfoldable pub invalidate_all : Cache → Cache
invalidate_all cache = []

get-drop_prefix :
    (prefix key : Str) (cache : Cache)
    → Map.get (drop_prefix prefix cache) key
      ≡ (if below_prefix prefix key then none else Map.get cache key)
unfolding drop_prefix Map.get
get-drop_prefix prefix key [] = ground arith
get-drop_prefix prefix key ((k, entry) ∷ cache) =
    ground (arith, get-drop_prefix prefix key cache, str_beq_iff k key)

below_prefix-append : (a x : Str) → x ≢ [] → below_prefix a (a ++ x) ≡ true
unfolding below_prefix
below_prefix-append a [] h = absurd (h refl)
below_prefix-append a (c ∷ x) h =
    ground (arith, has_prefix-append a (c ∷ x), length-append a (c ∷ x))

poller_key-target : (ns t p : Str) → poller_key ns t p ≡ (ns ++ (lit "/" ++ (t ++ lit "/"))) ++ p
poller_key-target ns t p = unfold poller_key in simp (append_assoc)

poller_key-namespace : (ns t p : Str) → poller_key ns t p ≡ (ns ++ lit "/") ++ (t ++ (lit "/" ++ p))
poller_key-namespace ns t p = unfold poller_key in simp (append_assoc)

missing-invalidate :
    (ns t p : Str) (cache : Cache) → Map.get (invalidate ns t p cache) (poller_key ns t p) ≡ none
missing-invalidate ns t p cache =
    let k = poller_key ns t p in
    unfold invalidate in rw (get-delete cache k k) (ground (arith, str_beq_iff k k))

missing-invalidate_all :
    (ns t p : Str) (cache : Cache) → Map.get (invalidate_all cache) (poller_key ns t p) ≡ none
unfolding invalidate_all Map.get
missing-invalidate_all ns t p cache = refl

missing-invalidate_target :
    (ns t p : Str) (cache : Cache)
    → p ≢ []
    → Map.get (invalidate_target ns t cache) (poller_key ns t p) ≡ none
missing-invalidate_target ns t p cache ne =
    let prefix = ns ++ (lit "/" ++ (t ++ lit "/")) in
    unfold invalidate_target in
    rw (
      poller_key-target ns t p,
      get-drop_prefix prefix (prefix ++ p) cache,
      below_prefix-append prefix p ne,
    )

append_slash_ne : (t p : Str) → t ++ (lit "/" ++ p) ≢ []
append_slash_ne [] p h = cc
append_slash_ne (c ∷ t) p h = cc

missing-invalidate_namespace :
    (ns t p : Str) (cache : Cache)
    → Map.get (invalidate_namespace ns cache) (poller_key ns t p) ≡ none
missing-invalidate_namespace ns t p cache =
    let prefix = ns ++ lit "/" in
    let rest = t ++ (lit "/" ++ p) in
    unfold invalidate_namespace in
    rw (
      poller_key-namespace ns t p,
      get-drop_prefix prefix (prefix ++ rest) cache,
      below_prefix-append prefix rest (append_slash_ne t p),
    )

store_result-fst :
    {E : Type 0} (now : ℕ) (key : Str) (cache : Cache) (r : Result E ResolvedPollerConfig)
    → (store_result now key cache r).0 ≡ r
store_result-fst now key cache (ok config) = refl
store_result-fst now key cache (err e) = refl

-- What a resolution of this poller reads when its entry is gone.
resolve-missing :
    {E : Type 0} (ttl : ℕ) (store : StoreReads E) (now : ℕ) (ns t p : Str) (cache : Cache)
    → Map.get cache (poller_key ns t p) ≡ none
    → (resolve ttl store now ns t p cache).0 ≡ resolve_fresh store ns t p
resolve-missing ttl store now ns t p cache h =
    unfold resolve in
    rw h (store_result-fst now (poller_key ns t p) cache (resolve_fresh store ns t p))

-- After any of the four invalidations that cover a poller whose name is not empty, `Resolve` returns
-- what the store holds now, or its error.
pub resolve_after_invalidation :
    {E : Type 0} (ttl : ℕ) (store : StoreReads E) (now : ℕ) (ns t p : Str) (cache : Cache)
    → p ≢ []
    → ((resolve ttl store now ns t p (invalidate ns t p cache)).0 ≡ resolve_fresh store ns t p)
      × ((resolve ttl store now ns t p (invalidate_target ns t cache)).0
          ≡ resolve_fresh store ns t p)
      × ((resolve ttl store now ns t p (invalidate_namespace ns cache)).0
          ≡ resolve_fresh store ns t p)
      × ((resolve ttl store now ns t p (invalidate_all cache)).0 ≡ resolve_fresh store ns t p)
resolve_after_invalidation ttl store now ns t p cache ne = (
  resolve-missing ttl store now ns t p (invalidate ns t p cache) (missing-invalidate ns t p cache),
  resolve-missing ttl store now ns t p (invalidate_target ns t cache)
      (missing-invalidate_target ns t p cache ne),
  resolve-missing ttl store now ns t p (invalidate_namespace ns cache)
      (missing-invalidate_namespace ns t p cache),
  resolve-missing ttl store now ns t p (invalidate_all cache) (missing-invalidate_all ns t p cache),
)

-- An invalidation of one target leaves the cached configuration of a poller of another target or
-- namespace alone, for names without a slash.
pub invalidate_target_others :
    (ns t ns' t' p : Str) (cache : Cache)
    → slash_free ns ≡ true
    → slash_free t ≡ true
    → slash_free ns' ≡ true
    → slash_free t' ≡ true
    → (str_beq ns ns' && str_beq t t') ≡ false
    → Map.get (invalidate_target ns t cache) (poller_key ns' t' p)
      ≡ Map.get cache (poller_key ns' t' p)
unfolding invalidate_target poller_key below_prefix
invalidate_target_others ns t ns' t' p cache f f' g g' h =
    rw
      (get-drop_prefix (ns ++ (lit "/" ++ (t ++ lit "/")))
        (ns' ++ (lit "/" ++ (t' ++ (lit "/" ++ p)))) cache)
      (ground (
        arith,
        has_prefix-slash ns ns' (t ++ lit "/") (t' ++ (lit "/" ++ p)) f g,
        has_prefix-slash t t' [] p f' g',
      ))

-- A configuration that was read from the store is returned unchanged, whatever the store holds by
-- then, until `ttl` has passed.
pub resolve_cached :
    {E : Type 0} (ttl : ℕ) (store store' : StoreReads E) (now now' : ℕ) (ns t p : Str)
    (cache : Cache) (config : ResolvedPollerConfig)
    → Map.get cache (poller_key ns t p) ≡ none
    → resolve_fresh store ns t p ≡ ok config
    → now' - now < ttl
    → let cache' = (resolve ttl store now ns t p cache).1 in
      resolve ttl store' now' ns t p cache' ≡ (ok config, cache')
resolve_cached ttl store store' now now' ns t p cache config missing fresh early =
    let key = poller_key ns t p in
    let entry : CacheEntry = record { config = config; created_at = now } in
    let cache' = Map.put cache key entry in
    let stored : resolve ttl store now ns t p cache ≡ (ok config, cache') =
      unfold resolve in rw (missing, fresh) in
    let kept : Map.get cache' key ≡ some entry =
      ground (arith, get-put cache key entry key, str_beq_iff key key) in
    rw stored (unfold resolve in rw kept (ground arith))
