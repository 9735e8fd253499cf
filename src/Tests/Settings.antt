-- ===== src/Tests/Settings.antt =====
-- Resolution, secrets and validation at concrete values.
use snmpproxy.Base.{◌≡◌, ◌≢◌, ◌↔◌, refl, true, none, some, [], ◌∷◌, Str, str_eq, arith}
use snmpproxy.Base.Results.{Result, ok, err}
use snmpproxy.Base.Text.{lit, has_prefix}
use snmpproxy.Resolver.{
  ResolvedPollerConfig, PollerDefaults, ServerConfig, Level, Poller, empty_config,
  resolve_with_poller,
}
use snmpproxy.Resolver.Merge.{
  merged_timing, merged_text, merged_password, merged_community, resolve_merges,
}
use snmpproxy.Resolver.Cache.{
  StoreReads, Cache, resolve, resolve_fresh, invalidate, invalidate_target, invalidate_namespace,
  invalidate_all, resolve_after_invalidation,
}
use snmpproxy.Resolver.Secrets.{
  is_secret_ref, resolve_secrets, referred, plain, revealed, resolve_secrets_values,
}
use snmpproxy.Config.{StorageConfig, Config, validate}
use snmpproxy.Config.Validity.{AllTokens, IsValidStorage, AllValid, target_ids, validate_exact}
use snmpproxy.Base.Map.{distinct}

abbrev prod : Str
prod = lit "prod"

abbrev router : Str
router = lit "router"

abbrev cpu : Str
cpu = lit "cpu"

abbrev server : ServerConfig
server = record {
  default_interval_ms = 1000;
  default_timeout_ms = 5000;
  default_retries = 2;
  default_buffer_size = 3600;
}

abbrev slow : PollerDefaults
slow = record {
  snmp_community = some (lit "private");
  snmp_v3 = none;
  interval_ms = some 60000;
  timeout_ms = none;
  retries = none;
  buffer_size = none;
}

abbrev prod_level : Level
prod_level = record { name = prod; config = some (some slow) }

abbrev cpu_poller : Poller
cpu_poller = record {
  polling_config =
      some
        (record { interval_ms = none; timeout_ms = some 300; retries = none; buffer_size = none });
}

-- A store that knows one namespace, one target without settings, and one poller.
abbrev store : StoreReads Str
store = record {
  get_server_config = ok server;
  get_namespace = λ n. ok (some prod_level);
  get_target = λ n t. ok (some (record { name = t; config = none }));
  get_poller = λ n t p. ok (some cpu_poller);
}

abbrev broken : StoreReads Str
broken = record {
  get_server_config = err (lit "closed");
  get_namespace = λ n. err (lit "closed");
  get_target = λ n t. err (lit "closed");
  get_poller = λ n t p. err (lit "closed");
}

abbrev no_entries : Cache
no_entries = []

abbrev config : ResolvedPollerConfig
config =
    resolve_with_poller (some server) (some prod_level)
      (some (record { name = router; config = none })) (some cpu_poller)

abbrev vault : Str → Str → Result Str Str
vault ns name = ok (lit "s3cret")

abbrev with_ref : ResolvedPollerConfig
with_ref = record empty_config {
  auth_password = record { value = lit "secret:snmp"; source = lit "target:router" };
}

abbrev defaults : StorageConfig
defaults = record {
  sample_batch_size = 1000;
  sample_flush_timeout_sec = 5;
  state_flush_interval_sec = 5;
  stats_flush_interval_sec = 10;
}

abbrev settings : Config
settings = record {
  listen = lit ":9161";
  tokens = record { id = lit "admin"; token = lit "t0ken" } ∷ [];
  storage = defaults;
  targets = [];
}

resolve_merges_example :
    let r = resolve_with_poller (some server) (some prod_level) none (some cpu_poller) in
    (r.interval_ms
      ≡ merged_timing
          (some server)
          (some prod_level)
          none
          (some cpu_poller)
          (λ c. c.interval_ms)
          (λ d. d.interval_ms)
          (λ c. c.default_interval_ms))
    × (r.timeout_ms
        ≡ merged_timing
            (some server)
            (some prod_level)
            none
            (some cpu_poller)
            (λ c. c.timeout_ms)
            (λ d. d.timeout_ms)
            (λ c. c.default_timeout_ms))
    × (r.retries
        ≡ merged_timing
            (some server)
            (some prod_level)
            none
            (some cpu_poller)
            (λ c. c.retries)
            (λ d. d.retries)
            (λ c. c.default_retries))
    × (r.buffer_size
        ≡ merged_timing
            (some server)
            (some prod_level)
            none
            (some cpu_poller)
            (λ c. c.buffer_size)
            (λ d. d.buffer_size)
            (λ c. c.default_buffer_size))
    × (r.community ≡ merged_community (some server) (some prod_level) none (some cpu_poller))
    × (r.security_name
        ≡ merged_text (some server) (some prod_level) none (some cpu_poller) (λ v. v.security_name))
    × (r.security_level
        ≡ merged_text
            (some server)
            (some prod_level)
            none
            (some cpu_poller)
            (λ v. v.security_level))
    × (r.auth_protocol
        ≡ merged_text (some server) (some prod_level) none (some cpu_poller) (λ v. v.auth_protocol))
    × (r.auth_password
        ≡ merged_password
            (some server)
            (some prod_level)
            none
            (some cpu_poller)
            (λ v. v.auth_password)
            (λ v. v.auth_secret_ref))
    × (r.priv_protocol
        ≡ merged_text (some server) (some prod_level) none (some cpu_poller) (λ v. v.priv_protocol))
    × (r.priv_password
        ≡ merged_password
            (some server)
            (some prod_level)
            none
            (some cpu_poller)
            (λ v. v.priv_password)
            (λ v. v.priv_secret_ref))
resolve_merges_example = resolve_merges (some server) (some prod_level) none (some cpu_poller)

resolve_after_invalidation_example :
    ((resolve 300 store 50 prod router cpu (invalidate prod router cpu no_entries)).0
      ≡ resolve_fresh store prod router cpu)
    × ((resolve 300 store 50 prod router cpu (invalidate_target prod router no_entries)).0
        ≡ resolve_fresh store prod router cpu)
    × ((resolve 300 store 50 prod router cpu (invalidate_namespace prod no_entries)).0
        ≡ resolve_fresh store prod router cpu)
    × ((resolve 300 store 50 prod router cpu (invalidate_all no_entries)).0
        ≡ resolve_fresh store prod router cpu)
resolve_after_invalidation_example =
    resolve_after_invalidation 300 store 50 prod router cpu no_entries (ground arith)

resolve_secrets_values_example : resolve_secrets true vault prod with_ref ≡ (
  none,
  record with_ref {
    auth_password = revealed with_ref.auth_password (lit "s3cret");
    priv_password = revealed with_ref.priv_password [];
  },
)
unfolding empty_config is_secret_ref has_prefix
resolve_secrets_values_example =
    resolve_secrets_values vault prod (lit "s3cret") [] with_ref
      (referred (lit "snmp") (ground arith) refl refl) (plain refl refl)

validate_exact_example : (validate settings ≡ none) ↔ (
    (settings.listen ≢ [])
    × (settings.tokens ≢ [])
    × AllTokens settings.tokens
    × IsValidStorage settings.storage
    × AllValid settings.targets
    × (distinct (target_ids settings.targets) ≡ true))
validate_exact_example =
    validate_exact settings (omega arith, omega arith, omega arith, omega arith)
