-- ===== src/Resolver.antt =====
-- The configuration of a poller, merged from four levels: internal/manager/config_resolver.go. A
-- setting is the pair of a field and its source field. A string is set when it is not empty, any
-- other field when its pointer is not nil. The store is a record of the lookups that the code
-- makes, which may fail; the clock is an argument.
pub mod Merge
pub mod Cache
pub mod Secrets
use snmpproxy.Base.{
  ℕ, ◌+◌, Bool, true, false, ◌&&◌, ◌||◌, Option, none, some, List, [], ◌∷◌, ◌++◌, Str, str_eq,
  str_beq, if◌then◌else◌, ltb, length, take, drop,
}
use snmpproxy.Base.Text.{lit, has_prefix}
use snmpproxy.Base.Map
use snmpproxy.Base.Map.{Map}
use snmpproxy.State.{poller_key}

pub record Setting (A : Type 0) : Type 0 where
  pub value : A
  pub source : Str

pub record ResolvedPollerConfig : Type 0 where
  pub community : Setting Str
  pub security_name : Setting Str
  pub security_level : Setting Str
  pub auth_protocol : Setting Str
  pub auth_password : Setting Str
  pub priv_protocol : Setting Str
  pub priv_password : Setting Str
  pub interval_ms : Setting ℕ
  pub timeout_ms : Setting ℕ
  pub retries : Setting ℕ
  pub buffer_size : Setting ℕ

-- SNMPv3Defaults, PollerDefaults and PollingConfig of internal/store, and what is used of the
-- server configuration, the namespaces, the targets and the pollers there.
pub record SnmpV3Defaults : Type 0 where
  pub security_name : Str
  pub security_level : Str
  pub auth_protocol : Str
  pub auth_password : Str
  pub auth_secret_ref : Str
  pub priv_protocol : Str
  pub priv_password : Str
  pub priv_secret_ref : Str

pub record PollerDefaults : Type 0 where
  pub snmp_community : Option Str
  pub snmp_v3 : Option SnmpV3Defaults
  pub interval_ms : Option ℕ
  pub timeout_ms : Option ℕ
  pub retries : Option ℕ
  pub buffer_size : Option ℕ

pub record PollingConfig : Type 0 where
  pub interval_ms : Option ℕ
  pub timeout_ms : Option ℕ
  pub retries : Option ℕ
  pub buffer_size : Option ℕ

pub record ServerConfig : Type 0 where
  pub default_interval_ms : ℕ
  pub default_timeout_ms : ℕ
  pub default_retries : ℕ
  pub default_buffer_size : ℕ

-- A namespace or a target: its name, and its `Config`, whose `Defaults` may be nil.
pub record Level : Type 0 where
  pub name : Str
  pub config : Option (Option PollerDefaults)

pub record Poller : Type 0 where
  pub polling_config : Option PollingConfig

abbrev pub unset : {A : Type 0} → A → Setting A
unset a = record { value = a; source = [] }

-- `&ResolvedPollerConfig{}`
unfoldable pub empty_config : ResolvedPollerConfig
empty_config = record {
  community = unset [];
  security_name = unset [];
  security_level = unset [];
  auth_protocol = unset [];
  auth_password = unset [];
  priv_protocol = unset [];
  priv_password = unset [];
  interval_ms = unset 0;
  timeout_ms = unset 0;
  retries = unset 0;
  buffer_size = unset 0;
}

-- `if p != nil { field = *p; fieldSource = source }`
abbrev pub set_pointer : {A : Type 0} → Option A → Str → Setting A → Setting A
set_pointer none source old = old
set_pointer (some a) source old = record { value = a; source = source }

-- `if s != "" { field = s; fieldSource = source }`
abbrev pub set_text : Str → Str → Setting Str → Setting Str
set_text [] source old = old
set_text (c ∷ s) source old = record { value = c ∷ s; source = source }

-- A password, or else the reference to a secret, which is marked in the source.
abbrev pub set_password : Str → Str → Str → Setting Str → Setting Str
set_password [] ref source old = set_text ref (source ++ lit " (secret)") old
set_password (c ∷ s) ref source old = record { value = c ∷ s; source = source }

-- `applyServerDefaults`
unfoldable pub apply_server_defaults : ServerConfig → ResolvedPollerConfig → ResolvedPollerConfig
apply_server_defaults cfg r = record r {
  interval_ms = record { value = cfg.default_interval_ms; source = lit "server" };
  timeout_ms = record { value = cfg.default_timeout_ms; source = lit "server" };
  retries = record { value = cfg.default_retries; source = lit "server" };
  buffer_size = record { value = cfg.default_buffer_size; source = lit "server" };
  community = record { value = lit "public"; source = lit "server" };
}

unfoldable pub apply_v3 : Option SnmpV3Defaults → Str → ResolvedPollerConfig → ResolvedPollerConfig
apply_v3 none source r = r
apply_v3 (some v3) source r = record r {
  security_name = set_text v3.security_name source r.security_name;
  security_level = set_text v3.security_level source r.security_level;
  auth_protocol = set_text v3.auth_protocol source r.auth_protocol;
  auth_password = set_password v3.auth_password v3.auth_secret_ref source r.auth_password;
  priv_protocol = set_text v3.priv_protocol source r.priv_protocol;
  priv_password = set_password v3.priv_password v3.priv_secret_ref source r.priv_password;
}

-- `applyDefaults`
unfoldable pub apply_defaults : PollerDefaults → Str → ResolvedPollerConfig → ResolvedPollerConfig
unfolding apply_v3
apply_defaults d source r =
    let r' = apply_v3 d.snmp_v3 source r in
    record r' {
      community = set_pointer d.snmp_community source r.community;
      interval_ms = set_pointer d.interval_ms source r.interval_ms;
      timeout_ms = set_pointer d.timeout_ms source r.timeout_ms;
      retries = set_pointer d.retries source r.retries;
      buffer_size = set_pointer d.buffer_size source r.buffer_size;
    }

-- `applyPollingConfig`
unfoldable pub apply_polling_config :
    PollingConfig → Str → ResolvedPollerConfig → ResolvedPollerConfig
apply_polling_config cfg source r = record r {
  interval_ms = set_pointer cfg.interval_ms source r.interval_ms;
  timeout_ms = set_pointer cfg.timeout_ms source r.timeout_ms;
  retries = set_pointer cfg.retries source r.retries;
  buffer_size = set_pointer cfg.buffer_size source r.buffer_size;
}

-- `x != nil && x.Config != nil && x.Config.Defaults != nil`
abbrev pub level_defaults : Option Level → Option PollerDefaults
level_defaults none = none
level_defaults (some l) = elim l.config [ none ↦ none | some d ↦ d ]

abbrev pub level_name : Option Level → Str
level_name none = []
level_name (some l) = l.name

abbrev apply_level : Option PollerDefaults → Str → ResolvedPollerConfig → ResolvedPollerConfig
apply_level none source r = r
apply_level (some d) source r = apply_defaults d source r

abbrev apply_server : Option ServerConfig → ResolvedPollerConfig → ResolvedPollerConfig
apply_server none r = r
apply_server (some cfg) r = apply_server_defaults cfg r

abbrev pub polling_of : Option Poller → Option PollingConfig
polling_of none = none
polling_of (some p) = p.polling_config

abbrev apply_poller : Option PollingConfig → ResolvedPollerConfig → ResolvedPollerConfig
apply_poller none r = r
apply_poller (some cfg) r = apply_polling_config cfg (lit "explicit") r

-- `ResolveWithPoller`
unfoldable pub resolve_with_poller :
    Option ServerConfig → Option Level → Option Level → Option Poller → ResolvedPollerConfig
unfolding apply_defaults apply_server_defaults apply_polling_config empty_config
resolve_with_poller server ns t p = apply_poller (polling_of p) (
    apply_level (level_defaults t) (lit "target:" ++ level_name t) (
      apply_level (level_defaults ns) (lit "namespace:" ++ level_name ns)
        (apply_server server empty_config)))
