-- ===== src/Config.antt =====
-- The configuration of the daemon and its validation: config/config.go. A field of type int is the
-- bit pattern of its value. An error is a constructor with the data of the message.
pub mod Validity
use snmpproxy.Base.{
  ℕ, suc, ◌+◌, Bool, true, false, not, ◌&&◌, ◌||◌, Option, none, some, List, [], ◌∷◌, Str, str_eq,
  str_beq, if◌then◌else◌, nat_beq,
}
use snmpproxy.Base.Int64.{slt}
use snmpproxy.Base.Map.{member, insert}
use snmpproxy.Base.Text.{lit}

pub record SnmpTargetConfig : Type 0 where
  pub host : Str
  pub oid : Str
  pub version : ℕ
  pub security_name : Str
  pub security_level : Str
  pub auth_protocol : Str
  pub auth_password : Str
  pub priv_protocol : Str
  pub priv_password : Str

pub record TargetConfig : Type 0 where
  pub id : Str
  pub tags : List Str
  pub snmp : Option SnmpTargetConfig

pub record StorageConfig : Type 0 where
  pub sample_batch_size : ℕ
  pub sample_flush_timeout_sec : ℕ
  pub state_flush_interval_sec : ℕ
  pub stats_flush_interval_sec : ℕ

pub record TokenConfig : Type 0 where
  pub id : Str
  pub token : Str

-- The fields of Config that validation reads.
pub record Config : Type 0 where
  pub listen : Str
  pub tokens : List TokenConfig
  pub storage : StorageConfig
  pub targets : List TargetConfig

pub data SnmpError : Type 0 where
  host_required oid_required security_name_required : SnmpError
  auth_protocol_required auth_password_required : SnmpError
  priv_protocol_required priv_password_required : SnmpError
  invalid_security_level : Str → SnmpError

pub data TargetError : Type 0 where
  id_required : TargetError
  no_protocol empty_tag : Str → TargetError
  snmp_error : Str → SnmpError → TargetError

pub data StorageError : Type 0 where
  batch_size_low batch_size_high sample_timeout_low sample_timeout_high : ℕ → StorageError
  state_interval_low state_interval_high stats_interval_low stats_interval_high : ℕ → StorageError

pub data ConfigError : Type 0 where
  listen_required token_required : ConfigError
  empty_token : ℕ → ConfigError
  storage_error : StorageError → ConfigError
  target_error : ℕ → TargetError → ConfigError
  duplicate_id : ℕ → Str → ConfigError

abbrev pub is_blank : Str → Bool
is_blank [] = true
is_blank (c ∷ s) = false

-- `IsV3`
unfoldable pub is_v3 : SnmpTargetConfig → Bool
is_v3 c = nat_beq c.version 3 || not (is_blank c.security_name)

unfoldable pub check_auth : SnmpTargetConfig → Option SnmpError → Option SnmpError
check_auth c rest =
    if is_blank c.auth_protocol
    then some auth_protocol_required
    else if is_blank c.auth_password
    then some auth_password_required
    else rest

-- The `switch` on the security level.
unfoldable pub check_level : SnmpTargetConfig → Option SnmpError
unfolding check_auth
check_level c =
    if is_blank c.security_level || str_beq c.security_level (lit "noAuthNoPriv")
    then none
    else if str_beq c.security_level (lit "authNoPriv")
    then check_auth c none
    else if str_beq c.security_level (lit "authPriv")
    then check_auth c (
        if is_blank c.priv_protocol
        then some priv_protocol_required
        else if is_blank c.priv_password
        then some priv_password_required
        else none)
    else some (invalid_security_level c.security_level)

-- `SNMPTargetConfig.Validate`
unfoldable pub validate_snmp : SnmpTargetConfig → Option SnmpError
validate_snmp c =
    if is_blank c.host
    then some host_required
    else if is_blank c.oid
    then some oid_required
    else if is_v3 c
    then (if is_blank c.security_name then some security_name_required else check_level c)
    else none

-- The loop over the tags.
unfoldable pub check_tags : Str → List Str → Option TargetError
check_tags id [] = none
check_tags id (t ∷ ts) = if is_blank t then some (empty_tag id) else check_tags id ts

abbrev after_snmp : Option SnmpError → Str → List Str → Option TargetError
after_snmp (some e) id tags = some (snmp_error id e)
after_snmp none id tags = check_tags id tags

abbrev check_protocol : Option SnmpTargetConfig → Str → List Str → Option TargetError
check_protocol none id tags = some (no_protocol id)
check_protocol (some c) id tags = after_snmp (validate_snmp c) id tags

-- `TargetConfig.Validate`. There is one protocol, so that more than one is never counted.
unfoldable pub validate_target : TargetConfig → Option TargetError
validate_target tc =
    if is_blank tc.id then some id_required else check_protocol tc.snmp tc.id tc.tags

-- `StorageConfig.Validate`
unfoldable pub validate_storage : StorageConfig → Option StorageError
validate_storage sc =
    if slt sc.sample_batch_size 100
    then some (batch_size_low sc.sample_batch_size)
    else if slt 10000 sc.sample_batch_size
    then some (batch_size_high sc.sample_batch_size)
    else if slt sc.sample_flush_timeout_sec 1
    then some (sample_timeout_low sc.sample_flush_timeout_sec)
    else if slt 60 sc.sample_flush_timeout_sec
    then some (sample_timeout_high sc.sample_flush_timeout_sec)
    else if slt sc.state_flush_interval_sec 1
    then some (state_interval_low sc.state_flush_interval_sec)
    else if slt 60 sc.state_flush_interval_sec
    then some (state_interval_high sc.state_flush_interval_sec)
    else if slt sc.stats_flush_interval_sec 1
    then some (stats_interval_low sc.stats_flush_interval_sec)
    else if slt 120 sc.stats_flush_interval_sec
    then some (stats_interval_high sc.stats_flush_interval_sec)
    else none

-- The loop over the tokens, from the index `i` on.
unfoldable pub check_tokens : ℕ → List TokenConfig → Option ConfigError
check_tokens i [] = none
check_tokens i (t ∷ ts) = if is_blank t.token then some (empty_token i) else check_tokens (suc i) ts

abbrev after_target :
    Option TargetError → ℕ → Str → List Str → Option ConfigError → Option ConfigError
after_target (some e) i id seen rest = some (target_error i e)
after_target none i id seen rest = if member id seen then some (duplicate_id i id) else rest

-- The loop over the targets, from the index `i` on; `seen` are the ids before it.
unfoldable pub check_targets : ℕ → List Str → List TargetConfig → Option ConfigError
check_targets i seen [] = none
check_targets i seen (tc ∷ tcs) =
    let rest = check_targets (suc i) (insert tc.id seen) tcs in
    after_target (validate_target tc) i tc.id seen rest

abbrev after_storage : Option StorageError → List TargetConfig → Option ConfigError
after_storage (some e) targets = some (storage_error e)
after_storage none targets = check_targets 0 [] targets

abbrev after_tokens : Option ConfigError → StorageConfig → List TargetConfig → Option ConfigError
after_tokens (some e) storage targets = some e
after_tokens none storage targets = after_storage (validate_storage storage) targets

abbrev no_tokens : List TokenConfig → Bool
no_tokens [] = true
no_tokens (t ∷ ts) = false

-- `Config.Validate`
unfoldable pub validate : Config → Option ConfigError
validate c =
    if is_blank c.listen
    then some listen_required
    else if no_tokens c.tokens
    then some token_required
    else after_tokens (check_tokens 0 c.tokens) c.storage c.targets
