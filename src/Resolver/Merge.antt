-- ===== src/Resolver/Merge.antt =====
-- Which level each setting of a resolved configuration comes from.
use snmpproxy.Base.{ℕ, ◌≡◌, Option, none, some, List, [], ◌∷◌, ◌++◌, Str, arith}
use snmpproxy.Base.Text.{lit}
use snmpproxy.Resolver.{
  Setting, SnmpV3Defaults, PollerDefaults, PollingConfig, ServerConfig, Level, Poller,
  level_defaults, level_name, polling_of, resolve_with_poller,
}

-- The first offer that is made, the innermost level first; the last argument if there is none.
abbrev pub first_offer : {A : Type 0} → List (Option (Setting A)) → Setting A → Setting A
first_offer [] base = base
first_offer (none ∷ offers) base = first_offer offers base
first_offer (some s ∷ offers) base = s

abbrev offer : {A : Type 0} → Str → Option A → Option (Setting A)
offer source none = none
offer source (some a) = some (record { value = a; source = source })

abbrev text_offer : Str → Str → Option (Setting Str)
text_offer source [] = none
text_offer source (c ∷ s) = some (record { value = c ∷ s; source = source })

abbrev password_offer : Str → Str → Str → Option (Setting Str)
password_offer source [] ref = text_offer (source ++ lit " (secret)") ref
password_offer source (c ∷ s) ref = some (record { value = c ∷ s; source = source })

-- What a namespace or a target offers for each setting.
abbrev of_defaults :
    {A : Type 0} → (PollerDefaults → Option A) → Str → Option PollerDefaults → Option (Setting A)
of_defaults field source none = none
of_defaults field source (some d) = offer source (field d)

abbrev of_v3 : Option PollerDefaults → Option SnmpV3Defaults
of_v3 none = none
of_v3 (some d) = d.snmp_v3

abbrev of_text : (SnmpV3Defaults → Str) → Str → Option SnmpV3Defaults → Option (Setting Str)
of_text field source none = none
of_text field source (some v3) = text_offer source (field v3)

abbrev of_password :
    (SnmpV3Defaults → Str)
    → (SnmpV3Defaults → Str)
    → Str
    → Option SnmpV3Defaults
    → Option (Setting Str)
of_password field ref source none = none
of_password field ref source (some v3) = password_offer source (field v3) (ref v3)

-- What a poller offers.
abbrev of_polling : (PollingConfig → Option ℕ) → Option PollingConfig → Option (Setting ℕ)
of_polling field none = none
of_polling field (some cfg) = offer (lit "explicit") (field cfg)

-- What the server offers; with no server configuration, the zero of the field with no source.
abbrev of_server : (ServerConfig → ℕ) → Option ServerConfig → Setting ℕ
of_server field none = record { value = 0; source = [] }
of_server field (some cfg) = record { value = field cfg; source = lit "server" }

abbrev server_community : Option ServerConfig → Setting Str
server_community none = record { value = []; source = [] }
server_community (some cfg) = record { value = lit "public"; source = lit "server" }

abbrev no_text : Setting Str
no_text = record { value = []; source = [] }

module _ (server : Option ServerConfig) (ns t : Option Level) (p : Option Poller) where
  -- The three or four offers for a timing, the innermost first, over the server's.
  abbrev pub merged_timing :
      (PollingConfig → Option ℕ) → (PollerDefaults → Option ℕ) → (ServerConfig → ℕ) → Setting ℕ
  merged_timing own inherited default =
      first_offer
        (of_polling own (polling_of p)
          ∷ of_defaults inherited (lit "target:" ++ level_name t) (level_defaults t)
          ∷ of_defaults inherited (lit "namespace:" ++ level_name ns) (level_defaults ns)
          ∷ [])
        (of_server default server)

  abbrev pub merged_text : (SnmpV3Defaults → Str) → Setting Str
  merged_text field =
      first_offer
        (of_text field (lit "target:" ++ level_name t) (of_v3 (level_defaults t))
          ∷ of_text field (lit "namespace:" ++ level_name ns) (of_v3 (level_defaults ns))
          ∷ [])
        no_text

  abbrev pub merged_password : (SnmpV3Defaults → Str) → (SnmpV3Defaults → Str) → Setting Str
  merged_password field ref =
      first_offer
        (of_password field ref (lit "target:" ++ level_name t) (of_v3 (level_defaults t))
          ∷ of_password field ref (lit "namespace:" ++ level_name ns) (of_v3 (level_defaults ns))
          ∷ [])
        no_text

  abbrev pub merged_community : Setting Str
  merged_community =
      first_offer
        (of_defaults (λ d. d.snmp_community) (lit "target:" ++ level_name t) (level_defaults t)
          ∷ of_defaults (λ d. d.snmp_community) (lit "namespace:" ++ level_name ns)
              (level_defaults ns)
          ∷ [])
        (server_community server)

  -- Each setting of a resolved configuration, with its source, is the offer of the innermost level
  -- that makes one: the poller, then the target, then the namespace, then the server. A poller
  -- offers timings only, the server timings and the community; a level that gives no password but
  -- a secret's reference offers the reference.
  pub resolve_merges :
      let r = resolve_with_poller server ns t p in
      (r.interval_ms
        ≡ merged_timing (λ c. c.interval_ms) (λ d. d.interval_ms) (λ c. c.default_interval_ms))
      × (r.timeout_ms
          ≡ merged_timing (λ c. c.timeout_ms) (λ d. d.timeout_ms) (λ c. c.default_timeout_ms))
      × (r.retries ≡ merged_timing (λ c. c.retries) (λ d. d.retries) (λ c. c.default_retries))
      × (r.buffer_size
          ≡ merged_timing (λ c. c.buffer_size) (λ d. d.buffer_size) (λ c. c.default_buffer_size))
      × (r.community ≡ merged_community)
      × (r.security_name ≡ merged_text (λ v. v.security_name))
      × (r.security_level ≡ merged_text (λ v. v.security_level))
      × (r.auth_protocol ≡ merged_text (λ v. v.auth_protocol))
      × (r.auth_password ≡ merged_password (λ v. v.auth_password) (λ v. v.auth_secret_ref))
      × (r.priv_protocol ≡ merged_text (λ v. v.priv_protocol))
      × (r.priv_password ≡ merged_password (λ v. v.priv_password) (λ v. v.priv_secret_ref))
  unfolding resolve_with_poller
  resolve_merges = (
    ground arith,
    ground arith,
    ground arith,
    ground arith,
    ground arith,
    ground arith,
    ground arith,
    ground arith,
    ground arith,
    ground arith,
    ground arith,
  )
