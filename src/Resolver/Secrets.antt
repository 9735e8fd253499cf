-- ===== src/Resolver/Secrets.antt =====
-- `ResolveSecrets` and the form of a secret's reference. The decryption of a secret in the store
-- is an argument, and so is the test for a key.
use snmpproxy.Base.{
  ◌≡◌, refl, ◌≢◌, Bool, true, false, ◌&&◌, Option, none, some, [], ◌∷◌, ◌++◌, Str, str_beq,
  str_beq_iff, if◌then◌else◌, ltb, length, take, drop, arith,
}
use snmpproxy.Base.Results.{Result, ok, err}
use snmpproxy.Base.Text.{lit}
use snmpproxy.Resolver.{Setting, ResolvedPollerConfig}

-- `isSecretRef`
unfoldable pub is_secret_ref : Str → Bool
is_secret_ref value = ltb 7 (length value) && str_beq (take 7 value) (lit "secret:")

-- `extractSecretName`
unfoldable pub extract_secret_name : Str → Str
extract_secret_name ref = if ltb 7 (length ref) then drop 7 ref else []

module _ {E : Type 0} (has_secret_key : Bool) (get_secret_value : Str → Str → Result E Str) where
  -- One of the two blocks: the new value of a password, or the error of the store.
  unfoldable pub resolve_password : Str → Setting Str → Result E (Setting Str)
  resolve_password ns password =
      if is_secret_ref password.value
      then elim (get_secret_value ns (extract_secret_name password.value)) [
        | ok value ↦ ok (record password { value = value })
        | err e ↦ err e
      ]
      else ok password

  abbrev set_priv : Result E (Setting Str) → ResolvedPollerConfig → Option E × ResolvedPollerConfig
  set_priv (ok password) config = (none, record config { priv_password = password })
  set_priv (err e) config = (some e, config)

  abbrev set_both :
      Result E (Setting Str)
      → Result E (Setting Str)
      → ResolvedPollerConfig
      → Option E × ResolvedPollerConfig
  set_both (ok password) priv config = set_priv priv (record config { auth_password = password })
  set_both (err e) priv config = (some e, config)

  -- `ResolveSecrets`: the error, and the configuration, which is written in place.
  unfoldable pub resolve_secrets : Str → ResolvedPollerConfig → Option E × ResolvedPollerConfig
  resolve_secrets ns config =
      if has_secret_key
      then set_both (resolve_password ns config.auth_password)
          (resolve_password ns config.priv_password) config
      else (none, config)

-- A reference that was made from a name gives the name back, unless the name is empty.
pub secret_ref_roundtrip :
    (name : Str)
    → name ≢ []
    → (is_secret_ref (lit "secret:" ++ name) ≡ true)
      × (extract_secret_name (lit "secret:" ++ name) ≡ name)
unfolding is_secret_ref extract_secret_name
secret_ref_roundtrip [] ne = absurd (ne refl)
secret_ref_roundtrip (c ∷ name) ne =
    (ground (arith, str_beq_iff (lit "secret:") (lit "secret:")), ground arith)

-- What stands for a password: the value of the secret that it refers to, or itself.
pub data Reveals {E : Type 0} (get_secret_value : Str → Str → Result E Str) (ns : Str)
    (old new : Str) : Type 0 where
  referred :
      (name : Str)
      → name ≢ []
      → old ≡ lit "secret:" ++ name
      → get_secret_value ns name ≡ ok new
      → Reveals get_secret_value ns old new
  plain : is_secret_ref old ≡ false → old ≡ new → Reveals get_secret_value ns old new

abbrev pub revealed : Setting Str → Str → Setting Str
revealed s new = record s { value = new }

resolve_password-ok :
    {E : Type 0} (has_secret_key : Bool) (get_secret_value : Str → Str → Result E Str)
    (ns new : Str) (s : Setting Str)
    → Reveals get_secret_value ns s.value new
    → resolve_password has_secret_key get_secret_value ns s ≡ ok (revealed s new)
resolve_password-ok b get ns new s (referred name ne e found) =
    let (is_ref, extracted) = secret_ref_roundtrip name ne in
    unfold resolve_password in rw (e, is_ref, extracted, found)
resolve_password-ok b get ns new s (plain no_ref e) =
    unfold resolve_password in rw no_ref (rw (← e))

-- With a key, if each of the two passwords is no reference, or refers to a secret that the store
-- can read, `ResolveSecrets` returns no error, puts the values of the secrets in, and changes
-- nothing else.
pub resolve_secrets_values :
    {E : Type 0} (get_secret_value : Str → Str → Result E Str) (ns auth priv : Str)
    (config : ResolvedPollerConfig)
    → Reveals get_secret_value ns config.auth_password.value auth
    → Reveals get_secret_value ns config.priv_password.value priv
    → resolve_secrets true get_secret_value ns config ≡ (
      none,
      record config {
        auth_password = revealed config.auth_password auth;
        priv_password = revealed config.priv_password priv;
      },
    )
resolve_secrets_values get ns auth priv config a p =
    unfold resolve_secrets in
    rw (
      resolve_password-ok true get ns auth config.auth_password a,
      resolve_password-ok true get ns priv config.priv_password p,
    )
