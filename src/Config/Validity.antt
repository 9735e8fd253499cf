-- ===== src/Config/Validity.antt =====
-- The documented conditions on a configuration, against the validation of config/config.go.
use snmpproxy.Base.{
  ℕ, suc, ◌≤◌, ◌<◌, ◌≡◌, refl, ◌≢◌, ◌↔◌, ◌⊎◌, inl, inr, Bool, true, not, ◌&&◌, Option, none, some,
  List, [], ◌∷◌, Str, str_eq, str_beq_iff, arith, Bool-cases, Option-cases,
}
use snmpproxy.Base.Int64.{word}
use snmpproxy.Base.Map.{member, insert, member-insert, distinct}
use snmpproxy.Base.Text.{lit}
use snmpproxy.Config.{
  SnmpTargetConfig, SnmpError, TargetConfig, StorageConfig, check_auth, check_level, TokenConfig,
  Config, is_v3, validate_snmp, check_tags, validate_target, validate_storage, check_tokens,
  check_targets, validate,
}

-- The credentials that the security level asks for.
abbrev pub HasCredentials : SnmpTargetConfig → Type 0
HasCredentials c =
    (c.security_level ≡ [])
    ⊎ (c.security_level ≡ lit "noAuthNoPriv")
    ⊎ ((c.security_level ≡ lit "authNoPriv") × (c.auth_protocol ≢ []) × (c.auth_password ≢ []))
    ⊎ ((c.security_level ≡ lit "authPriv")
        × (c.auth_protocol ≢ [])
        × (c.auth_password ≢ [])
        × (c.priv_protocol ≢ [])
        × (c.priv_password ≢ []))

abbrev pub IsValidSnmp : SnmpTargetConfig → Type 0
IsValidSnmp c =
    (c.host ≢ []) × (c.oid ≢ []) × (is_v3 c ≡ true → (c.security_name ≢ []) × HasCredentials c)

module _ (c : SnmpTargetConfig) where
  check_auth-none :
      (rest : Option SnmpError)
      → (check_auth c rest ≡ none)
        ↔ ((c.auth_protocol ≢ []) × (c.auth_password ≢ []) × (rest ≡ none))
  unfolding check_auth
  check_auth-none rest = ground arith

  check_level-none : (check_level c ≡ none) ↔ HasCredentials c
  unfolding check_level
  check_level-none = ground (
    arith,
    str_beq_iff c.security_level (lit "noAuthNoPriv"),
    str_beq_iff c.security_level (lit "authNoPriv"),
    str_beq_iff c.security_level (lit "authPriv"),
  )

pub validate_snmp-none : (c : SnmpTargetConfig) → (validate_snmp c ≡ none) ↔ IsValidSnmp c
unfolding validate_snmp
validate_snmp-none c = (
  λ h. (ground arith, ground arith, λ v3. (ground arith, (check_level-none c).0 (ground arith))),
  λ h. elim (Bool-cases (is_v3 c)) [
    | inl v3 ↦ ground (arith, (check_level-none c).1 (h.2 v3).1, (h.2 v3).0)
    | inr v2 ↦ ground arith
  ],
)

abbrev pub IsValidStorage : StorageConfig → Type 0
IsValidStorage sc =
    (100 ≤ sc.sample_batch_size)
    × (sc.sample_batch_size ≤ 10000)
    × (1 ≤ sc.sample_flush_timeout_sec)
    × (sc.sample_flush_timeout_sec ≤ 60)
    × (1 ≤ sc.state_flush_interval_sec)
    × (sc.state_flush_interval_sec ≤ 60)
    × (1 ≤ sc.stats_flush_interval_sec)
    × (sc.stats_flush_interval_sec ≤ 120)

-- Each field is the bit pattern of a 64-bit integer.
abbrev pub AreWords : StorageConfig → Type 0
AreWords sc =
    (sc.sample_batch_size < word)
    × (sc.sample_flush_timeout_sec < word)
    × (sc.state_flush_interval_sec < word)
    × (sc.stats_flush_interval_sec < word)

pub validate_storage-none :
    (sc : StorageConfig) → AreWords sc → (validate_storage sc ≡ none) ↔ IsValidStorage sc
unfolding validate_storage
validate_storage-none sc w = (λ h. ground arith, λ h. ground arith)

abbrev pub AllNonempty : List Str → Type 0
AllNonempty [] = Unit
AllNonempty (t ∷ ts) = (t ≢ []) × AllNonempty ts

check_tags-none : (id : Str) (tags : List Str) → (check_tags id tags ≡ none) ↔ AllNonempty tags
unfolding check_tags
check_tags-none id [] = ground arith
check_tags-none id (t ∷ ts) = ground (arith, check_tags-none id ts)

-- A target with an id, a protocol that is configured rightly, and no empty tag.
abbrev pub IsValidTarget : TargetConfig → Type 0
IsValidTarget tc =
    (tc.id ≢ [])
    × ((c : SnmpTargetConfig) × (tc.snmp ≡ some c) × IsValidSnmp c)
    × AllNonempty tc.tags

pub validate_target-none : (tc : TargetConfig) → (validate_target tc ≡ none) ↔ IsValidTarget tc
unfolding validate_target
validate_target-none tc = (
  λ h. (
    ground arith,
    elim (Option-cases tc.snmp) [
      | inl none' ↦ absurd (ground arith)
      | inr (c, e) ↦ (c, e, (validate_snmp-none c).0 (ground arith))
    ],
    (check_tags-none tc.id tc.tags).0 (ground arith),
  ),
  λ h.
      let (c, e, v) = h.1 in
      ground (arith, (validate_snmp-none c).1 v, (check_tags-none tc.id tc.tags).1 h.2),
)

abbrev pub AllValid : List TargetConfig → Type 0
AllValid [] = Unit
AllValid (tc ∷ tcs) = IsValidTarget tc × AllValid tcs

abbrev pub target_ids : List TargetConfig → List Str
target_ids [] = []
target_ids (tc ∷ tcs) = tc.id ∷ target_ids tcs

abbrev disjoint : List Str → List Str → Bool
disjoint seen [] = true
disjoint seen (x ∷ xs) = not (member x seen) && disjoint seen xs

disjoint-insert :
    (x : Str) (seen xs : List Str)
    → disjoint (insert x seen) xs ≡ (not (member x xs) && disjoint seen xs)
unfolding member
disjoint-insert x seen [] = refl
disjoint-insert x seen (y ∷ ys) =
    ground
      (arith, disjoint-insert x seen ys, member-insert x y seen, str_beq_iff x y, str_beq_iff y x)

disjoint-nil : (xs : List Str) → disjoint [] xs ≡ true
unfolding member
disjoint-nil [] = refl
disjoint-nil (x ∷ xs) = disjoint-nil xs

check_targets-none :
    (i : ℕ) (seen : List Str) (tcs : List TargetConfig)
    → (check_targets i seen tcs ≡ none) ↔ (
        AllValid tcs × (disjoint seen (target_ids tcs) ≡ true) × (distinct (target_ids tcs) ≡ true))
unfolding check_targets
check_targets-none i seen [] = (λ h. (tt, refl, refl), λ h. refl)
check_targets-none i seen (tc ∷ tcs) =
    let (there, back) = check_targets-none (suc i) (insert tc.id seen) tcs in
    let moved = disjoint-insert tc.id seen (target_ids tcs) in
    (
      λ h.
          let (rest, fresh, once) = there (ground arith) in
          (((validate_target-none tc).0 (ground arith), rest), ground arith, ground arith),
      λ h.
          let (both, fresh, once) = h in
          ground
            (arith, (validate_target-none tc).1 both.0, back (both.1, ground arith, ground arith)),
    )

abbrev pub AllTokens : List TokenConfig → Type 0
AllTokens [] = Unit
AllTokens (t ∷ ts) = (t.token ≢ []) × AllTokens ts

check_tokens-none : (i : ℕ) (ts : List TokenConfig) → (check_tokens i ts ≡ none) ↔ AllTokens ts
unfolding check_tokens
check_tokens-none i [] = ground arith
check_tokens-none i (t ∷ ts) = ground (arith, check_tokens-none (suc i) ts)

-- Validation accepts a configuration exactly if it has a listening address, a token or more and no
-- empty token, storage settings in their documented ranges, and valid targets with distinct ids,
-- for integer settings that are 64-bit patterns.
pub validate_exact :
    (c : Config)
    → AreWords c.storage
    → (validate c ≡ none) ↔ (
        (c.listen ≢ [])
        × (c.tokens ≢ [])
        × AllTokens c.tokens
        × IsValidStorage c.storage
        × AllValid c.targets
        × (distinct (target_ids c.targets) ≡ true))
unfolding validate
validate_exact c w =
    let (tokens, tokens') = check_tokens-none 0 c.tokens in
    let (storage, storage') = validate_storage-none c.storage w in
    let (targets, targets') = check_targets-none 0 [] c.targets in
    (
      λ h.
          let (valid, fresh, once) = targets (ground arith) in
          (ground arith, ground arith, tokens (ground arith), storage (ground arith), valid, once),
      λ h. ground (
        arith,
        tokens' h.2,
        storage' h.3,
        targets' (h.4, disjoint-nil (target_ids c.targets), h.5),
      ),
    )
