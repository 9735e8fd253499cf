-- ===== src/Pollers/Names.antt =====
-- Valid names, and the keys that are made of them.
use snmpproxy.Base.{◌≡◌, refl, true, [], ◌∷◌, ◌++◌, Str, str_eq, str_beq, str_beq_iff, all, arith}
use snmpproxy.Base.Keys.{slash_free, str_beq-slash}
use snmpproxy.State.{poller_key}
use snmpproxy.Pollers.{is_valid_name, is_name_char}

name_chars-slash_free : (s : Str) → all is_name_char s ≡ true → slash_free s ≡ true
name_chars-slash_free [] h = refl
name_chars-slash_free (c ∷ s) h = ground (arith, name_chars-slash_free s)

is_valid_name-slash_free : (s : Str) → is_valid_name s ≡ true → slash_free s ≡ true
unfolding is_valid_name
is_valid_name-slash_free [] h = refl
is_valid_name-slash_free (c ∷ s) h = ground (arith, name_chars-slash_free s)

-- Two pollers whose names, targets and namespaces are valid names have the same key only if they
-- have the same name, target and namespace.
pub poller_key_unique :
    (ns t n ns' t' n' : Str)
    → is_valid_name ns ≡ true
    → is_valid_name t ≡ true
    → is_valid_name ns' ≡ true
    → is_valid_name t' ≡ true
    → poller_key ns t n ≡ poller_key ns' t' n'
    → (ns ≡ ns') × (t ≡ t') × (n ≡ n')
unfolding poller_key
poller_key_unique ns t n ns' t' n' h k h' k' e =
    let outer =
      str_beq-slash ns ns' (t ++ b'/' ∷ n) (t' ++ b'/' ∷ n') (is_valid_name-slash_free ns h)
        (is_valid_name-slash_free ns' h') in
    let inner =
      str_beq-slash t t' n n' (is_valid_name-slash_free t k) (is_valid_name-slash_free t' k') in
    let same : str_beq (ns ++ b'/' ∷ (t ++ b'/' ∷ n)) (ns' ++ b'/' ∷ (t' ++ b'/' ∷ n')) ≡ true =
      (str_beq_iff (ns ++ b'/' ∷ (t ++ b'/' ∷ n)) (ns' ++ b'/' ∷ (t' ++ b'/' ∷ n'))).1 e in
    (
      ground (arith, outer, inner, same, str_beq_iff ns ns'),
      ground (arith, outer, inner, same, str_beq_iff t t'),
      ground (arith, outer, inner, same, str_beq_iff n n'),
    )
