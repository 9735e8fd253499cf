-- ===== src/Sessions/Agree.antt =====
-- The maps `sessions` and `byToken` of a session manager agree, after any of its operations.
use snmpproxy.Base.{
  ℕ, ◌<◌, ◌≡◌, refl, ap, sym, true, false, not, ◌&&◌, ◌||◌, some, List, [], ◌∷◌, ◌++◌, Str, str_eq,
  str_beq, str_beq_iff, nat_eq, if◌then◌else◌, ltb, nat_beq, length, arith, inl, inr, Bool-cases,
}
use snmpproxy.Base.Map.{Map, keys, get, get-put, member, distinct}
use snmpproxy.Base.Index.{or_empty}
use snmpproxy.Sessions.{Session}
use snmpproxy.Sessions.Manager.{SessionManager, without, remove_id}

-- The addresses of the sessions of a token.
abbrev pub pointers : SessionManager → Str → List ℕ
pointers sm token_id = or_empty (get sm.by_token token_id)

-- Every session is found under its identifier and once under its token, and nothing else is.
pub record Agree (sm : SessionManager) : Type 0 where
  pub known :
      (id : Str) (p : ℕ)
      → get sm.sessions id ≡ some p
      → ((sm.heap p).id ≡ id) × (p < sm.next) × (member p (pointers sm (sm.heap p).token_id) ≡ true)
  pub listed :
      (token_id : Str) (p : ℕ)
      → member p (pointers sm token_id) ≡ true
      → ((sm.heap p).token_id ≡ token_id) × (get sm.sessions (sm.heap p).id ≡ some p)
  pub once : (token_id : Str) → distinct (pointers sm token_id) ≡ true
  pub unique : distinct (keys sm.sessions) ≡ true

pub member-append_one :
    (p q : ℕ) (ps : List ℕ) → member q (ps ++ p ∷ []) ≡ (member q ps || nat_beq p q)
unfolding member
member-append_one p q [] = ground arith
member-append_one p q (r ∷ ps) = ground (arith, member-append_one p q ps)

pub distinct-append_one :
    (p : ℕ) (ps : List ℕ) → distinct (ps ++ p ∷ []) ≡ (not (member p ps) && distinct ps)
unfolding member
distinct-append_one p [] = refl
distinct-append_one p (r ∷ ps) = ground (arith, distinct-append_one p ps, member-append_one p r ps)

-- What is left after the first session with the identifier goes, if it is the only one.
pub member-remove_id :
    (heap : ℕ → Session) (id : Str) (p q : ℕ) (ps : List ℕ)
    → ((r : ℕ) → member r ps ≡ true → str_beq (heap r).id id ≡ nat_beq p r)
    → distinct ps ≡ true
    → member q (remove_id heap id ps) ≡ (not (nat_beq p q) && member q ps)
unfolding member
member-remove_id heap id p q [] only d = ground arith
member-remove_id heap id p q (r ∷ ps) only d = ground (
  arith,
  only r (ground arith),
  member-remove_id heap id p q ps (λ r' h. only r' (ground arith)) (ground arith),
)

pub distinct-remove_id :
    (heap : ℕ → Session) (id : Str) (p : ℕ) (ps : List ℕ)
    → ((r : ℕ) → member r ps ≡ true → str_beq (heap r).id id ≡ nat_beq p r)
    → distinct ps ≡ true
    → distinct (remove_id heap id ps) ≡ true
unfolding member
distinct-remove_id heap id p [] only d = refl
distinct-remove_id heap id p (r ∷ ps) only d = ground (
  arith,
  member-remove_id heap id p r ps (λ r' h. only r' (ground arith)) (ground arith),
  distinct-remove_id heap id p ps (λ r' h. only r' (ground arith)) (ground arith),
)

remove_id_unchanged :
    (heap : ℕ → Session) (id : Str) (ps : List ℕ)
    → ltb (length (remove_id heap id ps)) (length ps) ≡ false
    → remove_id heap id ps ≡ ps
remove_id_unchanged heap id [] h = refl
remove_id_unchanged heap id (p ∷ ps) h = ground (arith, remove_id_unchanged heap id ps)

pub pointers-without :
    (heap : ℕ → Session) (id token_id : Str) (by_token : Map Str (List ℕ)) (other : Str)
    → or_empty (get (without heap id token_id by_token) other) ≡ (
        if str_beq token_id other
        then remove_id heap id (or_empty (get by_token other))
        else or_empty (get by_token other))
unfolding without
pointers-without heap id token_id by_token other =
    let ps = or_empty (get by_token token_id) in
    let qs = remove_id heap id ps in
    let same : str_beq token_id other ≡ true → token_id ≡ other = (str_beq_iff token_id other).0 in
    elim (Bool-cases (ltb (length qs) (length ps))) [
      | inl e ↦ rw e (
          rw (get-put by_token token_id qs other) (elim (Bool-cases (str_beq token_id other)) [
            | inl f ↦ rw f (ap (λ t. remove_id heap id (or_empty (get by_token t))) (same f))
            | inr f ↦ rw f refl
          ]))
      | inr e ↦ rw e (elim (Bool-cases (str_beq token_id other)) [
        | inl f ↦ rw f (rw (sym (same f)) (sym (remove_id_unchanged heap id ps e)))
        | inr f ↦ rw f refl
      ])
    ]
