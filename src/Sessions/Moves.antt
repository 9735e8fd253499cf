-- ===== src/Sessions/Moves.antt =====
-- The agreement through each operation of a session manager.
use snmpproxy.Base.{
  ℕ, suc, ◌≡◌, refl, sym, ◌∙◌, true, false, not, ◌&&◌, ◌||◌, Option, none, some, List, [], ◌∷◌,
  ◌++◌, Str, str_eq, str_beq, str_beq_iff, nat_eq, if◌then◌else◌, nat_beq, nat_beq_iff, arith, inl,
  inr, Bool-cases, Option-cases,
}
use snmpproxy.Base.Map.{
  distinct-keys-put, distinct-keys-delete, get, get-put, get-delete, member, distinct,
}
use snmpproxy.Sessions.{Session, restore}
use snmpproxy.Sessions.Manager.{
  SessionManager, store_at, create_session, restored, remove_pointer, remove_session,
  remove_sessions,
}
use snmpproxy.Sessions.Agree.{
  Agree, pointers, member-append_one, distinct-append_one, member-remove_id, distinct-remove_id,
  pointers-without,
}

-- A store that keeps the identifier and the token keeps the agreement.
pub store_at-Agree :
    (p : ℕ) (s : Session) (sm : SessionManager)
    → s.id ≡ (sm.heap p).id
    → s.token_id ≡ (sm.heap p).token_id
    → Agree sm
    → Agree (record sm { heap = store_at p s sm.heap })
unfolding store_at
store_at-Agree p s sm same_id same_token a =
    let ids : (q : ℕ) → (store_at p s sm.heap q).id ≡ (sm.heap q).id =
      λ q. ground (arith, nat_beq_iff p q) in
    let toks : (q : ℕ) → (store_at p s sm.heap q).token_id ≡ (sm.heap q).token_id =
      λ q. ground arith in
    record {
      known = λ id q e. let (i, lt, m) = a.known id q e in (ids q ∙ i, lt, rw (toks q) m);
      listed = λ t q m. let (tok, e) = a.listed t q m in (toks q ∙ tok, rw (ids q) e);
      once = a.once;
      unique = a.unique;
    }

-- How the maps read after a new session.
member-create_session :
    (id token_id : Str) (conn now : ℕ) (sm : SessionManager) (t : Str) (q : ℕ)
    → member q (pointers (create_session id token_id conn now sm).1 t)
      ≡ (member q (pointers sm t) || (str_beq token_id t && nat_beq sm.next q))
unfolding create_session
member-create_session id token_id conn now sm t q =
    rw (get-put sm.by_token token_id (pointers sm token_id ++ sm.next ∷ []) t)
      (elim (Bool-cases (str_beq token_id t)) [
        | inl e ↦
            rw e (rw ((str_beq_iff token_id t).0 e) (member-append_one sm.next q (pointers sm t)))
        | inr e ↦ rw e (ground arith)
      ])

distinct-create_session :
    (id token_id : Str) (conn now : ℕ) (sm : SessionManager) (t : Str)
    → member sm.next (pointers sm t) ≡ false
    → distinct (pointers sm t) ≡ true
    → distinct (pointers (create_session id token_id conn now sm).1 t) ≡ true
unfolding create_session
distinct-create_session id token_id conn now sm t out once =
    rw (get-put sm.by_token token_id (pointers sm token_id ++ sm.next ∷ []) t)
      (elim (Bool-cases (str_beq token_id t)) [
        | inl e ↦ rw e (
            rw ((str_beq_iff token_id t).0 e)
              (distinct-append_one sm.next (pointers sm t) ∙ ground arith))
        | inr e ↦ rw e once
      ])

-- The next address is under no token.
next_unlisted : (sm : SessionManager) (t : Str) → Agree sm → member sm.next (pointers sm t) ≡ false
next_unlisted sm t a = elim (Bool-cases (member sm.next (pointers sm t))) [
  | inl e ↦
      let (tok, s) = a.listed t sm.next e in
      let (i, lt, m) = a.known (sm.heap sm.next).id sm.next s in ground arith
  | inr e ↦ e
]

-- A new session under a free identifier.
pub create_session-Agree :
    (id token_id : Str) (conn now : ℕ) (sm : SessionManager)
    → get sm.sessions id ≡ none
    → Agree sm
    → Agree (create_session id token_id conn now sm).1
create_session-Agree id token_id conn now sm free a =
    let sm' = (create_session id token_id conn now sm).1 in
    let ids : (q : ℕ) → (sm'.heap q).id ≡ (if nat_beq sm.next q then id else (sm.heap q).id) =
      λ q. unfold create_session in unfold store_at in ground arith in
    let toks : (q : ℕ)
        → (sm'.heap q).token_id ≡ (if nat_beq sm.next q then token_id else (sm.heap q).token_id) =
      λ q. unfold create_session in unfold store_at in ground arith in
    let found : (j : Str)
        → get sm'.sessions j ≡ (if str_beq id j then some sm.next else get sm.sessions j) =
      λ j. unfold create_session in get-put sm.sessions id sm.next j in
    let next : sm'.next ≡ suc sm.next = unfold create_session in refl in
    let ptrs = member-create_session id token_id conn now sm in
    record {
      known = λ j p e. elim (Bool-cases (str_beq id j)) [
        | inl g ↦
            let new : nat_beq sm.next p ≡ true = ground (arith, found j) in
            (
              ground (arith, ids p, str_beq_iff id j),
              ground arith,
              ground (
                arith,
                toks p,
                ptrs (sm'.heap p).token_id p,
                str_beq_iff token_id (sm'.heap p).token_id,
              ),
            )
        | inr g ↦
            let (i, lt, m) = a.known j p (ground (arith, found j)) in
            let tok : (sm'.heap p).token_id ≡ (sm.heap p).token_id = ground (arith, toks p) in
            (
              ground (arith, ids p),
              ground arith,
              rw tok (ground (arith, ptrs (sm.heap p).token_id p)),
            )
      ];
      listed = λ t p m. elim (Bool-cases (nat_beq sm.next p)) [
        | inl f ↦
            let same : sm.next ≡ p = (nat_beq_iff sm.next p).0 f in
            let out : member p (pointers sm t) ≡ false = rw (sym same) (next_unlisted sm t a) in
            let mine : (sm'.heap p).id ≡ id = ground (arith, ids p) in
            (
              ground (arith, toks p, ptrs t p, str_beq_iff token_id t),
              (rw mine (found id ∙ ground (arith, str_beq_iff id id))),
            )
        | inr f ↦
            let (tok, e) = a.listed t p (ground (arith, ptrs t p)) in
            let mine : (sm'.heap p).id ≡ (sm.heap p).id = ground (arith, ids p) in
            let other : str_beq id (sm.heap p).id ≡ false =
              ground (arith, str_beq_iff id (sm.heap p).id) in
            (ground (arith, toks p), (rw mine (found (sm.heap p).id ∙ ground arith)))
      ];
      once =
          λ t. distinct-create_session id token_id conn now sm t (next_unlisted sm t a) (a.once t);
      unique = unfold create_session in distinct-keys-put sm.sessions id sm.next a.unique;
    }

-- Under any token, only the session with the identifier has it.
only_holder :
    (id : Str) (p : ℕ) (sm : SessionManager) (t : Str)
    → get sm.sessions id ≡ some p
    → Agree sm
    → (r : ℕ) → member r (pointers sm t) ≡ true
    → str_beq (sm.heap r).id id ≡ nat_beq p r
only_holder id p sm t e a r m =
    let (tok, e') = a.listed t r m in
    let (i, lt, m') = a.known id p e in
    ground (arith, str_beq_iff (sm.heap r).id id, nat_beq_iff p r)

-- How the maps read after a session is removed.
member-remove_pointer :
    (id : Str) (p : ℕ) (sm : SessionManager) (t : Str) (q : ℕ)
    → get sm.sessions id ≡ some p
    → Agree sm
    → member q (pointers (remove_pointer id p sm) t)
      ≡ (not (nat_beq p q) && member q (pointers sm t))
member-remove_pointer id p sm t q e a =
    rw (pointers-without sm.heap id (sm.heap p).token_id sm.by_token t)
      (elim (Bool-cases (str_beq (sm.heap p).token_id t)) [
        | inl f ↦
            rw f (
              member-remove_id sm.heap id p q (pointers sm t) (only_holder id p sm t e a)
                (a.once t))
        | inr f ↦ rw f (elim (Bool-cases (nat_beq p q)) [
          | inl g ↦
              let out : member p (pointers sm t) ≡ false =
                ground (arith, a.listed t p, str_beq_iff (sm.heap p).token_id t) in
              rw (sym ((nat_beq_iff p q).0 g)) (out ∙ ground arith)
          | inr g ↦ ground arith
        ])
      ])

distinct-remove_pointer :
    (id : Str) (p : ℕ) (sm : SessionManager) (t : Str)
    → get sm.sessions id ≡ some p
    → Agree sm
    → distinct (pointers (remove_pointer id p sm) t) ≡ true
distinct-remove_pointer id p sm t e a =
    rw (pointers-without sm.heap id (sm.heap p).token_id sm.by_token t)
      (elim (Bool-cases (str_beq (sm.heap p).token_id t)) [
        | inl f ↦
            rw f (
              distinct-remove_id sm.heap id p (pointers sm t) (only_holder id p sm t e a)
                (a.once t))
        | inr f ↦ rw f (a.once t)
      ])

remove_pointer-Agree :
    (id : Str) (p : ℕ) (sm : SessionManager)
    → get sm.sessions id ≡ some p
    → Agree sm
    → Agree (remove_pointer id p sm)
remove_pointer-Agree id p sm e a =
    let ptrs = λ (t : Str) (q : ℕ). member-remove_pointer id p sm t q e a in
    record {
      known = λ j q f.
          let f' : get sm.sessions j ≡ some q = ground (arith, get-delete sm.sessions id j) in
          let (i, lt, m) = a.known j q f' in
          (
            i,
            lt,
            (ptrs (sm.heap q).token_id q
                ∙ ground (
                  arith,
                  get-delete sm.sessions id j,
                  nat_beq_iff p q,
                  str_beq_iff id j,
                  a.known id p e,
                )),
          );
      listed = λ t q m.
          let (tok, f) = a.listed t q (ground (arith, ptrs t q)) in
          (
            tok,
            (get-delete sm.sessions id (sm.heap q).id
                ∙ ground (arith, ptrs t q, str_beq_iff id (sm.heap q).id, nat_beq_iff p q)),
          );
      once = λ t. distinct-remove_pointer id p sm t e a;
      unique = distinct-keys-delete sm.sessions id a.unique;
    }

pub remove_session-Agree :
    (id : Str) (sm : SessionManager) → Agree sm → Agree (remove_session id sm)
unfolding remove_session
remove_session-Agree id sm a = elim (Option-cases (get sm.sessions id)) [
  | inl e ↦ rw e a
  | inr (p, e) ↦ rw e (remove_pointer-Agree id p sm e a)
]

pub remove_sessions-Agree :
    (ids : List Str) (sm : SessionManager) → Agree sm → Agree (remove_sessions ids sm)
unfolding remove_sessions
remove_sessions-Agree [] sm a = a
remove_sessions-Agree (id ∷ ids) sm a =
    remove_sessions-Agree ids (remove_session id sm) (remove_session-Agree id sm a)

pub restored-Agree :
    (o : Option ℕ) (conn : ℕ) (sm : SessionManager) → Agree sm → Agree (restored o conn sm).1
restored-Agree none conn sm a = a
restored-Agree (some p) conn sm a =
    store_at-Agree p (restore conn (sm.heap p)) sm (unfold restore in refl) (unfold restore in refl)
      a
