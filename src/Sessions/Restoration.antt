-- ===== src/Sessions/Restoration.antt =====
-- What `TryRestore` finds, also after a clean-up.
use snmpproxy.Base.{
  ℕ, ◌≡◌, refl, sym, ◌∙◌, true, false, Option, none, some, List, [], ◌∷◌, Str, str_eq, str_beq,
  str_beq_iff, nat_eq, nat_beq_iff, arith, inl, inr, Bool-cases, Option-cases, ◌⊎◌,
}
use snmpproxy.Base.Map.{get, member}
use snmpproxy.Sessions.{Session, restore, is_lost}
use snmpproxy.Sessions.Manager.{
  SessionManager, store_at, try_restore, restored, find_lost, remove_id, can_restore,
  remove_session, remove_sessions, cleanup, expired_ids, is_expired,
}
use snmpproxy.Sessions.Agree.{Agree, pointers, pointers-without}
use snmpproxy.Sessions.Moves.{remove_session-Agree}
use snmpproxy.Sessions.Expiry.{
  get-remove_session, heap-remove_session, window-remove_session, member-expired_ids,
}

find_lost-remove_id :
    (heap : ℕ → Session) (window now : ℕ) (id : Str) (ps : List ℕ)
    → ((r : ℕ) → member r ps ≡ true → (heap r).id ≡ id → can_restore window now (heap r) ≡ false)
    → find_lost heap window now (remove_id heap id ps) ≡ find_lost heap window now ps
unfolding member
find_lost-remove_id heap window now id [] out = refl
find_lost-remove_id heap window now id (p ∷ ps) out = ground (
  arith,
  find_lost-remove_id heap window now id ps (λ r h. out r (ground arith)),
  out p (ground (arith, nat_beq_iff p p)),
  str_beq_iff (heap p).id id,
)

-- The session that `TryRestore` picks.
abbrev pick : Str → ℕ → SessionManager → Option ℕ
pick token_id now sm = find_lost sm.heap sm.reconnect_window now (pointers sm token_id)

pick-remove_session :
    (token_id : Str) (now : ℕ) (id : Str) (sm : SessionManager)
    → Agree sm
    → ((p : ℕ)
        → get sm.sessions id ≡ some p
        → can_restore sm.reconnect_window now (sm.heap p) ≡ false)
    → pick token_id now (remove_session id sm) ≡ pick token_id now sm
unfolding remove_session
pick-remove_session token_id now id sm a out = elim (Option-cases (get sm.sessions id)) [
  | inl e ↦ rw e refl
  | inr (p, e) ↦ rw e (
      rw (pointers-without sm.heap id (sm.heap p).token_id sm.by_token token_id)
        (elim (Bool-cases (str_beq (sm.heap p).token_id token_id)) [
          | inl f ↦ rw f (
              find_lost-remove_id sm.heap sm.reconnect_window now id (pointers sm token_id)
                (λ r m i. let (tok, g) = a.listed token_id r m in out r (rw (sym i) g)))
          | inr f ↦ rw f refl
        ]))
]

pick-remove_sessions :
    (token_id : Str) (now : ℕ) (ids : List Str) (sm : SessionManager)
    → Agree sm
    → ((id : Str) (p : ℕ)
        → member id ids ≡ true
        → get sm.sessions id ≡ some p
        → can_restore sm.reconnect_window now (sm.heap p) ≡ false)
    → pick token_id now (remove_sessions ids sm) ≡ pick token_id now sm
unfolding remove_sessions member
pick-remove_sessions token_id now [] sm a out = refl
pick-remove_sessions token_id now (id ∷ ids) sm a out =
    pick-remove_sessions token_id now ids (remove_session id sm) (remove_session-Agree id sm a)
      (λ j p m e. rw (heap-remove_session id sm) (
        rw (window-remove_session id sm)
          (out j p (ground arith) (ground (arith, get-remove_session id sm j)))))
    ∙ pick-remove_session token_id now id sm a
        (λ p e. out id p (ground (arith, str_beq_iff id id)) e)

expired_stays :
    (window now : ℕ) (s : Session)
    → is_expired window now s ≡ true
    → can_restore window now s ≡ false
unfolding is_expired can_restore
expired_stays window now s h = ground arith

restored-0 : (o : Option ℕ) (conn : ℕ) (sm : SessionManager) → (restored o conn sm).0 ≡ o
restored-0 none conn sm = refl
restored-0 (some p) conn sm = refl

-- In a manager whose maps agree, the clean-up takes away no session that could still be restored:
-- before and after it, at the same time, `TryRestore` picks the same session, or none.
pub cleanup_keeps_restorable :
    (token_id : Str) (conn now : ℕ) (sm : SessionManager)
    → Agree sm
    → (try_restore token_id conn now (cleanup now sm).1).0 ≡ (try_restore token_id conn now sm).0
cleanup_keeps_restorable token_id conn now sm a =
    let ids = expired_ids (is_expired sm.reconnect_window now) sm.heap sm.sessions in
    let late : (id : Str) (p : ℕ)
        → member id ids ≡ true
        → get sm.sessions id ≡ some p
        → can_restore sm.reconnect_window now (sm.heap p) ≡ false =
      λ id p m e.
        let gone : is_expired sm.reconnect_window now (sm.heap p) ≡ true = ground (
          arith,
          member-expired_ids (is_expired sm.reconnect_window now) sm.heap sm.sessions id a.unique,
        ) in
        expired_stays sm.reconnect_window now (sm.heap p) gone in
    let same = pick-remove_sessions token_id now ids sm a late in
    unfold try_restore in
    unfold cleanup in
    restored-0 (pick token_id now (remove_sessions ids sm)) conn (remove_sessions ids sm)
    ∙ same
    ∙ sym (restored-0 (pick token_id now sm) conn sm)

find_lost-some :
    (heap : ℕ → Session) (window now : ℕ) (ps : List ℕ) (p : ℕ)
    → find_lost heap window now ps ≡ some p
    → (member p ps ≡ true) × (can_restore window now (heap p) ≡ true)
unfolding member
find_lost-some heap window now [] p e = ground arith
find_lost-some heap window now (q ∷ ps) p e = elim (Bool-cases (can_restore window now (heap q))) [
  | inl h ↦ (ground arith, ground arith)
  | inr h ↦ let (m, r) = find_lost-some heap window now ps p (ground arith) in (ground arith, r)
]

find_lost-none :
    (heap : ℕ → Session) (window now : ℕ) (ps : List ℕ)
    → find_lost heap window now ps ≡ none
    → (p : ℕ) → member p ps ≡ true
    → can_restore window now (heap p) ≡ false
unfolding member
find_lost-none heap window now [] e p m = ground arith
find_lost-none heap window now (q ∷ ps) e p m =
    let rest : find_lost heap window now ps ≡ none = ground arith in
    ground (arith, nat_beq_iff q p, find_lost-none heap window now ps rest p)

-- In a manager whose maps agree, `TryRestore` either gives a session of the token that was lost
-- for less than the reconnect window, and changes nothing but that session, by `Restore`, after which
-- it is not lost; or it gives none and changes nothing, and then no session of the token could be
-- restored.
pub try_restore_exact :
    (token_id : Str) (conn now : ℕ) (sm : SessionManager)
    → Agree sm
    → ((p : ℕ) × (try_restore token_id conn now sm
          ≡ (some p, record sm { heap = store_at p (restore conn (sm.heap p)) sm.heap }))
        × ((sm.heap p).token_id ≡ token_id)
        × (can_restore sm.reconnect_window now (sm.heap p) ≡ true)
        × (is_lost (restore conn (sm.heap p)) ≡ false))
      ⊎ ((try_restore token_id conn now sm ≡ (none, sm))
          × ((p : ℕ)
              → member p (pointers sm token_id) ≡ true
              → can_restore sm.reconnect_window now (sm.heap p) ≡ false))
unfolding try_restore
try_restore_exact token_id conn now sm a = elim (Option-cases (pick token_id now sm)) [
  | inl e ↦ inr (rw e refl, find_lost-none sm.heap sm.reconnect_window now (pointers sm token_id) e)
  | inr (p, e) ↦
      let (m, r) = find_lost-some sm.heap sm.reconnect_window now (pointers sm token_id) p e in
      inl (p, (rw e refl), (a.listed token_id p m).0, r, (unfold is_lost in unfold restore in refl))
]
