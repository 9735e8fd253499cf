-- ===== src/Sessions/Expiry.antt =====
-- What `Cleanup` removes.
use snmpproxy.Base.{
  ℕ, ◌≡◌, refl, ap, sym, ◌∙◌, Bool, true, false, Option, none, some, List, [], ◌∷◌, Str, str_eq,
  str_beq, str_beq_iff, nat_eq, if◌then◌else◌, arith, inl, inr, Bool-cases, Option-cases,
}
use snmpproxy.Base.Map.{Map, get, get-delete, member, distinct, keys, get-unbound}
use snmpproxy.Sessions.{Session}
use snmpproxy.Sessions.Manager.{
  SessionManager, remove_session, remove_sessions, cleanup, expired_ids, is_expired,
}
use snmpproxy.Sessions.Agree.{Agree}

pub get-remove_session :
    (id : Str) (sm : SessionManager) (j : Str)
    → get (remove_session id sm).sessions j ≡ (if str_beq id j then none else get sm.sessions j)
unfolding remove_session
get-remove_session id sm j = elim (Option-cases (get sm.sessions id)) [
  | inl e ↦ rw e (ground (arith, str_beq_iff id j))
  | inr (p, e) ↦ rw e (get-delete sm.sessions id j)
]

pub heap-remove_session : (id : Str) (sm : SessionManager) → (remove_session id sm).heap ≡ sm.heap
unfolding remove_session
heap-remove_session id sm = elim (Option-cases (get sm.sessions id)) [
  | inl e ↦ rw e refl
  | inr (p, e) ↦ rw e refl
]

pub window-remove_session :
    (id : Str) (sm : SessionManager) → (remove_session id sm).reconnect_window ≡ sm.reconnect_window
unfolding remove_session
window-remove_session id sm = elim (Option-cases (get sm.sessions id)) [
  | inl e ↦ rw e refl
  | inr (p, e) ↦ rw e refl
]

get-remove_sessions :
    (ids : List Str) (sm : SessionManager) (j : Str)
    → get (remove_sessions ids sm).sessions j ≡ (if member j ids then none else get sm.sessions j)
unfolding remove_sessions member
get-remove_sessions [] sm j = refl
get-remove_sessions (id ∷ ids) sm j =
    get-remove_sessions ids (remove_session id sm) j
    ∙ rw (get-remove_session id sm j) (ground arith)

heap-remove_sessions :
    (ids : List Str) (sm : SessionManager)
    → ((remove_sessions ids sm).heap ≡ sm.heap)
      × ((remove_sessions ids sm).reconnect_window ≡ sm.reconnect_window)
unfolding remove_sessions
heap-remove_sessions [] sm = (refl, refl)
heap-remove_sessions (id ∷ ids) sm =
    let (h, w) = heap-remove_sessions ids (remove_session id sm) in
    (h ∙ heap-remove_session id sm, w ∙ window-remove_session id sm)

abbrev holds_at : (Session → Bool) → (ℕ → Session) → Option ℕ → Bool
holds_at test heap none = false
holds_at test heap (some p) = test (heap p)

pub member-expired_ids :
    (expired : Session → Bool) (heap : ℕ → Session) (m : Map Str ℕ) (j : Str)
    → distinct (keys m) ≡ true
    → member j (expired_ids expired heap m) ≡ holds_at expired heap (get m j)
unfolding member get
member-expired_ids expired heap [] j d = refl
member-expired_ids expired heap ((i, p) ∷ m) j d =
    let rest = member-expired_ids expired heap m j (ground arith) in
    elim (Bool-cases (str_beq i j)) [
      | inl e ↦
          let same : i ≡ j = (str_beq_iff i j).0 e in
          let out : get m j ≡ none = get-unbound m j (rw (sym same) (ground arith)) in
          let absent : member j (expired_ids expired heap m) ≡ false =
            rest ∙ ap (holds_at expired heap) out in
          rw e (ground arith)
      | inr e ↦ rw e (ground arith)
    ]

-- What is left of a binding after the clean-up.
abbrev pub survivor : (Session → Bool) → (ℕ → Session) → Option ℕ → Option ℕ
survivor expired heap none = none
survivor expired heap (some p) = if expired (heap p) then none else some p

survivor_lem :
    (expired : Session → Bool) (heap : ℕ → Session) (o : Option ℕ)
    → (if holds_at expired heap o then none else o) ≡ survivor expired heap o
survivor_lem expired heap none = refl
survivor_lem expired heap (some p) = refl

-- In a manager whose maps agree, `Cleanup` unbinds exactly the identifiers of the sessions that
-- have been lost for longer than the reconnect window, and stores nothing in any session.
pub cleanup_exact :
    (now : ℕ) (sm : SessionManager)
    → Agree sm
    → ((id : Str)
        → get (cleanup now sm).1.sessions id
          ≡ survivor (is_expired sm.reconnect_window now) sm.heap (get sm.sessions id))
      × ((cleanup now sm).1.heap ≡ sm.heap)
unfolding cleanup
cleanup_exact now sm a =
    let expired = is_expired sm.reconnect_window now in
    let ids = expired_ids expired sm.heap sm.sessions in
    (
      (λ id.
          get-remove_sessions ids sm id
          ∙ rw (member-expired_ids expired sm.heap sm.sessions id a.unique)
              (survivor_lem expired sm.heap (get sm.sessions id))),
      (heap-remove_sessions ids sm).0,
    )
