-- ===== src/Sessions/Traffic.antt =====
-- The operations of a session manager in any order.
use snmpproxy.Base.{
  ℕ, ◌≡◌, refl, Bool, true, false, not, ◌&&◌, Option, none, some, List, [], ◌∷◌, Str, str_eq,
  nat_eq, arith,
}
use snmpproxy.Base.Map.{get, member}
use snmpproxy.Sessions.{is_some, mark_lost}
use snmpproxy.Sessions.Manager.{
  SessionManager, SessionManagerConfig, new_session_manager, create_session, try_restore, find_lost,
  remove_session, cleanup, lose_connection, expired_ids, is_expired,
}
use snmpproxy.Sessions.Agree.{Agree, pointers}
use snmpproxy.Sessions.Moves.{
  store_at-Agree, create_session-Agree, remove_session-Agree, remove_sessions-Agree, restored-Agree,
}

-- What connections and the clean-up loop do with the manager; the times are those of the calls.
pub data Event : Type 0 where
  connect : Str → Str → ℕ → ℕ → Event
  reconnect : Str → ℕ → ℕ → Event
  lose : ℕ → ℕ → Event
  close_session : Str → Event
  clean : ℕ → Event

unfoldable pub apply_event : Event → SessionManager → SessionManager
apply_event (connect id token_id conn now) sm = (create_session id token_id conn now sm).1
apply_event (reconnect token_id conn now) sm = (try_restore token_id conn now sm).1
apply_event (lose p now) sm = lose_connection p now sm
apply_event (close_session id) sm = remove_session id sm
apply_event (clean now) sm = (cleanup now sm).1

unfoldable pub apply_events : List Event → SessionManager → SessionManager
apply_events [] sm = sm
apply_events (e ∷ es) sm = apply_events es (apply_event e sm)

-- A new session's identifier is free.
abbrev pub is_free : Event → SessionManager → Bool
is_free (connect id token_id conn now) sm = not (is_some (get sm.sessions id))
is_free (reconnect token_id conn now) sm = true
is_free (lose p now) sm = true
is_free (close_session id) sm = true
is_free (clean now) sm = true

abbrev pub all_free : List Event → SessionManager → Bool
all_free [] sm = true
all_free (e ∷ es) sm = is_free e sm && all_free es (apply_event e sm)

is_some-none : (o : Option ℕ) → is_some o ≡ false → o ≡ none
is_some-none none h = refl
is_some-none (some a) h = ground arith

new_session_manager-Agree : (cfg : SessionManagerConfig) → Agree (new_session_manager cfg)
unfolding new_session_manager get member
new_session_manager-Agree cfg = record {
  known = λ id p e. ground arith;
  listed = λ t p m. ground arith;
  once = λ t. refl;
  unique = refl;
}

apply_event-Agree :
    (e : Event) (sm : SessionManager) → is_free e sm ≡ true → Agree sm → Agree (apply_event e sm)
unfolding apply_event
apply_event-Agree (connect id token_id conn now) sm h a =
    create_session-Agree id token_id conn now sm (ground (arith, is_some-none (get sm.sessions id)))
      a
apply_event-Agree (reconnect token_id conn now) sm h a =
    unfold try_restore in
    restored-Agree (find_lost sm.heap sm.reconnect_window now (pointers sm token_id)) conn sm a
apply_event-Agree (lose p now) sm h a =
    unfold lose_connection in
    store_at-Agree p (mark_lost now (sm.heap p)) sm (unfold mark_lost in refl)
      (unfold mark_lost in refl) a
apply_event-Agree (close_session id) sm h a = remove_session-Agree id sm a
apply_event-Agree (clean now) sm h a =
    unfold cleanup in
    remove_sessions-Agree (expired_ids (is_expired sm.reconnect_window now) sm.heap sm.sessions) sm
      a

apply_events-Agree :
    (es : List Event) (sm : SessionManager)
    → all_free es sm ≡ true
    → Agree sm
    → Agree (apply_events es sm)
unfolding apply_events
apply_events-Agree [] sm h a = a
apply_events-Agree (e ∷ es) sm h a =
    apply_events-Agree es (apply_event e sm) (ground arith)
      (apply_event-Agree e sm (ground arith) a)

-- In any sequence of events from a new manager on, in which a new session gets a free identifier,
-- the maps of the manager stay in agreement: a session that is found by its identifier has it and
-- stands once under its token, and a session that stands under a token has it and is found by its
-- identifier.
pub sessions_consistent :
    (cfg : SessionManagerConfig) (es : List Event)
    → all_free es (new_session_manager cfg) ≡ true
    → Agree (apply_events es (new_session_manager cfg))
sessions_consistent cfg es free =
    apply_events-Agree es (new_session_manager cfg) free (new_session_manager-Agree cfg)
