-- ===== src/Sessions/Served.antt =====
-- A server's sessions through any connections, clean-ups and requests.
use snmpproxy.Base.{
  ℕ, ◌≡◌, refl, ◌∙◌, Option, none, some, List, [], ◌∷◌, Str, str_eq, inl, inr, Option-cases,
}
use snmpproxy.Base.Map.{get}
use snmpproxy.Sessions.{Session}
use snmpproxy.Sessions.Manager.{
  SessionManager, SessionManagerConfig, new_session_manager, store_at, create_session, try_restore,
  restored, find_lost, remove_session, remove_sessions, cleanup, lose_connection, expired_ids,
  is_expired,
}
use snmpproxy.Sessions.Agree.{pointers}
use snmpproxy.Sessions.Traffic.{Event, connect, reconnect, lose, close_session, clean, apply_event}
use snmpproxy.Sessions.Subscriptions.{get_subscribers_for, live_sessions}
use snmpproxy.Sessions.Requests.{
  subscription_key, Directory, SubscriptionSpec, handle_subscribe, handle_subscribe_by_path,
  handle_unsubscribe, handle_bind_namespace, broadcast_sample, send_each,
}

-- What happens to the sessions of a server; a request comes with the address of its session.
pub data ServerEvent : Type 0 where
  traffic : Event → ServerEvent
  subscribes : ℕ → List SubscriptionSpec → ServerEvent
  subscribes_by_path : ℕ → List Str → ServerEvent
  unsubscribes : ℕ → List Str → ServerEvent
  binds : ℕ → Str → ServerEvent

abbrev pub put_session : ℕ → Session → SessionManager → SessionManager
put_session p s sm = record sm { heap = store_at p s sm.heap }

unfoldable pub serve : Directory → ServerEvent → SessionManager → SessionManager
serve dir (traffic e) sm = apply_event e sm
serve dir (subscribes p specs) sm = put_session p (handle_subscribe dir specs (sm.heap p)).1 sm
serve dir (subscribes_by_path p paths) sm =
    put_session p (handle_subscribe_by_path dir paths (sm.heap p)).1 sm
serve dir (unsubscribes p keys) sm = put_session p (handle_unsubscribe keys (sm.heap p)).1 sm
serve dir (binds p namespace) sm =
    put_session p (handle_bind_namespace dir sm namespace (sm.heap p)).1 sm

unfoldable pub serve_all : Directory → List ServerEvent → SessionManager → SessionManager
serve_all dir [] sm = sm
serve_all dir (e ∷ es) sm = serve_all dir es (serve dir e sm)

-- A removal leaves the sessions, the tokens and the index as they are.
pub remove_session_fields :
    (id : Str) (sm : SessionManager)
    → ((remove_session id sm).heap ≡ sm.heap)
      × ((remove_session id sm).tokens ≡ sm.tokens)
      × ((remove_session id sm).subscription_index ≡ sm.subscription_index)
unfolding remove_session
remove_session_fields id sm = elim (Option-cases (get sm.sessions id)) [
  | inl e ↦ rw e (refl, refl, refl)
  | inr (p, e) ↦ rw e (refl, refl, refl)
]

pub remove_sessions_fields :
    (ids : List Str) (sm : SessionManager)
    → ((remove_sessions ids sm).heap ≡ sm.heap)
      × ((remove_sessions ids sm).tokens ≡ sm.tokens)
      × ((remove_sessions ids sm).subscription_index ≡ sm.subscription_index)
unfolding remove_sessions
remove_sessions_fields [] sm = (refl, refl, refl)
remove_sessions_fields (id ∷ ids) sm =
    let (h, t, i) = remove_sessions_fields ids (remove_session id sm) in
    let (h', t', i') = remove_session_fields id sm in (h ∙ h', t ∙ t', i ∙ i')

restored-index :
    (o : Option ℕ) (conn : ℕ) (sm : SessionManager)
    → (restored o conn sm).1.subscription_index ≡ sm.subscription_index
restored-index none conn sm = refl
restored-index (some p) conn sm = refl

-- No event touches the reverse index.
serve-index :
    (dir : Directory) (e : ServerEvent) (sm : SessionManager)
    → (serve dir e sm).subscription_index ≡ sm.subscription_index
unfolding serve apply_event create_session try_restore lose_connection cleanup
serve-index dir (traffic (connect id token_id conn now)) sm = refl
serve-index dir (traffic (reconnect token_id conn now)) sm =
    restored-index (find_lost sm.heap sm.reconnect_window now (pointers sm token_id)) conn sm
serve-index dir (traffic (lose p now)) sm = refl
serve-index dir (traffic (close_session id)) sm = let (h, t, i) = remove_session_fields id sm in i
serve-index dir (traffic (clean now)) sm =
    let (h, t, i) =
      remove_sessions_fields (expired_ids (is_expired sm.reconnect_window now) sm.heap sm.sessions)
        sm in
    i
serve-index dir (subscribes p specs) sm = refl
serve-index dir (subscribes_by_path p paths) sm = refl
serve-index dir (unsubscribes p keys) sm = refl
serve-index dir (binds p namespace) sm = refl

serve_all-index :
    (dir : Directory) (es : List ServerEvent) (sm : SessionManager)
    → (serve_all dir es sm).subscription_index ≡ sm.subscription_index
unfolding serve_all
serve_all-index dir [] sm = refl
serve_all-index dir (e ∷ es) sm = serve_all-index dir es (serve dir e sm) ∙ serve-index dir e sm

nobody_indexed :
    (namespace key : Str) (sm : SessionManager)
    → sm.subscription_index ≡ []
    → get_subscribers_for namespace key sm ≡ []
unfolding get_subscribers_for live_sessions get
nobody_indexed namespace key sm e = rw e refl

-- However clients connect and subscribe to a new server, a broadcast reaches none of them: it sends
-- to 0 sessions and changes nothing, for no event enters a session in the reverse index.
pub broadcast_reaches_nobody :
    (dir : Directory) (cfg : SessionManagerConfig) (es : List ServerEvent)
    (namespace target poller sample : Str)
    → broadcast_sample namespace target poller sample (serve_all dir es (new_session_manager cfg))
      ≡ some (0, serve_all dir es (new_session_manager cfg))
unfolding broadcast_sample send_each
broadcast_reaches_nobody dir cfg es namespace target poller sample =
    let sm = serve_all dir es (new_session_manager cfg) in
    let empty : sm.subscription_index ≡ [] =
      serve_all-index dir es (new_session_manager cfg) ∙ unfold new_session_manager in refl in
    rw (nobody_indexed namespace (subscription_key target poller) sm empty) refl
