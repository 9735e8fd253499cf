-- ===== src/Sessions/Bound.antt =====
-- The namespace that a session of a server is bound to.
use snmpproxy.Base.{
  ℕ, ◌≡◌, refl, ap, ◌∙◌, Bool, true, false, not, ◌&&◌, Option, none, some, List, [], ◌∷◌, ◌++◌, Str,
  str_eq, str_beq, if◌then◌else◌, nat_beq, length, arith, inl, inr, Bool-cases,
}
use snmpproxy.Base.Results.{Result, ok, err}
use snmpproxy.Sessions.{
  new_session, Session, is_bound, bind_namespace, unsubscribe, unsubscribe_all, is_subscribed,
  restore, mark_lost,
}
use snmpproxy.Sessions.Manager.{
  SessionManager, SessionManagerConfig, new_session_manager, store_at, can_access_namespace,
  create_session, try_restore, restored, find_lost, remove_sessions, cleanup, lose_connection,
  expired_ids, is_expired,
}
use snmpproxy.Sessions.Agree.{pointers}
use snmpproxy.Sessions.Traffic.{connect, reconnect, lose, close_session, clean, apply_event}
use snmpproxy.Sessions.Requests.{
  Progress, Directory, SubscriptionSpec, handle_subscribe, handle_subscribe_by_path,
  handle_unsubscribe, handle_bind_namespace, unsubscribe_keys, bind_found, bound_answer,
}
use snmpproxy.Sessions.Answers.{Granted, handle_subscribe_exact, handle_subscribe_by_path_exact}
use snmpproxy.Sessions.Served.{
  ServerEvent, traffic, subscribes, subscribes_by_path, unsubscribes, binds, put_session, serve,
  serve_all, remove_session_fields, remove_sessions_fields,
}

-- A session that is bound to a namespace has a token that may access it.
abbrev Admitted : SessionManager → Type 0
Admitted sm =
    (p : ℕ)
    → is_bound (sm.heap p) ≡ true
    → can_access_namespace sm (sm.heap p).token_id (sm.heap p).namespace ≡ true

-- The same of one session.
abbrev AdmittedAt : SessionManager → Session → Type 0
AdmittedAt sm s = is_bound s ≡ true → can_access_namespace sm s.token_id s.namespace ≡ true

put_session-Admitted :
    (p : ℕ) (s : Session) (sm : SessionManager)
    → AdmittedAt sm s
    → Admitted sm
    → Admitted (put_session p s sm)
unfolding store_at can_access_namespace
put_session-Admitted p s sm h a q = elim (Bool-cases (nat_beq p q)) [
  | inl e ↦ rw e h
  | inr e ↦ rw e (a q)
]

-- A session with the same token and namespace, bound as before.
AdmittedAt-same :
    (sm : SessionManager) (s s' : Session)
    → s'.token_id ≡ s.token_id
    → s'.namespace ≡ s.namespace
    → AdmittedAt sm s
    → AdmittedAt sm s'
unfolding is_bound
AdmittedAt-same sm s s' t n h = rw t (rw n h)

unbound-AdmittedAt : (sm : SessionManager) (s : Session) → s.namespace ≡ [] → AdmittedAt sm s
unfolding is_bound str_beq
unbound-AdmittedAt sm s e = rw e (λ b. ground arith)

new_session_manager-Admitted : (cfg : SessionManagerConfig) → Admitted (new_session_manager cfg)
unfolding new_session_manager
new_session_manager-Admitted cfg p =
    unbound-AdmittedAt (new_session_manager cfg) ((new_session_manager cfg).heap p) refl

restored-Admitted :
    (o : Option ℕ) (conn : ℕ) (sm : SessionManager) → Admitted sm → Admitted (restored o conn sm).1
restored-Admitted none conn sm a = a
restored-Admitted (some p) conn sm a =
    put_session-Admitted p (restore conn (sm.heap p)) sm
      (AdmittedAt-same sm (sm.heap p) (restore conn (sm.heap p)) (unfold restore in refl)
        (unfold restore in refl) (a p))
      a

remove_sessions-Admitted :
    (ids : List Str) (sm : SessionManager) → Admitted sm → Admitted (remove_sessions ids sm)
unfolding can_access_namespace
remove_sessions-Admitted ids sm a = let (h, t, i) = remove_sessions_fields ids sm in rw h (rw t a)

unsubscribe_keys_fields :
    (keys done : List Str) (s : Session)
    → ((unsubscribe_keys keys done s).1.token_id ≡ s.token_id)
      × ((unsubscribe_keys keys done s).1.namespace ≡ s.namespace)
unfolding unsubscribe
unsubscribe_keys_fields [] done s = (refl, refl)
unsubscribe_keys_fields (key ∷ keys) done s =
    let b = is_subscribed s key in
    let (t, n) =
      unsubscribe_keys_fields keys (if b then done ++ key ∷ [] else done)
        (if b then unsubscribe key s else s) in
    (t ∙ ground arith, n ∙ ground arith)

handle_unsubscribe_fields :
    (keys : List Str) (s : Session)
    → ((handle_unsubscribe keys s).1.token_id ≡ s.token_id)
      × ((handle_unsubscribe keys s).1.namespace ≡ s.namespace)
unfolding handle_unsubscribe unsubscribe_all
handle_unsubscribe_fields keys s = elim (Bool-cases (nat_beq (length keys) 0)) [
  | inl e ↦ rw e (refl, refl)
  | inr e ↦ rw e (unsubscribe_keys_fields keys [] s)
]

bound_answer-Admitted :
    (dir : Directory) (sm : SessionManager) (namespace : Str) (s : Session)
    → can_access_namespace sm s.token_id namespace ≡ true
    → AdmittedAt sm s
    → AdmittedAt sm (bound_answer dir namespace (bind_namespace namespace s)).1
unfolding bind_namespace
bound_answer-Admitted dir sm namespace s allowed h =
    elim (Bool-cases (is_bound s && not (str_beq s.namespace namespace))) [
      | inl e ↦ rw e h
      | inr e ↦ rw e (λ b. allowed)
    ]

bind_found-Admitted :
    (dir : Directory) (sm : SessionManager) (namespace : Str) (r : Result Str Bool) (s : Session)
    → AdmittedAt sm s
    → AdmittedAt sm (bind_found dir sm namespace r s).1
bind_found-Admitted dir sm namespace (err e) s h = h
bind_found-Admitted dir sm namespace (ok false) s h = h
bind_found-Admitted dir sm namespace (ok true) s h =
    elim (Bool-cases (can_access_namespace sm s.token_id namespace)) [
      | inl e ↦ rw e (bound_answer-Admitted dir sm namespace s e h)
      | inr e ↦ rw e h
    ]

-- An answer to a request to subscribe leaves the token and the namespace.
Granted-AdmittedAt :
    (dir : Directory) (sm : SessionManager) (s : Session) (w : Progress)
    → Granted dir s w
    → AdmittedAt sm s
    → AdmittedAt sm w.1
Granted-AdmittedAt dir sm s w g h =
    AdmittedAt-same sm s w.1 (ap (λ r. r.token_id) g.same) (ap (λ r. r.namespace) g.same) h

handle_subscribe-Admitted :
    (dir : Directory) (sm : SessionManager) (specs : List SubscriptionSpec) (s : Session)
    → AdmittedAt sm s
    → AdmittedAt sm (handle_subscribe dir specs s).1
handle_subscribe-Admitted dir sm specs s h = elim (handle_subscribe_exact dir specs s) [
  | inl (b, e) ↦ rw e h
  | inr (b, w, e, g) ↦ rw e (Granted-AdmittedAt dir sm s w g h)
]

handle_subscribe_by_path-Admitted :
    (dir : Directory) (sm : SessionManager) (paths : List Str) (s : Session)
    → AdmittedAt sm s
    → AdmittedAt sm (handle_subscribe_by_path dir paths s).1
handle_subscribe_by_path-Admitted dir sm paths s h =
    elim (handle_subscribe_by_path_exact dir paths s) [
      | inl (b, e) ↦ rw e h
      | inr (b, w, e, g) ↦ rw e (Granted-AdmittedAt dir sm s w g h)
    ]

serve-Admitted :
    (dir : Directory) (e : ServerEvent) (sm : SessionManager)
    → Admitted sm
    → Admitted (serve dir e sm)
unfolding serve apply_event create_session try_restore lose_connection cleanup handle_bind_namespace
    mark_lost is_bound can_access_namespace
serve-Admitted dir (traffic (connect id token_id conn now)) sm a =
    let s = record (new_session id token_id conn now) { on_close = true } in
    put_session-Admitted sm.next s sm (unbound-AdmittedAt sm s refl) a
serve-Admitted dir (traffic (reconnect token_id conn now)) sm a =
    restored-Admitted (find_lost sm.heap sm.reconnect_window now (pointers sm token_id)) conn sm a
serve-Admitted dir (traffic (lose p now)) sm a =
    put_session-Admitted p (mark_lost now (sm.heap p)) sm (a p) a
serve-Admitted dir (traffic (close_session id)) sm a =
    let (h, t, i) = remove_session_fields id sm in rw h (rw t a)
serve-Admitted dir (traffic (clean now)) sm a =
    remove_sessions-Admitted (expired_ids (is_expired sm.reconnect_window now) sm.heap sm.sessions)
      sm a
serve-Admitted dir (subscribes p specs) sm a =
    put_session-Admitted p (handle_subscribe dir specs (sm.heap p)).1 sm
      (handle_subscribe-Admitted dir sm specs (sm.heap p) (a p)) a
serve-Admitted dir (subscribes_by_path p paths) sm a =
    put_session-Admitted p (handle_subscribe_by_path dir paths (sm.heap p)).1 sm
      (handle_subscribe_by_path-Admitted dir sm paths (sm.heap p) (a p)) a
serve-Admitted dir (unsubscribes p keys) sm a =
    let (t, n) = handle_unsubscribe_fields keys (sm.heap p) in
    put_session-Admitted p (handle_unsubscribe keys (sm.heap p)).1 sm
      (AdmittedAt-same sm (sm.heap p) (handle_unsubscribe keys (sm.heap p)).1 t n (a p)) a
serve-Admitted dir (binds p namespace) sm a =
    put_session-Admitted p (bind_found dir sm namespace (dir.get_namespace namespace) (sm.heap p)).1
      sm (bind_found-Admitted dir sm namespace (dir.get_namespace namespace) (sm.heap p) (a p)) a

serve_all-Admitted :
    (dir : Directory) (es : List ServerEvent) (sm : SessionManager)
    → Admitted sm
    → Admitted (serve_all dir es sm)
unfolding serve_all
serve_all-Admitted dir [] sm a = a
serve_all-Admitted dir (e ∷ es) sm a =
    serve_all-Admitted dir es (serve dir e sm) (serve-Admitted dir e sm a)

-- However clients connect, lose their connections, reconnect, subscribe and bind to a new server, a
-- session is never bound to a namespace that its token may not access.
pub bound_namespace_accessible :
    (dir : Directory) (cfg : SessionManagerConfig) (es : List ServerEvent) (p : ℕ)
    → is_bound ((serve_all dir es (new_session_manager cfg)).heap p) ≡ true
    → can_access_namespace
        (serve_all dir es (new_session_manager cfg))
        ((serve_all dir es (new_session_manager cfg)).heap p).token_id
        ((serve_all dir es (new_session_manager cfg)).heap p).namespace
      ≡ true
bound_namespace_accessible dir cfg es p =
    serve_all-Admitted dir es (new_session_manager cfg) (new_session_manager-Admitted cfg) p
