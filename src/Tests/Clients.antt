-- ===== src/Tests/Clients.antt =====
-- The sessions of a server and the shell's path at concrete values.
use snmpproxy.Base.{
  ◌≡◌, ◌⊎◌, refl, true, false, some, List, [], ◌∷◌, Str, str_eq, str_beq, if◌then◌else◌, all,
}
use snmpproxy.Base.Text.{lit}
use snmpproxy.Base.Map.{get, put, member}
use snmpproxy.Base.Index.{indexed}
use snmpproxy.Base.Results.{ok, err}
use snmpproxy.Sessions.{
  Session, new_session, is_bound, bind_namespace, subscribe, is_lost, lost_duration, restore,
  mark_lost,
}
use snmpproxy.Sessions.Manager.{
  SessionManager, SessionManagerConfig, new_session_manager, can_access_namespace, cleanup,
  try_restore, create_session, store_at, lose_connection, can_restore,
}
use snmpproxy.Sessions.Agree.{Agree}
use snmpproxy.Sessions.Traffic.{
  all_free, Event, connect, reconnect, lose, apply_event, apply_events, sessions_consistent,
}
use snmpproxy.Sessions.Restoration.{cleanup_keeps_restorable}
use snmpproxy.Sessions.Updates.{
  IndexEvent, wants, drops, drops_all, update_index, wanted, update_index_refines,
}
use snmpproxy.Sessions.Requests.{
  Directory, SubscriptionSpec, Progress, session_not_bound, handle_subscribe, handle_bind_namespace,
  broadcast_sample,
}
use snmpproxy.Sessions.Answers.{Granted, handle_subscribe_exact}
use snmpproxy.Sessions.Served.{
  ServerEvent, traffic, subscribes, binds, serve, serve_all, broadcast_reaches_nobody,
}
use snmpproxy.Sessions.Bound.{bound_namespace_accessible}
use snmpproxy.Shell.{cd, path_parts}
use snmpproxy.Shell.Paths.{is_part, render}
use snmpproxy.Shell.Directions.{go_to}
use snmpproxy.Shell.Navigation.{go_all, is_known, cd_all, cd_refines, cd_all_parts}

abbrev settings : SessionManagerConfig
settings = record {
  reconnect_window = 600;
  auth_timeout = 30;
  tokens = record { id = lit "admin"; token = lit "s3cret"; namespaces = [] } ∷ [];
}

-- A client connects, loses its connection and comes back; another one comes too.
abbrev events : List Event
events =
    connect (lit "a1") (lit "admin") 1 100
    ∷ lose 0 200
    ∷ reconnect (lit "admin") 2 300
    ∷ connect (lit "b2") (lit "admin") 3 350
    ∷ lose 0 400
    ∷ []

events_free : all_free events (new_session_manager settings) ≡ true
unfolding apply_event create_session try_restore lose_connection can_restore is_lost lost_duration
    restore mark_lost store_at new_session_manager get put str_beq
events_free = refl

abbrev used : SessionManager
used = apply_events events (new_session_manager settings)

used-Agree : Agree used
used-Agree = sessions_consistent settings events events_free

abbrev changes : List IndexEvent
changes =
    wants (lit "a1") (lit "prod") (lit "router/cpu")
    ∷ wants (lit "b2") (lit "prod") (lit "router/cpu")
    ∷ drops (lit "a1") (lit "prod") (lit "router/cpu")
    ∷ drops_all (lit "b2") (lit "test")
    ∷ []

no_subscriptions : (new_session_manager settings).subscription_index ≡ []
unfolding new_session_manager
no_subscriptions = refl

abbrev directory : Directory
directory = record {
  get_namespace = λ ns. ok true;
  poller_exists = λ ns t p. true;
  list_pollers = λ ns t. lit "cpu" ∷ lit "memory" ∷ [];
  resolve_path = λ path. err session_not_bound;
  format = λ text. text;
}

abbrev specs : List SubscriptionSpec
specs =
    record { target = lit "router"; poller = lit "cpu" }
    ∷ record { target = lit "switch"; poller = [] }
    ∷ []

abbrev bound_session : Session
bound_session = record (new_session (lit "a1") (lit "admin") 1 100) { namespace = lit "prod" }

abbrev requests : List ServerEvent
requests =
    traffic (connect (lit "a1") (lit "admin") 1 100)
    ∷ binds 0 (lit "prod")
    ∷ subscribes 0 specs
    ∷ []

abbrev served : SessionManager
served = serve_all directory requests (new_session_manager settings)

served_bound : is_bound (served.heap 0) ≡ true
unfolding serve_all serve apply_event create_session handle_bind_namespace bind_namespace is_bound
    can_access_namespace handle_subscribe subscribe store_at new_session_manager get put member
    str_beq
served_bound = refl

abbrev paths : List Str
paths = lit "targets/router/../switch" ∷ lit "nowhere" ∷ lit "/etc" ∷ lit ".." ∷ []

roots_are_parts : all is_part (lit "targets" ∷ lit "router" ∷ []) ≡ true
unfolding str_beq
roots_are_parts = refl

sessions_consistent_example : Agree (apply_events events (new_session_manager settings))
sessions_consistent_example = sessions_consistent settings events events_free

cleanup_keeps_restorable_example :
    (try_restore (lit "admin") 4 900 (cleanup 900 used).1).0
    ≡ (try_restore (lit "admin") 4 900 used).0
cleanup_keeps_restorable_example = cleanup_keeps_restorable (lit "admin") 4 900 used used-Agree

update_index_refines_example :
    indexed
      (update_index changes (new_session_manager settings)).subscription_index
      (lit "b2")
      (lit "prod/router/cpu")
    ≡ wanted changes
        (indexed (new_session_manager settings).subscription_index)
        (lit "b2")
        (lit "prod/router/cpu")
unfolding new_session_manager
update_index_refines_example =
    update_index_refines changes (new_session_manager settings) refl (lit "b2")
      (lit "prod/router/cpu")

handle_subscribe_exact_example :
    ((is_bound bound_session ≡ false)
      × (handle_subscribe directory specs bound_session ≡ (err session_not_bound, bound_session)))
    ⊎ ((is_bound bound_session ≡ true)
        × (w : Progress) × (handle_subscribe directory specs bound_session ≡ (ok w.0, w.1))
        × Granted directory bound_session w)
handle_subscribe_exact_example = handle_subscribe_exact directory specs bound_session

broadcast_reaches_nobody_example :
    broadcast_sample
      (lit "prod")
      (lit "router")
      (lit "cpu")
      (lit "42")
      (serve_all directory requests (new_session_manager settings))
    ≡ some (0, serve_all directory requests (new_session_manager settings))
broadcast_reaches_nobody_example =
    broadcast_reaches_nobody directory settings requests (lit "prod") (lit "router") (lit "cpu")
      (lit "42")

bound_namespace_accessible_example :
    can_access_namespace
      (serve_all directory requests (new_session_manager settings))
      ((serve_all directory requests (new_session_manager settings)).heap 0).token_id
      ((serve_all directory requests (new_session_manager settings)).heap 0).namespace
    ≡ true
bound_namespace_accessible_example =
    bound_namespace_accessible directory settings requests 0 served_bound

cd_refines_example : cd (lit "../../tags/site") (render (lit "targets" ∷ lit "router" ∷ [])) ≡ (
    if is_known (go_to (lit "targets" ∷ lit "router" ∷ []) (lit "../../tags/site"))
    then (true, render (go_to (lit "targets" ∷ lit "router" ∷ []) (lit "../../tags/site")))
    else (false, render (lit "targets" ∷ lit "router" ∷ [])))
cd_refines_example =
    cd_refines (lit "../../tags/site") (lit "targets" ∷ lit "router" ∷ []) roots_are_parts

cd_all_parts_example :
    (cd_all paths (lit "/") ≡ render (go_all paths []))
    × (all is_part (go_all paths []) ≡ true)
    × (is_known (go_all paths []) ≡ true)
    × (path_parts (cd_all paths (lit "/")) ≡ go_all paths [])
cd_all_parts_example = cd_all_parts paths
