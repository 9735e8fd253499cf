-- ===== src/Sessions/Requests.antt =====
-- The requests of a client that change its session: internal/handler/subscription.go, and
-- BindNamespace of internal/handler/namespace.go with the checks of internal/handler/handler.go.
-- What they ask the managers of the entities and the path resolver is a Directory. A message that
-- is passed as a format goes through `format`, which is what fmt makes of it.
use snmpproxy.Base.{
  ℕ, suc, Bool, not, Option, none, some, List, [], ◌∷◌, ◌++◌, Str, str_eq, str_beq, if◌then◌else◌,
  nat_beq, length,
}
use snmpproxy.Base.Results.{Result, ok, err}
use snmpproxy.Base.Text.{lit}
use snmpproxy.Base.Options.{◌>>=◌}
use snmpproxy.Sessions.{
  Session, BindError, already_bound, is_bound, bind_namespace, subscribe, unsubscribe,
  unsubscribe_all, is_subscribed, send,
}
use snmpproxy.Sessions.Manager.{SessionManager, can_access_namespace, store_at}
use snmpproxy.Sessions.Subscriptions.{get_subscribers_for}

pub record HandlerError : Type 0 where
  pub code : ℕ
  pub message : Str

pub record ResolvedPath : Type 0 where
  pub type : Str
  pub target : Str
  pub poller : Str

pub record Directory : Type 0 where
  pub get_namespace : Str → Result Str Bool
  pub poller_exists : Str → Str → Str → Bool
  pub list_pollers : Str → Str → List Str
  pub resolve_path : Str → Result HandlerError ResolvedPath
  pub format : Str → Str

pub record SubscriptionSpec : Type 0 where
  pub target : Str
  pub poller : Str

pub record SubscribeResponse : Type 0 where
  pub subscribed : List Str
  pub invalid : List Str

-- The constants of internal/handler/handler.go that are used here.
abbrev pub err_not_bound : ℕ
err_not_bound = 4

abbrev pub err_invalid_request : ℕ
err_invalid_request = 5

abbrev pub err_not_found : ℕ
err_not_found = 6

abbrev pub err_not_authorized : ℕ
err_not_authorized = 8

abbrev pub err_internal : ℕ
err_internal = 9

abbrev pub session_not_bound : HandlerError
session_not_bound = record { code = err_not_bound; message = lit "session not bound to namespace" }

-- `RequireNamespace`
abbrev pub require_namespace : Session → Option HandlerError
require_namespace s = if is_bound s then none else some session_not_bound

-- `RequireNamespaceAccess`
abbrev pub require_namespace_access : Session → SessionManager → Str → Option HandlerError
require_namespace_access s sm namespace =
    if can_access_namespace sm s.token_id namespace
    then none
    else some (record {
      code = err_not_authorized;
      message = lit "not authorized to access namespace " ++ namespace;
    })

-- `subscriptionKey`
abbrev pub subscription_key : Str → Str → Str
subscription_key target poller = target ++ b'/' ∷ poller

abbrev pub Progress : Type 0
Progress = SubscribeResponse × Session

abbrev pub accept_key : Str → Progress → Progress
accept_key key (r, s) = (record r { subscribed = r.subscribed ++ key ∷ [] }, subscribe key s)

abbrev pub refuse_key : Str → Progress → Progress
refuse_key key (r, s) = (record r { invalid = r.invalid ++ key ∷ [] }, s)

-- The loops over the pollers of a target.
abbrev pub accept_pollers : Str → List Str → Progress → Progress
accept_pollers target [] w = w
accept_pollers target (p ∷ ps) w =
    accept_pollers target ps (accept_key (subscription_key target p) w)

abbrev pub accept_all : Str → Str → List Str → Progress → Progress
accept_all refused target ps w =
    let w' = accept_pollers target ps w in
    if nat_beq (length ps) 0 then refuse_key refused w' else w'

abbrev pub accept_one : Str → Bool → Str → Progress → Progress
accept_one refused found key w = if found then accept_key key w else refuse_key refused w

-- One round of the loop of `Subscribe`.
abbrev pub subscribe_spec : Directory → Str → SubscriptionSpec → Progress → Progress
subscribe_spec dir namespace spec w =
    let key = subscription_key spec.target spec.poller in
    if not (str_beq spec.poller [])
    then accept_one key (dir.poller_exists namespace spec.target spec.poller) key w
    else accept_all (spec.target ++ lit "/*") spec.target (dir.list_pollers namespace spec.target) w

abbrev pub subscribe_specs : Directory → Str → List SubscriptionSpec → Progress → Progress
subscribe_specs dir namespace [] w = w
subscribe_specs dir namespace (spec ∷ specs) w =
    subscribe_specs dir namespace specs (subscribe_spec dir namespace spec w)

abbrev pub no_response : SubscribeResponse
no_response = record { subscribed = []; invalid = [] }

abbrev pub answered : Progress → Result HandlerError SubscribeResponse × Session
answered (r, s) = (ok r, s)

-- `SubscriptionHandler.Subscribe`
unfoldable pub handle_subscribe :
    Directory → List SubscriptionSpec → Session → Result HandlerError SubscribeResponse × Session
handle_subscribe dir specs s =
    if is_bound s
    then answered (subscribe_specs dir s.namespace specs (no_response, s))
    else (err session_not_bound, s)

-- One round of the loop of `SubscribeByPath`.
abbrev pub subscribe_resolved :
    Directory → Str → Str → Result HandlerError ResolvedPath → Progress → Progress
subscribe_resolved dir namespace path (err e) w = refuse_key path w
subscribe_resolved dir namespace path (ok resolved) w =
    if str_beq resolved.type (lit "poller")
    then accept_one path (dir.poller_exists namespace resolved.target resolved.poller)
        (subscription_key resolved.target resolved.poller) w
    else (if str_beq resolved.type (lit "target")
        then accept_all path resolved.target (dir.list_pollers namespace resolved.target) w
        else refuse_key (path ++ lit " (not a poller/target)") w)

abbrev pub subscribe_paths : Directory → Str → List Str → Progress → Progress
subscribe_paths dir namespace [] w = w
subscribe_paths dir namespace (path ∷ paths) w =
    subscribe_paths dir namespace paths
      (subscribe_resolved dir namespace path (dir.resolve_path path) w)

-- `SubscriptionHandler.SubscribeByPath`
unfoldable pub handle_subscribe_by_path :
    Directory → List Str → Session → Result HandlerError SubscribeResponse × Session
handle_subscribe_by_path dir paths s =
    if is_bound s
    then answered (subscribe_paths dir s.namespace paths (no_response, s))
    else (err session_not_bound, s)

-- The second loop of `Unsubscribe`.
abbrev pub unsubscribe_keys : List Str → List Str → Session → List Str × Session
unsubscribe_keys [] done s = (done, s)
unsubscribe_keys (key ∷ keys) done s =
    let subscribed = is_subscribed s key in
    unsubscribe_keys keys (if subscribed then done ++ key ∷ [] else done)
      (if subscribed then unsubscribe key s else s)

-- `SubscriptionHandler.Unsubscribe`
unfoldable pub handle_unsubscribe : List Str → Session → List Str × Session
handle_unsubscribe keys s =
    if nat_beq (length keys) 0 then unsubscribe_all s else unsubscribe_keys keys [] s

abbrev pub invalid_request : Directory → BindError → HandlerError
invalid_request dir (already_bound namespace) = record {
  code = err_invalid_request;
  message = dir.format (lit "session already bound to namespace " ++ namespace);
}

abbrev pub bound_answer :
    Directory → Str → Option BindError × Session → Result HandlerError Str × Session
bound_answer dir namespace (none, s) = (ok namespace, s)
bound_answer dir namespace (some e, s) = (err (invalid_request dir e), s)

abbrev pub refused_or_bound :
    Directory → Str → Option HandlerError → Session → Result HandlerError Str × Session
refused_or_bound dir namespace (some e) s = (err e, s)
refused_or_bound dir namespace none s = bound_answer dir namespace (bind_namespace namespace s)

abbrev pub bind_found :
    Directory → SessionManager → Str → Result Str Bool → Session → Result HandlerError Str × Session
bind_found dir sm namespace (err e) s =
    (err (record { code = err_internal; message = lit "get namespace: " ++ e }), s)
bind_found dir sm namespace (ok found) s =
    if found then refused_or_bound dir namespace (require_namespace_access s sm namespace) s else (
      err (record { code = err_not_found; message = lit "namespace not found: " ++ namespace }),
      s,
    )

-- `NamespaceHandler.BindNamespace`
unfoldable pub handle_bind_namespace :
    Directory → SessionManager → Str → Session → Result HandlerError Str × Session
handle_bind_namespace dir sm namespace s =
    bind_found dir sm namespace (dir.get_namespace namespace) s

abbrev pub count_sent : ℕ → SessionManager → Bool × Session → ℕ → ℕ × SessionManager
count_sent p sm (sent, s) n = (if sent then suc n else n, record sm { heap = store_at p s sm.heap })

-- The loop of `BroadcastSample`.
unfoldable pub send_each : Str → List ℕ → ℕ → SessionManager → Option (ℕ × SessionManager)
send_each sample [] n sm = some (n, sm)
send_each sample (p ∷ ps) n sm = send sample (sm.heap p) >>= λ r.
    send_each sample ps (count_sent p sm r n).0 (count_sent p sm r n).1

-- `BroadcastSample`
unfoldable pub broadcast_sample :
    Str → Str → Str → Str → SessionManager → Option (ℕ × SessionManager)
broadcast_sample namespace target poller sample sm =
    send_each sample (get_subscribers_for namespace (subscription_key target poller) sm) 0 sm
