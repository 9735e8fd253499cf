-- ===== src/Sessions/Manager.antt =====
-- The session manager of internal/handler/session.go. A session is shared by pointer between the
-- maps `sessions` and `byToken` and its connection's goroutine: `heap` maps addresses to sessions,
-- `next` is the first free address, and the maps hold addresses. The identifier that the package
-- uuid makes is an argument. `closed` records the calls of the callback onSessionClosed.
use snmpproxy.Base.{
  ℕ, suc, Bool, true, false, not, ◌&&◌, Option, none, some, List, [], ◌∷◌, ◌++◌, Str, str_eq,
  str_beq, if◌then◌else◌, ltb, nat_beq, length,
}
use snmpproxy.Base.Map.{Map, get, put, delete, member}
use snmpproxy.Base.Index.{or_empty}
use snmpproxy.Sessions.{Session, new_session, is_lost, lost_duration, restore, mark_lost}

pub record TokenConfig : Type 0 where
  pub id : Str
  pub token : Str
  pub namespaces : List Str

pub record SessionManager : Type 0 where
  pub heap : ℕ → Session
  pub next : ℕ
  pub sessions : Map Str ℕ
  pub tokens : Map Str TokenConfig
  pub by_token : Map Str (List ℕ)
  pub subscription_index : Map Str (List Str)
  pub reconnect_window : ℕ
  pub auth_timeout : ℕ
  pub on_session_closed : Bool
  pub closed : List ℕ

pub record SessionManagerConfig : Type 0 where
  pub reconnect_window : ℕ
  pub auth_timeout : ℕ
  pub tokens : List TokenConfig

-- The loop of `NewSessionManager`.
abbrev token_map : List TokenConfig → Map Str TokenConfig → Map Str TokenConfig
token_map [] m = m
token_map (t ∷ ts) m = token_map ts (put m t.id t)

-- Nothing is stored at an address that is not allocated.
abbrev no_session : ℕ → Session
no_session p = new_session [] [] 0 0

-- `NewSessionManager`
unfoldable pub new_session_manager : SessionManagerConfig → SessionManager
new_session_manager cfg = record {
  heap = no_session;
  next = 0;
  sessions = [];
  tokens = token_map cfg.tokens [];
  by_token = [];
  subscription_index = [];
  reconnect_window = cfg.reconnect_window;
  auth_timeout = cfg.auth_timeout;
  on_session_closed = false;
  closed = [];
}

-- A store through the pointer `p`.
unfoldable pub store_at : ℕ → Session → (ℕ → Session) → ℕ → Session
store_at p s heap q = if nat_beq p q then s else heap q

-- The loop of `ValidateToken`.
abbrev pub find_token : Str → Map Str TokenConfig → Option TokenConfig
find_token token [] = none
find_token token ((id, t) ∷ ts) = if str_beq t.token token then some t else find_token token ts

-- `ValidateToken`
unfoldable pub validate_token : Str → SessionManager → Option TokenConfig
validate_token token sm = find_token token sm.tokens

abbrev allows : Option TokenConfig → Str → Bool
allows none namespace = false
allows (some t) namespace =
    if nat_beq (length t.namespaces) 0 then true else member namespace t.namespaces

-- `CanAccessNamespace`
unfoldable pub can_access_namespace : SessionManager → Str → Str → Bool
can_access_namespace sm token_id namespace = allows (get sm.tokens token_id) namespace

-- `CreateSession`
unfoldable pub create_session : Str → Str → ℕ → ℕ → SessionManager → ℕ × SessionManager
create_session id token_id conn now sm = (
  sm.next,
  record sm {
    heap = store_at sm.next (record (new_session id token_id conn now) { on_close = true }) sm.heap;
    next = suc sm.next;
    sessions = put sm.sessions id sm.next;
    by_token = put sm.by_token token_id (or_empty (get sm.by_token token_id) ++ sm.next ∷ []);
  },
)

-- The condition of `TryRestore`.
unfoldable pub can_restore : ℕ → ℕ → Session → Bool
can_restore window now s = is_lost s && ltb (lost_duration now s) window

-- The loop of `TryRestore`.
abbrev pub find_lost : (ℕ → Session) → ℕ → ℕ → List ℕ → Option ℕ
find_lost heap window now [] = none
find_lost heap window now (p ∷ ps) =
    if can_restore window now (heap p) then some p else find_lost heap window now ps

abbrev pub restored : Option ℕ → ℕ → SessionManager → Option ℕ × SessionManager
restored none conn sm = (none, sm)
restored (some p) conn sm =
    (some p, record sm { heap = store_at p (restore conn (sm.heap p)) sm.heap })

-- `TryRestore`
unfoldable pub try_restore : Str → ℕ → ℕ → SessionManager → Option ℕ × SessionManager
try_restore token_id conn now sm =
    restored (find_lost sm.heap sm.reconnect_window now (or_empty (get sm.by_token token_id))) conn
      sm

-- The loop of `removeSession`: the first session with the identifier goes.
abbrev pub remove_id : (ℕ → Session) → Str → List ℕ → List ℕ
remove_id heap id [] = []
remove_id heap id (p ∷ ps) = if str_beq (heap p).id id then ps else p ∷ remove_id heap id ps

-- Go stores the shortened list only if the loop found the identifier.
unfoldable pub without : (ℕ → Session) → Str → Str → Map Str (List ℕ) → Map Str (List ℕ)
without heap id token_id by_token =
    let ps = or_empty (get by_token token_id) in
    let qs = remove_id heap id ps in
    if ltb (length qs) (length ps) then put by_token token_id qs else by_token

abbrev pub remove_pointer : Str → ℕ → SessionManager → SessionManager
remove_pointer id p sm = record sm {
  sessions = delete sm.sessions id;
  by_token = without sm.heap id (sm.heap p).token_id sm.by_token;
  closed = if sm.on_session_closed then p ∷ sm.closed else sm.closed;
}

abbrev pub remove_found : Str → Option ℕ → SessionManager → SessionManager
remove_found id none sm = sm
remove_found id (some p) sm = remove_pointer id p sm

-- `removeSession`
unfoldable pub remove_session : Str → SessionManager → SessionManager
remove_session id sm = remove_found id (get sm.sessions id) sm

-- The condition of `Cleanup`.
unfoldable pub is_expired : ℕ → ℕ → Session → Bool
is_expired window now s = is_lost s && ltb window (lost_duration now s)

-- The first loop of `Cleanup`.
abbrev pub expired_ids : (Session → Bool) → (ℕ → Session) → Map Str ℕ → List Str
expired_ids expired heap [] = []
expired_ids expired heap ((id, p) ∷ rest) =
    let ids = expired_ids expired heap rest in if expired (heap p) then id ∷ ids else ids

-- The second loop of `Cleanup`.
unfoldable pub remove_sessions : List Str → SessionManager → SessionManager
remove_sessions [] sm = sm
remove_sessions (id ∷ ids) sm = remove_sessions ids (remove_session id sm)

-- `Cleanup`
unfoldable pub cleanup : ℕ → SessionManager → ℕ × SessionManager
cleanup now sm =
    let ids = expired_ids (is_expired sm.reconnect_window now) sm.heap sm.sessions in
    (length ids, remove_sessions ids sm)

-- Stores through a session's pointer: `MarkLost` of the goroutine that reads its connection.
unfoldable pub lose_connection : ℕ → ℕ → SessionManager → SessionManager
lose_connection p now sm = record sm { heap = store_at p (mark_lost now (sm.heap p)) sm.heap }

-- `Session.Close`: closing a closed channel panics; the connection is left aside.
abbrev pub closed_at : ℕ → Session → SessionManager → SessionManager
closed_at p s sm =
    let sm' = record sm {
      heap =
          store_at p
            (record s { send_ch = record { pending = s.send_ch.pending; is_open = false } })
            sm.heap;
    } in
    if s.on_close then remove_session s.id sm' else sm'

unfoldable pub close_at : ℕ → SessionManager → Option SessionManager
close_at p sm = if (sm.heap p).send_ch.is_open then some (closed_at p (sm.heap p) sm) else none

-- `GetSession`
unfoldable pub get_session : Str → SessionManager → Option ℕ
get_session id sm = get sm.sessions id

-- `SetOnSessionClosed`
unfoldable pub set_on_session_closed : SessionManager → SessionManager
set_on_session_closed sm = record sm { on_session_closed = true }

-- The loops of `GetSessions`, `GetSessionsInNamespace`, `CountActive` and `CountLost`.
abbrev pub sessions_where : (Session → Bool) → (ℕ → Session) → Map Str ℕ → List ℕ
sessions_where test heap [] = []
sessions_where test heap ((id, p) ∷ rest) =
    let ps = sessions_where test heap rest in if test (heap p) then p ∷ ps else ps

-- `GetSessionsInNamespace`
unfoldable pub get_sessions_in_namespace : Str → SessionManager → List ℕ
get_sessions_in_namespace namespace sm =
    sessions_where (λ s. str_beq s.namespace namespace) sm.heap sm.sessions

-- `CountActive`
unfoldable pub count_active : SessionManager → ℕ
count_active sm = length (sessions_where (λ s. not (is_lost s)) sm.heap sm.sessions)

-- `CountLost`
unfoldable pub count_lost : SessionManager → ℕ
count_lost sm = length (sessions_where is_lost sm.heap sm.sessions)
