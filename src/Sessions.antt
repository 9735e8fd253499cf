-- ===== src/Sessions.antt =====
-- A client session of internal/handler/session.go: its namespace, its subscriptions and its send
-- channel. A connection with its codec is a number, and on_close says whether the callback is set,
-- which is removeSession of the manager. The channel holds 1000 messages; a send on a closed channel,
-- and closing it twice, panics, which is `none`. Times are in milliseconds.
pub mod Agree
pub mod Answers
pub mod Bound
pub mod Manager
pub mod Expiry
pub mod Moves
pub mod Requests
pub mod Restoration
pub mod Served
pub mod Subscriptions
pub mod Traffic
pub mod Updates
use snmpproxy.Base.{
  ℕ, ◌-◌, Bool, true, false, not, ◌&&◌, Option, none, some, List, [], ◌∷◌, ◌++◌, Str, str_eq,
  str_beq, if◌then◌else◌, ltb, length,
}
use snmpproxy.Base.Map.{member, insert, erase}

-- The buffered `chan []byte`.
pub record SendCh : Type 0 where
  pub pending : List Str
  pub is_open : Bool

pub record Session : Type 0 where
  pub id : Str
  pub token_id : Str
  pub namespace : Str
  pub conn : ℕ
  pub created_at : ℕ
  pub lost_at : Option ℕ
  pub subscriptions : List Str
  pub send_ch : SendCh
  pub on_close : Bool

abbrev pub send_capacity : ℕ
send_capacity = 1000

abbrev pub new_send_ch : SendCh
new_send_ch = record { pending = []; is_open = true }

-- `NewSession`
abbrev pub new_session : Str → Str → ℕ → ℕ → Session
new_session id token_id conn now = record {
  id = id;
  token_id = token_id;
  namespace = [];
  conn = conn;
  created_at = now;
  lost_at = none;
  subscriptions = [];
  send_ch = new_send_ch;
  on_close = false;
}

-- The error of a session that is bound to another namespace, which it names.
pub data BindError : Type 0 where
  already_bound : Str → BindError

-- `IsBound`
unfoldable pub is_bound : Session → Bool
is_bound s = not (str_beq s.namespace [])

-- `BindNamespace`
unfoldable pub bind_namespace : Str → Session → Option BindError × Session
unfolding is_bound
bind_namespace namespace s =
    if is_bound s && not (str_beq s.namespace namespace)
    then (some (already_bound s.namespace), s)
    else (none, record s { namespace = namespace })

-- `Subscribe`
unfoldable pub subscribe : Str → Session → Session
subscribe key s = record s { subscriptions = insert key s.subscriptions }

-- `Unsubscribe`
unfoldable pub unsubscribe : Str → Session → Session
unsubscribe key s = record s { subscriptions = erase key s.subscriptions }

-- `UnsubscribeAll`
unfoldable pub unsubscribe_all : Session → List Str × Session
unsubscribe_all s = (s.subscriptions, record s { subscriptions = [] })

-- `IsSubscribed`
unfoldable pub is_subscribed : Session → Str → Bool
is_subscribed s key = member key s.subscriptions

-- `Send`
unfoldable pub send : Str → Session → Option (Bool × Session)
send message s =
    if s.send_ch.is_open
    then (if ltb (length s.send_ch.pending) send_capacity
        then some (
          true,
          record s {
            send_ch = record { pending = s.send_ch.pending ++ message ∷ []; is_open = true };
          },
        )
        else some (false, s))
    else none

-- `MarkLost`
unfoldable pub mark_lost : ℕ → Session → Session
mark_lost now s = record s { lost_at = some now }

abbrev pub is_some {ℓ} : {A : Type ℓ} → Option A → Bool
is_some none = false
is_some (some a) = true

-- `IsLost`
unfoldable pub is_lost : Session → Bool
is_lost s = is_some s.lost_at

abbrev since : ℕ → Option ℕ → ℕ
since now none = 0
since now (some t) = now - t

-- `LostDuration`
unfoldable pub lost_duration : ℕ → Session → ℕ
lost_duration now s = since now s.lost_at

-- `Restore`
unfoldable pub restore : ℕ → Session → Session
restore conn s = record s { conn = conn; lost_at = none; send_ch = new_send_ch }
