-- ===== src/Target.antt =====
-- A polled target of internal/server/poller.go: Target with its owners, its state and its statistics.
-- Its buffer is a Ring. Durations are an int32 that is not negative, and `none` is the -1 that
-- stands for no minimum. The request of the client is generated code: a record of the fields read.
pub mod Health
use snmpproxy.Base.{
  ℕ, ◌+◌, Bool, true, false, not, ◌&&◌, Option, none, some, List, [], ◌∷◌, ◌++◌, ◌%◌, ◌^◌, Str,
  str_eq, if◌then◌else◌, ltb, nat_beq, length,
}
use snmpproxy.Base.Int64.{add64, sle, sdiv}
use snmpproxy.Base.Map.{member, insert, erase}
use snmpproxy.Base.Options.{◌>>=◌}
use snmpproxy.Base.Text.{lit}
use snmpproxy.Ring.{Ring, Sample, new_ring, write, resize}

pub data TargetState : Type 0 where
  polling unreachable : TargetState

-- The configuration of the protocol SNMP in a request.
pub record SnmpRequest : Type 0 where
  pub host : Str
  pub port : ℕ
  pub oid : Str

pub record CreateRequest : Type 0 where
  pub name : Str
  pub description : Str
  pub tags : List Str
  pub persistent : Bool
  pub interval_ms : ℕ
  pub buffer_size : ℕ
  pub snmp : Option SnmpRequest

pub record Target : Type 0 where
  pub id : Str
  pub name : Str
  pub description : Str
  pub tags : List Str
  pub persistent : Bool
  pub protocol : Str
  pub host : Str
  pub port : ℕ
  pub oid : Str
  pub snmp : Option SnmpRequest
  pub interval_ms : ℕ
  pub state : TargetState
  pub last_poll_ms : ℕ
  pub last_error : Str
  pub err_count : ℕ
  pub owners : List Str
  pub created_at : ℕ
  pub polls_total : ℕ
  pub polls_ok : ℕ
  pub polls_failed : ℕ
  pub poll_ms_total : ℕ
  pub poll_ms_min : Option ℕ
  pub poll_ms_max : ℕ
  pub ring : Ring

abbrev pub or_default : ℕ → ℕ → ℕ
or_default n default = if nat_beq n 0 then default else n

-- The last block of `NewTarget`; the port is cut to 16 bits.
abbrev pub with_snmp : Option SnmpRequest → Target → Target
with_snmp none t = t
with_snmp (some c) t = record t {
  protocol = lit "snmp";
  host = c.host;
  port = or_default (c.port % 2 ^ 16) 161;
  oid = c.oid;
  snmp = some c;
}

-- `NewTarget`
unfoldable pub new_target : Str → CreateRequest → ℕ → ℕ → Target
new_target id req default_size now = with_snmp req.snmp (record {
  id = id;
  name = req.name;
  description = req.description;
  tags = req.tags;
  persistent = req.persistent;
  protocol = [];
  host = [];
  port = 0;
  oid = [];
  snmp = none;
  interval_ms = or_default req.interval_ms 1000;
  state = polling;
  last_poll_ms = 0;
  last_error = [];
  err_count = 0;
  owners = [];
  created_at = now;
  polls_total = 0;
  polls_ok = 0;
  polls_failed = 0;
  poll_ms_total = 0;
  poll_ms_min = none;
  poll_ms_max = 0;
  ring = new_ring (or_default req.buffer_size default_size);
})

-- `AddOwner`
unfoldable pub add_owner : Str → Target → Target
add_owner session t = record t { owners = insert session t.owners }

-- `RemoveOwner`
unfoldable pub remove_owner : Str → Target → Target
remove_owner session t = record t { owners = erase session t.owners }

-- `HasOwners`
unfoldable pub has_owners : Target → Bool
has_owners t = ltb 0 (length t.owners)

-- `IsConfigTarget`
unfoldable pub is_config_target : Target → Bool
is_config_target t = member (lit "$config") t.owners

-- The state after a failure; `n` is the error count, already counted up.
abbrev state_on_failure : ℕ → TargetState → TargetState
state_on_failure n s = if sle 3 n then unreachable else s

-- The second block of `WriteSample`.
unfoldable pub count_sample : Sample → Target → Target
count_sample s t =
    if s.valid
    then record t {
      last_poll_ms = s.timestamp_ms;
      polls_total = add64 t.polls_total 1;
      state = polling;
      last_error = [];
      err_count = 0;
      polls_ok = add64 t.polls_ok 1;
    }
    else record t {
      last_poll_ms = s.timestamp_ms;
      polls_total = add64 t.polls_total 1;
      last_error = s.error;
      err_count = add64 t.err_count 1;
      polls_failed = add64 t.polls_failed 1;
      state = state_on_failure (add64 t.err_count 1) t.state;
    }

abbrev pub lower : Option ℕ → ℕ → ℕ
lower none ms = ms
lower (some least) ms = if ltb ms least then ms else least

-- The last block of `WriteSample`.
unfoldable pub time_sample : ℕ → Target → Target
time_sample ms t = record t {
  poll_ms_total = add64 t.poll_ms_total ms;
  poll_ms_min = some (lower t.poll_ms_min ms);
  poll_ms_max = if ltb t.poll_ms_max ms then ms else t.poll_ms_max;
}

-- `WriteSample`
unfoldable pub write_sample : Sample → Target → Option Target
unfolding count_sample time_sample
write_sample s t = write s t.ring >>= λ ring.
    some (time_sample s.poll_ms (count_sample s (record t { ring = ring })))

-- `ResizeBuffer`
unfoldable pub resize_buffer : ℕ → Target → Option Target
resize_buffer new_size t = resize new_size t.ring >>= λ ring. some (record t { ring = ring })
