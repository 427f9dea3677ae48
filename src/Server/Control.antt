-- ===== src/Server/Control.antt =====
-- server/control.go: the controls of the clients that are logged in, and the work connections that a
-- control holds. Controls and connections are numbered; a run id is the list of its code points. A
-- section under a lock is one step; the queue of messages is long enough.
pub mod Laws
pub mod Search
pub mod Replace
use chml_frp_frp.Prelude.{
  ℕ, suc, ◌+◌, ◌-◌, Bool, true, false, ◌&&◌, ◌||◌, Option, none, some, List, [], ◌∷◌, ◌++◌, ltb,
  ◌==◌, length, if◌then◌else◌, ℤ, pos, negsuc,
}
use chml_frp_frp.Vhost.Router.{Bytes, bytes_eq, has_prefix}
use chml_frp_frp.Server.Ports.{set}

pub record Control : Type 0 where
  pub run_id : Bytes
  pub stopped : Bool
  pub capacity : ℕ
  pub work_conns : List ℕ
  pub pool_closed : Bool
  pub send_closed : Bool
  pub requests : ℕ

-- The capacity `poolCount+10` of the channel, where it is not negative.
abbrev pub channel_size : ℤ → ℕ → Option ℕ
channel_size (pos n) max_pool_count =
    some ((if ltb max_pool_count n then max_pool_count else n) + 10)
channel_size (negsuc n) max_pool_count = if ltb n 10 then some (9 - n) else none

-- A control whose channel has a size; `make` panics on a negative one.
abbrev pub made : Bytes → Option ℕ → Option Control
made run_id none = none
made run_id (some size) = some (record {
  run_id = run_id;
  stopped = false;
  capacity = size;
  work_conns = [];
  pool_closed = false;
  send_closed = false;
  requests = 0;
})

-- `NewControl`, for the pool count of the client and the largest one.
unfoldable pub new_control : Bytes → ℤ → ℕ → Option Control
new_control run_id pool_count max_pool_count = made run_id (channel_size pool_count max_pool_count)

-- `RegisterWorkConn`, with whether it returns an error. A panic on the closed channel is recovered,
-- and the result of the function is then its zero value, no error.
unfoldable pub register_work_conn : ℕ → Control → Bool × Control
register_work_conn conn ctl =
    if ctl.pool_closed
    then (false, ctl)
    else if ltb (length ctl.work_conns) ctl.capacity
    then (false, record ctl { work_conns = ctl.work_conns ++ conn ∷ [] })
    else (true, ctl)

pub data Answer : Type 0 where
  got : ℕ → Answer
  ctl_closed already_closed timed_out : Answer

-- What comes first while a call waits for the empty pool.
pub data Wait : Type 0 where
  arrives : ℕ → Wait
  closes elapses : Wait

-- A request for a connection; where the queue is closed, the panic is caught.
abbrev pub request : Control → Control
request ctl = if ctl.send_closed then ctl else record ctl { requests = suc ctl.requests }

-- `GetWorkConn`
abbrev pub take_waiting : Wait → Control → Answer × Control
take_waiting (arrives conn) ctl = (got conn, request ctl)
take_waiting closes ctl = (ctl_closed, ctl)
take_waiting elapses ctl = (timed_out, ctl)

unfoldable pub get_work_conn : Wait → Control → Answer × Control
get_work_conn wait ctl = elim ctl.work_conns [
  | conn ∷ conns ↦ (got conn, request (record ctl { work_conns = conns }))
  | [] ↦
      if ctl.pool_closed
      then (ctl_closed, ctl)
      else if ctl.send_closed
      then (already_closed, ctl)
      else take_waiting wait (request ctl)
]

-- The end of `stoper`, which closes the connections that are left.
unfoldable pub stoper : Control → Control
stoper ctl = record ctl { send_closed = true; pool_closed = true; work_conns = [] }

pub record ControlManager : Type 0 where
  pub ctls_by_run_id : Bytes → Option ℕ
  pub store : ℕ → Control

abbrev pub set_id : Bytes → Option ℕ → (Bytes → Option ℕ) → Bytes → Option ℕ
set_id k v f id = if bytes_eq id k then v else f id

abbrev pub replaced : Control → Control
replaced ctl = record ctl { run_id = []; stopped = true }

-- `Add`, which returns the control that it replaces.
unfoldable pub add : Bytes → ℕ → ControlManager → Option ℕ × ControlManager
add run_id ctl cm = (
  cm.ctls_by_run_id run_id,
  record {
    ctls_by_run_id = set_id run_id (some ctl) cm.ctls_by_run_id;
    store = elim (cm.ctls_by_run_id run_id) [
      | none ↦ cm.store
      | some old ↦ set old (replaced (cm.store old)) cm.store
    ];
  },
)

-- `Del`, which leaves another control under the id alone.
abbrev is_ctl : ℕ → Option ℕ → Bool
is_ctl ctl none = false
is_ctl ctl (some c) = c == ctl

unfoldable pub del : Bytes → ℕ → ControlManager → ControlManager
del run_id ctl cm =
    if is_ctl ctl (cm.ctls_by_run_id run_id)
    then record cm { ctls_by_run_id = set_id run_id none cm.ctls_by_run_id }
    else cm

-- `strings.Contains`
abbrev pub contains : Bytes → Bytes → Bool
contains [] part = has_prefix [] part
contains (c ∷ text) part = let rest = contains text part in has_prefix (c ∷ text) part || rest

-- `SearchByID`, for the keys in the order in which the loop meets them; the last one that contains
-- the id and a dash remains. No control of the map is nil.
unfoldable pub search_by_id : Bytes → List Bytes → ControlManager → Option ℕ
search_by_id run_id [] cm = none
search_by_id run_id (k ∷ ks) cm =
    let rest = search_by_id run_id ks cm in
    if contains k (run_id ++ b'-' ∷ [])
    then elim rest [ some ctl ↦ some ctl | none ↦ cm.ctls_by_run_id k ]
    else rest

-- `CloseUser` of server/service.go; without a result the user has not logged in.
unfoldable pub close_user : Bytes → List Bytes → ControlManager → Option ControlManager
unfolding search_by_id
close_user user keys cm = elim (search_by_id user keys cm) [
  | none ↦ none
  | some ctl ↦
      some (record cm { store = set ctl (record (cm.store ctl) { stopped = true }) cm.store })
]
