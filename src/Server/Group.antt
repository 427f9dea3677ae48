-- ===== src/Server/Group.antt =====
-- server/group/tcp.go: proxies that share a remote port. The controller holds its groups by name;
-- a group stays reachable for those that found it after it was removed, so the groups are cells of a
-- store. Listeners are numbered; what `net.Listen` says is an argument.
pub mod Laws
pub mod Race
use chml_frp_frp.Prelude.{
  ℕ, suc, String, Bool, true, false, not, ◌&&◌, ◌||◌, Option, none, some, List, [], ◌∷◌, ◌++◌, ◌==◌,
  str_eq, if◌then◌else◌, keep,
}
use chml_frp_frp.Server.Ports.{
  Manager, PortError, Reply, granted, refused, acquire, release, set, set_name,
}

pub data GroupError : Type 0 where
  params_invalid different_port auth_failed cannot_listen : GroupError
  no_port : PortError → GroupError

pub record TcpGroup : Type 0 where
  pub group : String
  pub group_key : String
  pub addr : String
  pub port : ℕ
  pub real_port : ℕ
  pub accept_closed : Bool
  pub listening : Bool
  pub lns : List ℕ

pub record TcpGroupCtl : Type 0 where
  pub groups : String → Option ℕ
  pub store : ℕ → TcpGroup
  pub next : ℕ
  pub next_listener : ℕ
  pub port_manager : Manager

-- `NewTCPGroup`
unfoldable pub new_group : TcpGroup
new_group = record {
  group = "";
  group_key = "";
  addr = "";
  port = 0;
  real_port = 0;
  accept_closed = false;
  listening = false;
  lns = [];
}

unfoldable pub new_ctl : Manager → TcpGroupCtl
unfolding new_group
new_ctl pm = record {
  groups = λ _. none;
  store = λ _. new_group;
  next = 0;
  next_listener = 0;
  port_manager = pm;
}

-- The first section of `TCPGroupCtl.Listen`: the group of a name, which is made if there is none.
unfoldable pub find_group : String → TcpGroupCtl → ℕ × TcpGroupCtl
unfolding new_group
find_group name c = elim (c.groups name) [
  | some g ↦ (g, c)
  | none ↦ (
    c.next,
    record c {
      groups = set_name name (some c.next) c.groups;
      store = set c.next new_group c.store;
      next = suc c.next;
    },
  )
]

-- What a proxy asks for.
pub record Request : Type 0 where
  pub proxy_name : String
  pub group : String
  pub group_key : String
  pub addr : String
  pub port : ℕ

-- A listener with its port, or an error.
pub data Joined : Type 0 where
  joined : ℕ → ℕ → Joined
  failed : GroupError → Joined

abbrev pub no_listeners : List ℕ → Bool
no_listeners [] = true
no_listeners (l ∷ ls) = false

abbrev pub with_group : ℕ → TcpGroup → TcpGroupCtl → TcpGroupCtl
with_group g tg c = record c { store = set g tg c.store; next_listener = suc c.next_listener }

module _ (available : ℕ → ℕ → Bool) (now : ℕ) (keys : List ℕ) (can_listen : String → ℕ → Bool)
    (r : Request) where
  -- The first listener, once the port manager has replied. The socket is opened on the port of the
  -- request, also where the manager chose one.
  abbrev open_group : ℕ → TcpGroupCtl → Reply × Manager → Joined × TcpGroupCtl
  open_group g c (refused e, pm) = (failed (no_port e), record c { port_manager = pm })
  open_group g c (granted real_port, pm) =
      if can_listen r.addr r.port
      then (
        joined c.next_listener real_port,
        with_group g
            (record (c.store g) {
              group = r.group;
              group_key = r.group_key;
              addr = r.addr;
              port = r.port;
              real_port = real_port;
              listening = true;
              lns = (c.store g).lns ++ c.next_listener ∷ [];
            })
            (record c { port_manager = pm }),
      )
      else (failed cannot_listen, record c { port_manager = pm })

  abbrev add_listener : ℕ → TcpGroupCtl → Joined × TcpGroupCtl
  add_listener g c =
      let tg = c.store g in
      if not (str_eq tg.group r.group) || not (str_eq tg.addr r.addr)
      then (failed params_invalid, c)
      else if not (tg.port == r.port)
      then (failed different_port, c)
      else if not (str_eq tg.group_key r.group_key)
      then (failed auth_failed, c)
      else (
        joined c.next_listener tg.real_port,
        with_group g (record tg { lns = tg.lns ++ c.next_listener ∷ [] }) c,
      )

  -- `TCPGroup.Listen`
  unfoldable pub join_group : ℕ → TcpGroupCtl → Joined × TcpGroupCtl
  join_group g c =
      if no_listeners (c.store g).lns
      then open_group g c (acquire available r.proxy_name now r.port keys c.port_manager)
      else add_listener g c

  -- `TCPGroupCtl.Listen`, with nothing between its two sections.
  unfoldable pub listen : TcpGroupCtl → Joined × TcpGroupCtl
  unfolding find_group join_group
  listen c = let (g, found) = find_group r.group c in join_group g found

-- The loop that removes the listener, which is in the list at most once.
abbrev remove_listener : ℕ → List ℕ → List ℕ
remove_listener l [] = []
remove_listener l (x ∷ xs) = let rest = remove_listener l xs in if x == l then xs else x ∷ rest

-- `CloseListener`; closing a closed channel panics.
unfoldable pub close_listener : ℕ → ℕ → ℕ → TcpGroupCtl → Option TcpGroupCtl
close_listener now g l c =
    let tg = c.store g in
    let left = remove_listener l tg.lns in
    if not (no_listeners left)
    then some (record c { store = set g (record tg { lns = left }) c.store })
    else if tg.accept_closed
    then none
    else some (record c {
      groups = set_name tg.group none c.groups;
      store = set g (record tg { lns = left; accept_closed = true; listening = false }) c.store;
      port_manager = release now tg.real_port c.port_manager;
    })

-- Whether a connection that the socket accepts reaches a listener: the worker sends it on the
-- channel of the group.
unfoldable pub reaches_listener : TcpGroup → Bool
reaches_listener tg = tg.listening && not tg.accept_closed
