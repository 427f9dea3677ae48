-- ===== src/Server/Visitor.antt =====
-- server/visitor/visitor.go: the listeners of secret proxies by name, and the checks of a visitor's
-- connection; pkg/util/net/listener.go, their queues; and the part of server/proxy/stcp.go that uses
-- them. Listeners and connections are numbered. The key of a visitor (`util.GetAuthKey`, a digest) and
-- `lo.Contains` are parameters; whether the encryption of a connection fails is an argument.
pub mod Laws
use chml_frp_frp.Prelude.{
  ℕ, String, ◌≡◌, ◌↔◌, Bool, true, false, not, ◌&&◌, ◌||◌, Option, none, some, List, [], ◌∷◌, ◌++◌,
  ltb, length, str_eq, if◌then◌else◌, ℤ,
}
use chml_frp_frp.Server.Ports.{set}
use chml_frp_frp.Client.Manager.{set_name}

pub record InternalListener : Type 0 where
  pub accept_ch : List ℕ
  pub closed : Bool

pub record ListenerBundle : Type 0 where
  pub l : ℕ
  pub sk : String
  pub allow_users : List String

pub record VisitorManager : Type 0 where
  pub listeners : String → Option ListenerBundle
  pub store : ℕ → InternalListener

pub data VisitorError : Type 0 where
  repeated auth_failed not_allowed encryption_failed not_found put_failed : VisitorError

abbrev pub new_internal_listener : InternalListener
new_internal_listener = record { accept_ch = []; closed = false }

-- The capacity of the channel.
abbrev pub accept_size : ℕ
accept_size = 128

-- `PutConn`, with whether it fails; where the channel is full, the connection is closed.
unfoldable pub put_conn : ℕ → InternalListener → Bool × InternalListener
put_conn conn l =
    if l.closed
    then (true, l)
    else if ltb (length l.accept_ch) accept_size
    then (false, record l { accept_ch = l.accept_ch ++ conn ∷ [] })
    else (false, l)

-- `InternalListener.Close`; what waits in the channel can still be accepted.
unfoldable pub close_internal : InternalListener → InternalListener
close_internal l = record l { closed = true }

-- `Manager.Listen`, for the number of the new listener.
unfoldable pub listen :
    String → String → List String → ℕ → VisitorManager → Option VisitorError × VisitorManager
listen name sk allow_users l vm = elim (vm.listeners name) [
  | some _ ↦ (some repeated, vm)
  | none ↦ (
    none,
    record {
      listeners =
          set_name name (some (record { l = l; sk = sk; allow_users = allow_users })) vm.listeners;
      store = set l new_internal_listener vm.store;
    },
  )
]

-- `CloseListener`
unfoldable pub close_listener : String → VisitorManager → VisitorManager
close_listener name vm = record vm { listeners = set_name name none vm.listeners }

-- A connection as `NewConn` gets it; `encryptable` tells whether `WithEncryption` works.
pub record VisitorConn : Type 0 where
  pub conn : ℕ
  pub timestamp : ℤ
  pub sign_key : String
  pub use_encryption : Bool
  pub encryptable : Bool
  pub visitor_user : String

-- What follows the checks.
unfoldable pub hand_over : VisitorConn → ℕ → VisitorManager → Option VisitorError × VisitorManager
unfolding put_conn
hand_over c l vm =
    let (fails, after) = put_conn c.conn (vm.store l) in
    (if fails then some put_failed else none, record vm { store = set l after vm.store })

module _ (get_auth_key : String → ℤ → String) (contains : String → List String → Bool) where
  abbrev pub is_allowed : VisitorConn → ListenerBundle → Bool
  is_allowed c b = contains c.visitor_user b.allow_users || contains "*" b.allow_users

  -- `NewConn`
  unfoldable pub new_conn :
      String → VisitorConn → VisitorManager → Option VisitorError × VisitorManager
  unfolding hand_over
  new_conn name c vm = elim (vm.listeners name) [
    | none ↦ (some not_found, vm)
    | some b ↦
        if not (str_eq (get_auth_key b.sk c.timestamp) c.sign_key)
        then (some auth_failed, vm)
        else if not (is_allowed c b)
        then (some not_allowed, vm)
        else if c.use_encryption && not c.encryptable
        then (some encryption_failed, vm)
        else hand_over c b.l vm
  ]

-- The users that a secret proxy lets in: those of its configuration, or its own.
abbrev pub users_or_own : String → List String → List String
users_or_own user [] = user ∷ []
users_or_own user (u ∷ us) = u ∷ us

-- `STCPProxy.Run`, for the user of the proxy.
unfoldable pub stcp_run :
    String
    → String
    → String
    → List String
    → ℕ
    → VisitorManager
    → Option VisitorError × VisitorManager
unfolding listen
stcp_run name user sk allow_users l vm = listen name sk (users_or_own user allow_users) l vm

-- `STCPProxy.Close`, for the number of its listener.
unfoldable pub stcp_close : String → ℕ → VisitorManager → VisitorManager
unfolding close_internal close_listener
stcp_close name l vm =
    close_listener name (record vm { store = set l (close_internal (vm.store l)) vm.store })
