-- ===== src/Client/Manager.antt =====
-- client/proxy/proxy_manager.go: the proxies of a client, and what a reload does to them. A map is a
-- function; a loop over a map takes the keys in the order in which it meets them. The proxies that
-- were told to stop are kept in a list, the last one first.
pub mod Dropped
pub mod Reload
pub mod Closed
pub mod Leaves
pub mod Live
pub mod Again
use chml_frp_frp.Prelude.{
  String, ◌≡◌, Bool, true, false, not, Option, none, some, List, [], ◌∷◌, str_eq, ◌+++◌,
  if◌then◌else◌,
}
use chml_frp_frp.Client.Wrapper.{
  Phase, new, wait_start, start_err, running, check_failed, closed, Wrapper, Call, call,
  new_wrapper, set_running_status, stop, in_work_conn,
}
use chml_frp_frp.Client.Admin.Status.{BaseConfig, WorkingStatus}

-- What the manager asks of a configuration: the fields of `GetBaseConfig`, and whether
-- `reflect.DeepEqual` finds it the same as another.
pub record ProxyConfOps (C : Type 0) : Type 0 where
  pub same : C → C → Bool
  pub proxy_name : C → String
  pub proxy_type : C → String
  pub health_check_type : C → String
  pub base_config : C → BaseConfig

-- `reflect.DeepEqual` on two configurations tells whether they are equal.
pub record IsDeepEqual {C : Type 0} (ops : ProxyConfOps C) : Type 0 where
  pub same_self : (c : C) → ops.same c c ≡ true
  pub same_eq : (c d : C) → ops.same c d ≡ true → c ≡ d

-- A wrapper with its configuration.
pub record Proxy (C : Type 0) : Type 0 where
  pub cfg : C
  pub wrapper : Wrapper

pub record ProxyManager (C : Type 0) : Type 0 where
  pub proxies : String → Option (Proxy C)
  pub stopped : List (Proxy C)

unfoldable pub new_manager : {C : Type 0} → ProxyManager C
new_manager = record { proxies = λ _. none; stopped = [] }

abbrev pub set_name {ℓ} : {A : Type ℓ} → String → Option A → (String → Option A) → String → Option A
set_name k v f name = if str_eq name k then v else f name

abbrev pub lookup {ℓ} : {A : Type ℓ} → String → List (String × A) → Option A
lookup name [] = none
lookup name ((k, a) ∷ rest) =
    let found = lookup name rest in if str_eq name k then some a else found

-- `pxy.Stop()`, after the proxy left the map.
abbrev pub take_out : {C : Type 0} → String → Proxy C → ProxyManager C → Option (ProxyManager C)
take_out name p pm = elim (stop p.wrapper) [
  | none ↦ none
  | some w ↦ some (record {
    proxies = set_name name none pm.proxies;
    stopped = record p { wrapper = w } ∷ pm.stopped;
  })
]

module _ {C : Type 0} (ops : ProxyConfOps C) where
  -- `NewWrapper`, whose proxy has a health check if its configuration names one.
  unfoldable pub started : C → Proxy C
  started c = record { cfg = c; wrapper = new_wrapper (not (str_eq (ops.health_check_type c) "")) }

  -- The test of the first loop of `Reload`, for a proxy and the new configuration under its name.
  abbrev pub is_kept : Proxy C → Option C → Bool
  is_kept p none = false
  is_kept p (some c) = ops.same p.cfg c

  -- A round of the first loop.
  abbrev pub drop_changed : List (String × C) → String → ProxyManager C → Option (ProxyManager C)
  drop_changed cfgs name pm = elim (pm.proxies name) [
    | none ↦ some pm
    | some p ↦ if is_kept p (lookup name cfgs) then some pm else take_out name p pm
  ]

  -- The first loop of `Reload`.
  unfoldable pub drop_proxies :
      List String → List (String × C) → ProxyManager C → Option (ProxyManager C)
  drop_proxies [] cfgs pm = some pm
  drop_proxies (name ∷ names) cfgs pm = elim (drop_changed cfgs name pm) [
    | none ↦ none
    | some next ↦ drop_proxies names cfgs next
  ]

  -- A round of the second loop.
  abbrev pub add_missing : String → C → ProxyManager C → ProxyManager C
  add_missing name c pm = elim (pm.proxies name) [
    | none ↦ record pm { proxies = set_name name (some (started c)) pm.proxies }
    | some _ ↦ pm
  ]

  -- The second loop of `Reload`.
  unfoldable pub add_proxies : List (String × C) → ProxyManager C → ProxyManager C
  unfolding started
  add_proxies [] pm = pm
  add_proxies ((name, c) ∷ cfgs) pm = add_proxies cfgs (add_missing name c pm)

  -- `Reload`; without a result a `Stop` has panicked.
  unfoldable pub reload : List String → List (String × C) → ProxyManager C → Option (ProxyManager C)
  unfolding drop_proxies add_proxies
  reload names cfgs pm = elim (drop_proxies names cfgs pm) [
    | none ↦ none
    | some left ↦ some (add_proxies cfgs left)
  ]

  -- `GetStatus`
  abbrev pub phase_text : Phase → String
  phase_text new = "new"
  phase_text wait_start = "wait start"
  phase_text start_err = "start error"
  phase_text running = "running"
  phase_text check_failed = "check failed"
  phase_text closed = "closed"

  unfoldable pub get_status : Proxy C → WorkingStatus
  get_status p = record {
    name = ops.proxy_name p.cfg;
    kind = ops.proxy_type p.cfg;
    phase = phase_text p.wrapper.phase;
    err = p.wrapper.err;
    cfg = ops.base_config p.cfg;
    remote_addr = p.wrapper.remote_addr;
  }

  -- `GetAllProxyStatus`
  unfoldable pub get_all_proxy_status : List String → ProxyManager C → List WorkingStatus
  unfolding get_status
  get_all_proxy_status [] pm = []
  get_all_proxy_status (name ∷ names) pm = elim (pm.proxies name) [
    | none ↦ get_all_proxy_status names pm
    | some p ↦ get_status p ∷ get_all_proxy_status names pm
  ]

module _ {C : Type 0} where
  -- `pxy.Stop()` in the loop of `Close`: the proxy stays in the map.
  abbrev pub stop_in_place : String → Proxy C → ProxyManager C → Option (ProxyManager C)
  stop_in_place name p pm = elim (stop p.wrapper) [
    | none ↦ none
    | some w ↦ some (record {
      proxies = set_name name (some (record p { wrapper = w })) pm.proxies;
      stopped = record p { wrapper = w } ∷ pm.stopped;
    })
  ]

  -- The loop of `Close`.
  unfoldable pub stop_proxies : List String → ProxyManager C → Option (ProxyManager C)
  stop_proxies [] pm = some pm
  stop_proxies (name ∷ names) pm = elim (pm.proxies name) [
    | none ↦ stop_proxies names pm
    | some p ↦ elim (stop_in_place name p pm) [ none ↦ none | some next ↦ stop_proxies names next ]
  ]

  -- `Close`
  unfoldable pub close : List String → ProxyManager C → Option (ProxyManager C)
  unfolding stop_proxies
  close names pm = elim (stop_proxies names pm) [
    | none ↦ none
    | some left ↦ some (record left { proxies = λ _. none })
  ]

  -- `StartProxy`, with the error of the manager or of the wrapper.
  unfoldable pub start_proxy :
      String → String → String → Option String → ProxyManager C → Option String × ProxyManager C
  start_proxy name remote resp_err run_err pm = elim (pm.proxies name) [
    | none ↦ (some ("找不到隧道 [" +++ name +++ "]"), pm)
    | some p ↦
        let (err, w) = set_running_status remote resp_err run_err p.wrapper in
        (err, record pm { proxies = set_name name (some (record p { wrapper = w })) pm.proxies })
  ]

  -- `HandleWorkConn`: whether the connection is handed to a proxy; if not, it is closed.
  unfoldable pub handle_work_conn : String → ProxyManager C → Bool
  handle_work_conn name pm = elim (pm.proxies name) [
    | none ↦ false
    | some p ↦ in_work_conn p.wrapper
  ]
