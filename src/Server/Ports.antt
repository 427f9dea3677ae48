-- ===== src/Server/Ports.antt =====
-- server/ports/ports.go: the manager of the remote ports. Its three maps are functions, and the
-- contexts that two of the maps share are cells of a store, which `next` numbers. A time is a number
-- of nanoseconds; what the operating system says to the n-th probe of a call is an argument.
pub mod Valid
pub mod Laws
pub mod Outcome
pub mod Reserve
use chml_frp_frp.Prelude.{
  ℕ, zero, suc, ◌-◌, String, ◌≡◌, Bool, true, false, ◌&&◌, ◌||◌, Option, none, some, List, [], ◌∷◌,
  ltb, leb, ◌==◌, if◌then◌else◌, str_eq, All,
}

pub data PortError : Type 0 where
  already_used not_allowed unavailable no_available : PortError

pub record PortCtx : Type 0 where
  pub proxy_name : String
  pub port : ℕ
  pub closed : Bool
  pub update_time : ℕ

pub record Manager : Type 0 where
  pub reserved_ports : String → Option ℕ
  pub used_ports : ℕ → Option ℕ
  pub free_ports : ℕ → Bool
  pub store : ℕ → PortCtx
  pub next : ℕ

abbrev pub max_port : ℕ
max_port = 65535

-- 24 hours.
abbrev pub max_port_reserved_duration : ℕ
max_port_reserved_duration = 86400000000000

-- A map with one key changed.
abbrev pub set {ℓ} : {A : Type ℓ} → ℕ → A → (ℕ → A) → ℕ → A
set k a f i = if i == k then a else f i

abbrev pub set_name : String → Option ℕ → (String → Option ℕ) → String → Option ℕ
set_name k a f name = if str_eq name k then a else f name

abbrev listed : List ℕ → ℕ → Bool
listed [] p = false
listed (k ∷ ks) p = (p == k) || listed ks p

-- The ports that a configuration allows: without a list, all of them.
abbrev pub allowed_by : List ℕ → ℕ → Bool
allowed_by [] p = leb 1 p && leb p max_port
allowed_by (k ∷ ks) p = listed (k ∷ ks) p

unfoldable pub new_manager : List ℕ → Manager
new_manager allow_ports = record {
  reserved_ports = λ _. none;
  used_ports = λ _. none;
  free_ports = allowed_by allow_ports;
  store = λ _. record { proxy_name = ""; port = 0; closed = false; update_time = 0 };
  next = 0;
}

-- The statements after `realPort = ...`, with the new context.
unfoldable pub occupy : String → ℕ → ℕ → Manager → Manager
occupy name now port pm = record {
  reserved_ports = set_name name (some pm.next) pm.reserved_ports;
  used_ports = set port (some pm.next) pm.used_ports;
  free_ports = set port false pm.free_ports;
  store =
      set pm.next (record { proxy_name = name; port = port; closed = false; update_time = now })
        pm.store;
  next = suc pm.next;
}

pub data Reply : Type 0 where
  granted : ℕ → Reply
  refused : PortError → Reply

-- The first port of a list that answers a probe, where so many are tried; `i` counts the probes.
unfoldable pub first_available : (ℕ → ℕ → Bool) → ℕ → ℕ → List ℕ → Option ℕ
first_available available i zero ks = none
first_available available i (suc tries) [] = none
first_available available i (suc tries) (k ∷ ks) =
    let rest = first_available available (suc i) tries ks in if available i k then some k else rest

module _ (available : ℕ → ℕ → Bool) (name : String) (now : ℕ) where
  -- The loop over the free ports, which it meets in the order `keys`.
  unfoldable pub acquire_random : List ℕ → Manager → Reply × Manager
  unfolding first_available
  acquire_random keys pm = elim (first_available available 1 5 keys) [
    | none ↦ (refused no_available, pm)
    | some k ↦ (if k == 0 then refused no_available else granted k, occupy name now k pm)
  ]

  unfoldable pub acquire_specified : ℕ → Manager → Reply × Manager
  acquire_specified port pm =
      if pm.free_ports port
      then if available 1 port
        then (granted port, occupy name now port pm)
        else (refused unavailable, pm)
      else elim (pm.used_ports port) [
        | some _ ↦ (refused already_used, pm)
        | none ↦ (refused not_allowed, pm)
      ]

  unfoldable pub acquire_reserved : List ℕ → Manager → Reply × Manager
  unfolding acquire_random
  acquire_reserved keys pm = elim (pm.reserved_ports name) [
    | none ↦ acquire_random keys pm
    | some i ↦
        if available 0 (pm.store i).port
        then (granted (pm.store i).port, occupy name now (pm.store i).port pm)
        else acquire_random keys pm
  ]

  unfoldable pub acquire : ℕ → List ℕ → Manager → Reply × Manager
  unfolding acquire_reserved acquire_specified
  acquire port keys pm = if port == 0 then acquire_reserved keys pm else acquire_specified port pm

unfoldable pub release : ℕ → ℕ → Manager → Manager
release now port pm = elim (pm.used_ports port) [
  | none ↦ pm
  | some i ↦ record pm {
    free_ports = set port true pm.free_ports;
    used_ports = set port none pm.used_ports;
    store = set i (record (pm.store i) { closed = true; update_time = now }) pm.store;
  }
]

-- A round of `cleanReservedPortsWorker`.
unfoldable pub clean_reserved : ℕ → Manager → Manager
clean_reserved now pm = record pm {
  reserved_ports = λ name. elim (pm.reserved_ports name) [
    | none ↦ none
    | some i ↦
        if (pm.store i).closed && ltb max_port_reserved_duration (now - (pm.store i).update_time)
        then none
        else some i
  ];
}

-- One critical section. The loop over the free ports meets only free ports.
pub data Step : Manager → Manager → Type 0 where
  acquires :
      (available : ℕ → ℕ → Bool) (name : String) (now port : ℕ) (keys : List ℕ) {pm : Manager}
      → All (λ (k : ℕ). pm.free_ports k ≡ true) keys
      → Step pm (acquire available name now port keys pm).1
  releases : (now port : ℕ) {pm : Manager} → Step pm (release now port pm)
  cleans : (now : ℕ) {pm : Manager} → Step pm (clean_reserved now pm)

pub data Reachable (start : Manager) : Manager → Type 0 where
  started : Reachable start start
  stepped : {pm qm : Manager} → Reachable start pm → Step pm qm → Reachable start qm
