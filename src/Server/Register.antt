-- ===== src/Server/Register.antt =====
-- server/control.go: a client registers its proxies and closes them, within its number of ports; and
-- server/proxy/proxy.go, the manager of the proxies of all clients. Controls are numbered; a proxy is
-- its name with the number of ports that it uses. `RegisterProxy` is two steps, before and after the
-- proxy runs, as other clients go on in between; the work of one client is done in order.
pub mod Entries
pub mod Counted
pub mod Valid
pub mod Within
pub mod Quota
use chml_frp_frp.Prelude.{
  ℕ, zero, suc, ◌+◌, String, ◌≡◌, Bool, true, false, ◌&&◌, Option, none, some, List, [], ◌∷◌, ltb,
  str_eq, if◌then◌else◌, ℤ, pos, ◌+ℤ◌, ◌-ℤ◌, ltb_ℤ,
}
use chml_frp_frp.Server.Ports.{set}
use chml_frp_frp.Client.Manager.{set_name, lookup}

abbrev pub Entries : Type 0
Entries = List (String × ℕ)

-- `proxies[name] = pxy`
abbrev pub set_entry : String → ℕ → Entries → Entries
set_entry name used [] = (name, used) ∷ []
set_entry name used ((k, n) ∷ rest) =
    let others = set_entry name used rest in
    if str_eq name k then (k, used) ∷ rest else (k, n) ∷ others

-- `delete(proxies, name)`
abbrev pub delete_entry : String → Entries → Entries
delete_entry name [] = []
delete_entry name ((k, n) ∷ rest) =
    let others = delete_entry name rest in if str_eq name k then rest else (k, n) ∷ others

-- What a control knows of its proxies; `pending` is the one that is being started.
pub record Client : Type 0 where
  pub proxies : Entries
  pub ports_used_num : ℤ
  pub pending : Option (String × ℕ)
  pub stopped : Bool

pub record Registry : Type 0 where
  pub pxys : String → Option ℕ
  pub clients : ℕ → Client

abbrev pub new_client : Client
new_client = record { proxies = []; ports_used_num = pos 0; pending = none; stopped = false }

unfoldable pub new_registry : Registry
new_registry = record { pxys = λ _. none; clients = λ _. new_client }

pub data RegisterError : Type 0 where
  too_many_ports already_exists not_running in_use : RegisterError

-- The change of the number of ports, where it is limited.
abbrev pub use_ports : ℕ → ℕ → Client → Client
use_ports zero used c = c
use_ports (suc max) used c = record c { ports_used_num = c.ports_used_num +ℤ pos used }

abbrev pub free_ports : ℕ → ℕ → Client → Client
free_ports zero used c = c
free_ports (suc max) used c = record c { ports_used_num = c.ports_used_num -ℤ pos used }

abbrev pub exceeds : ℕ → ℕ → Client → Bool
exceeds zero used c = false
exceeds (suc max) used c = ltb_ℤ (pos (suc max)) (c.ports_used_num +ℤ pos used)

abbrev pub set_client : ℕ → Client → Registry → Registry
set_client i c s = record s { clients = set i c s.clients }

module _ (max_ports_per_client : ℕ) where
  -- `RegisterProxy` up to the call of `Run`.
  unfoldable pub begin_register : ℕ → String → ℕ → Registry → Option RegisterError × Registry
  begin_register i name used s =
      let c = s.clients i in
      let taken = use_ports max_ports_per_client used c in
      if exceeds max_ports_per_client used c then (some too_many_ports, s) else elim (s.pxys name) [
        | some _ ↦
            (some already_exists, set_client i (free_ports max_ports_per_client used taken) s)
        | none ↦ (none, set_client i (record taken { pending = some (name, used) }) s)
      ]

  -- The end of `RegisterProxy` after an error, which gives the ports back.
  abbrev pub give_back : ℕ → ℕ → Registry → Registry
  give_back i used s =
      set_client i (record (free_ports max_ports_per_client used (s.clients i)) { pending = none })
        s

  -- The end of `RegisterProxy`, after `Run` has failed or not.
  abbrev pub started_proxy : ℕ → String → ℕ → Registry → Option RegisterError × Registry
  started_proxy i name used s = elim (s.pxys name) [
    | some _ ↦ (some in_use, give_back i used s)
    | none ↦ (
      none,
      record {
        pxys = set_name name (some i) s.pxys;
        clients =
            set i
              (record (s.clients i) {
                proxies = set_entry name used (s.clients i).proxies;
                pending = none;
              })
              s.clients;
      },
    )
  ]

  unfoldable pub end_register : Bool → ℕ → Registry → Option RegisterError × Registry
  end_register runs i s = elim (s.clients i).pending [
    | none ↦ (none, s)
    | some (name, used) ↦
        if runs then started_proxy i name used s else (some not_running, give_back i used s)
  ]

  -- `CloseProxy` and `ForceCloseProxy`, with whether the proxy was found.
  unfoldable pub close_proxy : ℕ → String → Registry → Bool × Registry
  close_proxy i name s = elim (lookup name (s.clients i).proxies) [
    | none ↦ (false, s)
    | some used ↦ (
      true,
      record {
        pxys = set_name name none s.pxys;
        clients =
            set i
              (record (free_ports max_ports_per_client used (s.clients i)) {
                proxies = delete_entry name (s.clients i).proxies;
              })
              s.clients;
      },
    )
  ]

-- The loop at the end of `stoper`, over the proxies of the control, which keeps them.
abbrev pub del_names : Entries → (String → Option ℕ) → String → Option ℕ
del_names [] pxys = pxys
del_names ((k, n) ∷ rest) pxys = del_names rest (set_name k none pxys)

unfoldable pub stop_client : ℕ → Registry → Registry
stop_client i s = record {
  pxys = del_names (s.clients i).proxies s.pxys;
  clients = set i (record (s.clients i) { stopped = true }) s.clients;
}
