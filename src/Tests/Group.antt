-- ===== src/Tests/Group.antt =====
-- A group of TCP proxies on one port, server/group/tcp.go.
use chml_frp_frp.Prelude.{
  ℕ, String, ◌≡◌, refl, Bool, true, false, none, some, [], ◌∷◌, arith, Option,
}
use mathlib.Core.Option
use chml_frp_frp.Server.Ports.{
  Reply, granted, acquire, acquire_specified, already_used, new_manager, occupy,
}
use chml_frp_frp.Server.Group.{
  TcpGroupCtl, new_ctl, new_group, Request, joined, failed, cannot_listen, no_port, listen,
  no_listeners, find_group, close_listener, join_group, reaches_listener,
}
use chml_frp_frp.Server.Group.Laws.{listen-close, listen-leaks}
use chml_frp_frp.Server.Group.Race.{Single, find-close-join, removed}

abbrev answers : ℕ → ℕ → Bool
answers i port = true

abbrev opens : String → ℕ → Bool
opens addr port = true

abbrev busy : String → ℕ → Bool
busy addr port = false

abbrev web : Request
web = record { proxy_name = "web"; group = "g"; group_key = "k"; addr = "0.0.0.0"; port = 6000 }

abbrev start : TcpGroupCtl
start = new_ctl (new_manager (6000 ∷ []))

fresh : start.groups "g" ≡ none
unfolding new_ctl
fresh = refl

free : start.port_manager.free_ports 6000 ≡ true
unfolding new_ctl new_manager
free = refl

listen-close_example :
    ((listen answers 5 [] opens web start).0 ≡ joined start.next_listener 6000)
    × (Option.map {B = Option ℕ × Reply}
          (λ (d : TcpGroupCtl).
            (d.groups "g", (acquire answers "other" 9 6000 [] d.port_manager).0))
          (close_listener 7 start.next start.next_listener (listen answers 5 [] opens web start).1)
        ≡ some (none, granted 6000))
listen-close_example =
    listen-close answers 5 [] web start fresh (omega arith) free refl opens 7 9 "other" refl

listen-leaks_example :
    ((listen answers 5 [] busy web start).0 ≡ failed cannot_listen)
    × ((listen answers 9 [] opens web (listen answers 5 [] busy web start).1).0
        ≡ failed (no_port already_used))
    × (no_listeners ((listen answers 5 [] busy web start).1.store start.next).lns ≡ true)
listen-leaks_example =
    listen-leaks answers 5 [] web start fresh (omega arith) free refl busy opens answers 9 [] refl

abbrev opened : TcpGroupCtl
opened = (listen answers 5 [] opens web start).1

opened-Single : Single "g" 6000 0 0 opened
unfolding listen find_group join_group new_ctl new_manager new_group acquire acquire_specified
    occupy
opened-Single = record {
  known = refl;
  named = refl;
  on_port = refl;
  open_channel = refl;
  only = refl;
  ctx = 0;
  in_use = refl;
}

abbrev after : TcpGroupCtl
after = removed answers 7 8 0 0 [] opens web opened opened-Single (omega arith) refl refl

find-close-join_example :
    (find_group "g" opened ≡ (0, opened))
    × (close_listener 7 0 0 opened ≡ some after)
    × ((join_group answers 8 [] opens web 0 after).0 ≡ joined opened.next_listener 6000)
    × ((join_group answers 8 [] opens web 0 after).1.groups "g" ≡ none)
    × (reaches_listener ((join_group answers 8 [] opens web 0 after).1.store 0) ≡ false)
    × (close_listener 8 0 opened.next_listener (join_group answers 8 [] opens web 0 after).1 ≡ none)
find-close-join_example =
    find-close-join answers 7 8 0 0 [] opens web opened opened-Single (omega arith) refl refl
