-- ===== src/Tests/Control.antt =====
-- Controls of clients on concrete inputs, server/control.go.
use chml_frp_frp.Prelude.{
  ◌≡◌, ◌≤◌, ◌+◌, ◌↔◌, refl, true, false, none, some, List, [], ◌∷◌, ◌++◌, code_points, pos, negsuc,
}
use mathlib.Core.Option
use chml_frp_frp.Vhost.Router.{Bytes}
use chml_frp_frp.Server.Control.{
  Control, ControlManager, new_control, register_work_conn, get_work_conn, ctl_closed, arrives,
  elapses, stoper, close_user, set_id,
}
use chml_frp_frp.Server.Control.Laws.{
  IsBelow, new_control_lem, PoolCall, registers, takes, untraced, pool_calls, IsQueue,
  pool_calls-IsQueue,
}
use chml_frp_frp.Server.Control.Search.{run_id_of, close_user-suffix}

abbrev id : Bytes
id = code_points "bob-1f"

-- A client that asks for a pool of -11 connections.
new_control_lem_example :
    ((new_control id (negsuc 10) 5 ≡ none) ↔ IsBelow (negsuc 10))
    × ((ctl : Control)
        → new_control id (negsuc 10) 5 ≡ some ctl
        → (ctl.work_conns ≡ []) × (ctl.capacity ≤ 5 + 10))
new_control_lem_example = new_control_lem id (negsuc 10) 5

sizes :
    (new_control id (negsuc 10) 5 ≡ none)
    × (Option.map (λ (c : Control). c.capacity) (new_control id (negsuc 9) 5) ≡ some 0)
    × (Option.map (λ (c : Control). c.capacity) (new_control id (pos 9) 5) ≡ some 15)
unfolding new_control
sizes = (refl, refl, refl)

abbrev bob : Control
bob = record {
  run_id = id;
  stopped = false;
  capacity = 11;
  work_conns = [];
  pool_closed = false;
  send_closed = false;
  requests = 0;
}

abbrev calls : List PoolCall
calls =
    registers 1 ∷ registers 2 ∷ takes elapses ∷ takes elapses ∷ takes (arrives 3) ∷ registers 4 ∷ []

calls_run :
    ((pool_calls calls (untraced bob)).handed ≡ 1 ∷ 2 ∷ 3 ∷ [])
    × ((pool_calls calls (untraced bob)).control.work_conns ≡ 4 ∷ [])
unfolding register_work_conn get_work_conn
calls_run = (refl, refl)

pool_calls-IsQueue_example :
    IsQueue bob.capacity (pool_calls calls (untraced bob))
    × ((register_work_conn 9 (stoper (pool_calls calls (untraced bob)).control)).0 ≡ false)
    × ((get_work_conn elapses
          (register_work_conn 9 (stoper (pool_calls calls (untraced bob)).control)).1).0
        ≡ ctl_closed)
unfolding new_control
pool_calls-IsQueue_example = pool_calls-IsQueue id (pos 1) 5 bob calls 9 elapses refl

-- The client of "jacob" is logged in, and that of "ann".
abbrev jacob : Bytes
jacob = run_id_of (code_points "jaco" ++ code_points "b") (code_points "77")

abbrev ann : Bytes
ann = run_id_of (code_points "ann") (code_points "3c")

abbrev manager : ControlManager
manager = record {
  ctls_by_run_id = set_id jacob (some 0) (set_id ann (some 1) (λ _. none));
  store = λ _. bob;
}

close_user-suffix_example :
    Option.map
      (λ (d : ControlManager). (d.store 0).stopped)
      (close_user (code_points "b") ([] ++ jacob ∷ ann ∷ []) manager)
    ≡ some true
close_user-suffix_example =
    close_user-suffix (code_points "jaco") (code_points "b") (code_points "77") [] (ann ∷ [])
      manager 0 refl (refl, tt)
