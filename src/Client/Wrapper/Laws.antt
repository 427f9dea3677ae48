-- ===== src/Client/Wrapper/Laws.antt =====
-- What holds of the life of a proxy on the client, whatever calls and rounds come in what order.
use chml_frp_frp.Prelude.{ℕ, suc, ◌≡◌, ◌≢◌, Bool, true, List, [], ◌∷◌, arith}
use chml_frp_frp.Client.Wrapper.{
  Phase, wait_start, running, check_failed, closed, Event, start_proxy, close_proxy, Wrapper,
  new_wrapper, set_running_status, stop, check_round, Call, answered, stops, round, well, ill, call,
  run, is_announced,
}
use chml_frp_frp.Client.Wrapper.Valid.{IsValid, new_wrapper-IsValid, call-IsValid}

-- A move of the diagram of phases.
pub data Move : Phase → Phase → Type 0 where
  stays : {p : Phase} → Move p p
  starts : {p : Phase} → p ≢ running → p ≢ closed → Move p wait_start
  accepted : Move wait_start running
  fails : {p : Phase} → is_announced p ≡ true → Move p check_failed
  closes : {p : Phase} → Move p closed

ruleset moves = (stays, starts, accepted, fails, closes)

-- Every call moves along the diagram.
pub call-Move : (c : Call) (w : Wrapper) → Move w.phase (call c w).phase
unfolding call set_running_status stop check_round
call-Move (answered remote resp_err run_err) w = grind (arith, moves)
call-Move stops w = grind (arith, moves)
call-Move (round now) w = grind (arith, moves)
call-Move well w = stays
call-Move ill w = stays

run-IsValid : (cs : List Call) (w : Wrapper) → IsValid w → IsValid (run cs w)
unfolding run
run-IsValid [] w v = v
run-IsValid (c ∷ cs) w v = run-IsValid cs (call c w) (call-IsValid c w v)

-- A new proxy, after any calls and rounds: it is not in the phase of a start error; while it waits
-- for the server or runs, its last message asked the server to start it; after a failed check, its
-- last message asked to close it; before its first start it has sent nothing; and once it was
-- stopped it is closed.
pub run-new_wrapper-IsValid :
    (cs : List Call) (checked : Bool) → IsValid (run cs (new_wrapper checked))
run-new_wrapper-IsValid cs checked =
    run-IsValid cs (new_wrapper checked) (new_wrapper-IsValid checked)

abbrev pub count_starts : List Event → ℕ
count_starts [] = 0
count_starts (start_proxy ∷ es) = suc (count_starts es)
count_starts (close_proxy ∷ es) = count_starts es

-- What a call leaves as it is once the proxy is closed.
record Stays (w v : Wrapper) : Type 0 where
  same_phase : v.phase ≡ closed
  same_starts : count_starts v.sent ≡ count_starts w.sent
