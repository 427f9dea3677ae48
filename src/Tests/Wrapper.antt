-- ===== src/Tests/Wrapper.antt =====
-- The life of a proxy on the client on concrete inputs.
use chml_frp_frp.Prelude.{◌<◌, refl, false, none, List, [], ◌∷◌, arith}
use chml_frp_frp.Client.Wrapper.{
  Wrapper, new_wrapper, check_round, call, run, Call, answered, round, well, ill,
}
use chml_frp_frp.Client.Wrapper.Valid.{IsValid}
use chml_frp_frp.Client.Wrapper.Laws.{count_starts, run-new_wrapper-IsValid}
use chml_frp_frp.Client.Wrapper.Restart.{rounds, run-restarts}

-- Started, accepted, taken down by a failed check, started again, and refused.
abbrev life : List Call
life =
    round 5
    ∷ answered ":80" "" none
    ∷ ill
    ∷ round 6
    ∷ well
    ∷ round 7
    ∷ answered "" "taken" none
    ∷ []

run-new_wrapper-IsValid_example : IsValid (run life (new_wrapper false))
run-new_wrapper-IsValid_example = run-new_wrapper-IsValid life false

-- The server does not answer the first start.
abbrev silent : Wrapper
silent = run (round 5 ∷ []) (new_wrapper false)

run-restarts_example :
    count_starts silent.sent
    < count_starts (run (rounds (9 ∷ 3000000000 ∷ 20000000010 ∷ [])) silent).sent
unfolding run call check_round new_wrapper
run-restarts_example =
    run-restarts silent 9 20000000010 (3000000000 ∷ [])
      (run-new_wrapper-IsValid (round 5 ∷ []) false) (λ e. cc) (λ e. cc) refl (omega arith)
      (omega arith)
