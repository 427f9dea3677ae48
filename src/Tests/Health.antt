-- ===== src/Tests/Health.antt =====
-- A monitor of the client on concrete inputs.
use chml_frp_frp.Prelude.{◌≡◌, refl, true, false, [], ◌∷◌, arith}
use chml_frp_frp.Client.Health.{
  status_normal, status_failed, new_monitor, check_round, check_worker,
}
use chml_frp_frp.Client.Health.Laws.{check_round-failures}

-- Two failures that do not follow each other, with a limit of two.
worker_runs :
    (check_worker (true ∷ false ∷ true ∷ false ∷ true ∷ []) (new_monitor 2)).1
    ≡ status_normal ∷ status_failed ∷ status_normal ∷ []
unfolding check_worker check_round new_monitor
worker_runs = refl

check_round-failures_example :
    (check_round false
      (check_round true (check_worker (true ∷ false ∷ true ∷ false ∷ []) (new_monitor 3)).0).0).1
    ≡ status_failed ∷ []
check_round-failures_example =
    check_round-failures (true ∷ false ∷ true ∷ false ∷ []) 3 (omega arith) (omega arith)
