-- ===== src/Client/Health/Laws.antt =====
-- What a monitor of client/health/health.go reports over its rounds.
use chml_frp_frp.Prelude.{
  ℕ, suc, ◌+◌, ◌%◌, ◌<◌, ◌≤◌, ◌≡◌, refl, subst, ◌∙◌, Bool, true, false, List, [], ◌∷◌, ◌++◌, arith,
  if◌then◌else◌,
}
use chml_frp_frp.Client.Health.{
  Monitor, Event, status_normal, status_failed, int64_bound, new_monitor, check_round, check_worker,
  reaches_limit, uint64_mod,
}

-- The two reports take turns; the argument says whether the last one was that all is well.
pub data Alternates : Bool → List Event → Type 0 where
  no_more : {b : Bool} → Alternates b []
  turns_normal : {es : List Event} → Alternates true es → Alternates false (status_normal ∷ es)
  turns_failed : {es : List Event} → Alternates false es → Alternates true (status_failed ∷ es)

abbrev pub failures : List Bool → ℕ
failures [] = 0
failures (true ∷ rest) = failures rest
failures (false ∷ rest) = suc (failures rest)

-- The fields of a monitor after a round, and the report.
failed_turn :
    (limit : Bool) (a b : Monitor) (es : List Event)
    → a.status_ok ≡ false
    → b.status_ok ≡ true
    → Alternates
        (if◌then◌else◌ {A = Monitor × List Event} limit (a, status_failed ∷ []) (b, [])).0.status_ok
        es
    → Alternates true
        ((if◌then◌else◌ {A = Monitor × List Event} limit (a, status_failed ∷ []) (b, [])).1 ++ es)
failed_turn true a b es ill well h = turns_failed (subst (λ o. Alternates o es) ill h)
failed_turn false a b es ill well h = subst (λ o. Alternates o es) well h

check_round-Alternates :
    (passed ok : Bool) (max failed : ℕ) (es : List Event)
    → Alternates
        (check_round passed
          (record { max_failed_times = max; failed_times = failed; status_ok = ok })).0.status_ok
        es
    → Alternates ok (
        (check_round passed
          (record { max_failed_times = max; failed_times = failed; status_ok = ok })).1
        ++ es)
unfolding check_round
check_round-Alternates true true max failed es h = h
check_round-Alternates true false max failed es h = turns_normal h
check_round-Alternates false false max failed es h = h
check_round-Alternates false true max failed es h =
    failed_turn (reaches_limit ((failed + 1) % uint64_mod) max)
      (record {
        max_failed_times = max;
        failed_times = (failed + 1) % uint64_mod;
        status_ok = false;
      })
      (record {
        max_failed_times = max;
        failed_times = (failed + 1) % uint64_mod;
        status_ok = true;
      })
      es refl refl h

-- A monitor reports in turns, beginning with the report that the service is well.
pub check_worker-Alternates :
    (results : List Bool) (m : Monitor) → Alternates m.status_ok (check_worker results m).1
unfolding check_worker
check_worker-Alternates [] m = no_more
check_worker-Alternates (passed ∷ rest) m =
    check_round-Alternates passed m.status_ok m.max_failed_times m.failed_times
      (check_worker rest (check_round passed m).0).1
      (check_worker-Alternates rest (check_round passed m).0)

check_round-failed_times :
    (passed : Bool) (m : Monitor)
    → m.failed_times + 1 < int64_bound
    → ((check_round passed m).0.failed_times ≡ m.failed_times + failures (passed ∷ []))
      × ((check_round passed m).0.max_failed_times ≡ m.max_failed_times)
unfolding check_round
check_round-failed_times true m h = (ground arith, ground arith)
check_round-failed_times false m h = (ground arith, ground arith)

failures-cons :
    (passed : Bool) (rest : List Bool)
    → failures (passed ∷ rest) ≡ failures (passed ∷ []) + failures rest
failures-cons true rest = omega arith
failures-cons false rest = omega arith

check_worker-failed_times :
    (results : List Bool) (m : Monitor)
    → m.failed_times + failures results + 1 < int64_bound
    → ((check_worker results m).0.failed_times ≡ m.failed_times + failures results)
      × ((check_worker results m).0.max_failed_times ≡ m.max_failed_times)
unfolding check_worker
check_worker-failed_times [] m h = (omega arith, refl)
check_worker-failed_times (passed ∷ rest) m h =
    let (times, limit) = check_round-failed_times passed m (omega arith) in
    let (more, same) =
      check_worker-failed_times rest (check_round passed m).0
        (omega (arith, failures-cons passed rest)) in
    (more ∙ omega (arith, failures-cons passed rest), same ∙ limit)

fail_after_success :
    (m : Monitor)
    → m.max_failed_times ≤ m.failed_times + 1
    → m.failed_times + 1 < int64_bound
    → (check_round false (check_round true m).0).1 ≡ status_failed ∷ []
unfolding check_round
fail_after_success m enough small = ground arith

-- The counter is of all failures, and not of successive ones: however many rounds passed in between,
-- once a monitor has seen one failure less than its limit, a single failure right after a round that
-- passed makes it report the service as failed.
pub check_round-failures :
    (results : List Bool) (max : ℕ)
    → max ≤ failures results + 1
    → failures results + 1 < int64_bound
    → (check_round false (check_round true (check_worker results (new_monitor max)).0).0).1
      ≡ status_failed ∷ []
unfolding new_monitor
check_round-failures results max enough small =
    let (times, limit) = check_worker-failed_times results (new_monitor max) (omega arith) in
    fail_after_success (check_worker results (new_monitor max)).0 (ground arith) (ground arith)
