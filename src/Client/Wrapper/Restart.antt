-- ===== src/Client/Wrapper/Restart.antt =====
-- That a proxy on the client which does not run yet keeps asking the server to start it.
use chml_frp_frp.Prelude.{
  ℕ, suc, ◌+◌, ◌≤◌, ◌<◌, ◌≡◌, ◌≢◌, refl, sym, subst, inl, inr, true, false, List, [], ◌∷◌, ◌++◌,
  arith, Bool-cases,
}
use chml_frp_frp.Client.Wrapper.{
  Phase, new, wait_start, start_err, running, check_failed, closed, Wrapper, check_round, round,
  run, call, Call, wait_response_timeout, is_due,
}
use chml_frp_frp.Client.Wrapper.Valid.{IsValid, LastSent}
use chml_frp_frp.Client.Wrapper.Laws.{count_starts}

-- Rounds of the worker at some times.
abbrev pub rounds : List ℕ → List Call
rounds [] = []
rounds (t ∷ ts) = round t ∷ rounds ts

check_round-count_starts :
    (t : ℕ) (w : Wrapper) → count_starts w.sent ≤ count_starts (check_round t w).sent
unfolding check_round
check_round-count_starts t w = ground arith

run-count_starts :
    (ts : List ℕ) (w : Wrapper) → count_starts w.sent ≤ count_starts (run (rounds ts) w).sent
unfolding run call
run-count_starts [] w = omega arith
run-count_starts (t ∷ ts) w =
    omega (arith, run-count_starts ts (check_round t w), check_round-count_starts t w)

-- A round in which the proxy is due, and one in which it still waits.
check_round_due :
    (t : ℕ) (w : Wrapper)
    → w.health ≡ 0
    → is_due t w w.phase ≡ true
    → count_starts (check_round t w).sent ≡ suc (count_starts w.sent)
unfolding check_round
check_round_due t w healthy due = ground arith

check_round_waits :
    (t : ℕ) (w : Wrapper) → w.health ≡ 0 → is_due t w w.phase ≡ false → check_round t w ≡ w
unfolding check_round
check_round_waits t w healthy due = ground arith

waiting_restarts :
    (ts : List ℕ) (t2 : ℕ) (w : Wrapper)
    → w.phase ≡ wait_start
    → w.health ≡ 0
    → w.last_send_start_msg + wait_response_timeout < t2
    → suc (count_starts w.sent) ≤ count_starts (run (rounds (ts ++ t2 ∷ [])) w).sent
unfolding run call
waiting_restarts [] t2 w waits healthy late =
    omega (arith, check_round_due t2 w healthy (ground arith))
waiting_restarts (t ∷ ts) t2 w waits healthy late = elim (Bool-cases (is_due t w w.phase)) [
  | inl e ↦
      omega
        (arith, check_round_due t w healthy e, run-count_starts (ts ++ t2 ∷ []) (check_round t w))
  | inr e ↦
      subst (λ v. suc (count_starts w.sent) ≤ count_starts (run (rounds (ts ++ t2 ∷ [])) v).sent)
        (sym (check_round_waits t w healthy e)) (waiting_restarts ts t2 w waits healthy late)
]

-- A proxy that is not due at a time only waits for the server, if it neither runs nor is closed.
not_due_waits :
    (p : Phase) (t : ℕ) (w : Wrapper)
    → IsValid w
    → w.phase ≡ p
    → p ≢ running
    → p ≢ closed
    → is_due t w p ≡ false
    → p ≡ wait_start
not_due_waits wait_start t w v h r c e = refl
not_due_waits new t w v h r c e = cc
not_due_waits check_failed t w v h r c e = cc
not_due_waits running t w v h r c e = absurd (r refl)
not_due_waits closed t w v h r c e = absurd (c refl)
not_due_waits start_err t w v h r c e = absurd (subst (λ q. LastSent q w.sent) h v.last_sent)

-- A proxy that satisfies the invariant, whose service is well, and that neither runs nor is closed:
-- if the server stays silent, then from any round on the worker asks the server to start the proxy
-- again before or in the first round that comes more than 20 seconds later, whatever rounds lie
-- between the two.
pub run-restarts :
    (w : Wrapper) (t1 t2 : ℕ) (ts : List ℕ)
    → IsValid w
    → w.phase ≢ running
    → w.phase ≢ closed
    → w.health ≡ 0
    → w.last_send_start_msg ≤ t1
    → t1 + wait_response_timeout < t2
    → count_starts w.sent < count_starts (run (rounds (t1 ∷ ts ++ t2 ∷ [])) w).sent
unfolding run call
run-restarts w t1 t2 ts v idle live healthy before late = elim (Bool-cases (is_due t1 w w.phase)) [
  | inl e ↦
      omega
        (arith, check_round_due t1 w healthy e, run-count_starts (ts ++ t2 ∷ []) (check_round t1 w))
  | inr e ↦ omega (
    arith,
    waiting_restarts (t1 ∷ ts) t2 w (not_due_waits w.phase t1 w v refl idle live e) healthy
        (omega arith),
  )
]
