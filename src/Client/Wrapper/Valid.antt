-- ===== src/Client/Wrapper/Valid.antt =====
-- The invariant of a proxy on the client, client/proxy/proxy_wrapper.go.
use chml_frp_frp.Prelude.{
  ℕ, zero, suc, String, ◌≡◌, ◌≢◌, refl, inl, inr, Bool, true, false, Option, List, [], ◌∷◌, arith,
  str_eq, Bool-cases, Option-cases, ltb, ◌+◌,
}
use chml_frp_frp.Client.Wrapper.{
  Phase, new, wait_start, start_err, running, check_failed, closed, Event, start_proxy, close_proxy,
  Wrapper, new_wrapper, set_running_status, stop, check_round, Call, answered, stops, round, well,
  ill, call, wait_response_timeout,
}

-- The phases, with the message that a proxy in the phase has sent last.
abbrev pub LastSent : Phase → List Event → Type 0
LastSent new es = es ≡ []
LastSent wait_start es = (rest : List Event) × (es ≡ start_proxy ∷ rest)
LastSent running es = (rest : List Event) × (es ≡ start_proxy ∷ rest)
LastSent check_failed es = (rest : List Event) × (es ≡ close_proxy ∷ rest)
LastSent start_err es = ⊥
LastSent closed es = Unit

pub record IsValid (w : Wrapper) : Type 0 where
  pub last_sent : LastSent w.phase w.sent
  pub stopped_closed : w.stopped ≡ true → w.phase ≡ closed

pub new_wrapper-IsValid : (checked : Bool) → IsValid (new_wrapper checked)
unfolding new_wrapper
new_wrapper-IsValid checked = record {
  last_sent = refl;
  stopped_closed = λ h. absurd (ground arith);
}

-- A wrapper by its fields.
abbrev wrapper : Phase → String → String → ℕ → ℕ → ℕ → Bool → List Event → Wrapper
wrapper p err remote health sent_at err_at stopped sent = record {
  phase = p;
  err = err;
  remote_addr = remote;
  health = health;
  last_send_start_msg = sent_at;
  last_start_err = err_at;
  stopped = stopped;
  sent = sent;
}

module _ (err remote : String) (health sent_at err_at : ℕ) (stopped : Bool)
    (sent : List Event) where
  answered-IsValid :
      (p : Phase) (addr resp_err : String) (run_err : Option String)
      → IsValid (wrapper p err remote health sent_at err_at stopped sent)
      → IsValid
          (set_running_status addr resp_err run_err
            (wrapper p err remote health sent_at err_at stopped sent)).1
  unfolding set_running_status
  answered-IsValid wait_start addr resp_err run_err v = elim (Bool-cases (str_eq resp_err "")) [
    | inl e ↦ elim (Option-cases run_err) [
      | inl k ↦
          rw (e, k)
            (record {
              last_sent = v.last_sent;
              stopped_closed = λ h. ground (arith, v.stopped_closed h);
            })
      | inr (x, k) ↦ rw (e, k) (record { last_sent = tt; stopped_closed = λ h. refl })
    ]
    | inr e ↦ rw e (record { last_sent = tt; stopped_closed = λ h. refl })
  ]
  answered-IsValid new addr resp_err run_err v = v
  answered-IsValid start_err addr resp_err run_err v = v
  answered-IsValid running addr resp_err run_err v = v
  answered-IsValid check_failed addr resp_err run_err v = v
  answered-IsValid closed addr resp_err run_err v = v

  -- A stopped wrapper is closed.
  not_stopped :
      (p : Phase)
      → p ≢ closed
      → IsValid (wrapper p err remote health sent_at err_at stopped sent)
      → stopped ≢ true
  not_stopped p open_phase v h = open_phase (v.stopped_closed h)

  restarted-IsValid :
      (now : ℕ)
      → stopped ≢ true
      → IsValid (wrapper wait_start err remote health now err_at stopped (start_proxy ∷ sent))
  restarted-IsValid now live = record {
    last_sent = (sent, refl);
    stopped_closed = λ h. absurd (live h);
  }

  failed-IsValid :
      stopped ≢ true
      → IsValid (wrapper check_failed err remote health sent_at err_at stopped (close_proxy ∷ sent))
  failed-IsValid live = record { last_sent = (sent, refl); stopped_closed = λ h. absurd (live h) }

module _ (err remote : String) (sent_at err_at : ℕ) (stopped : Bool) (sent : List Event) where
  round-IsValid :
      (p : Phase) (health now : ℕ)
      → IsValid (wrapper p err remote health sent_at err_at stopped sent)
      → IsValid (check_round now (wrapper p err remote health sent_at err_at stopped sent))
  unfolding check_round
  round-IsValid new zero now v =
      restarted-IsValid err remote 0 sent_at err_at stopped sent now
        (not_stopped err remote 0 sent_at err_at stopped sent new (λ e. cc) v)
  round-IsValid check_failed zero now v =
      restarted-IsValid err remote 0 sent_at err_at stopped sent now
        (not_stopped err remote 0 sent_at err_at stopped sent check_failed (λ e. cc) v)
  round-IsValid wait_start zero now v =
      elim (Bool-cases (ltb (sent_at + wait_response_timeout) now)) [
        | inl e ↦ rw e (
            restarted-IsValid err remote 0 sent_at err_at stopped sent now
              (not_stopped err remote 0 sent_at err_at stopped sent wait_start (λ e. cc) v))
        | inr e ↦ rw e v
      ]
  round-IsValid start_err zero now v = absurd v.last_sent
  round-IsValid running zero now v = v
  round-IsValid closed zero now v = v
  round-IsValid running (suc h) now v =
      failed-IsValid err remote (suc h) sent_at err_at stopped sent
        (not_stopped err remote (suc h) sent_at err_at stopped sent running (λ e. cc) v)
  round-IsValid wait_start (suc h) now v =
      failed-IsValid err remote (suc h) sent_at err_at stopped sent
        (not_stopped err remote (suc h) sent_at err_at stopped sent wait_start (λ e. cc) v)
  round-IsValid new (suc h) now v = v
  round-IsValid check_failed (suc h) now v = v
  round-IsValid start_err (suc h) now v = v
  round-IsValid closed (suc h) now v = v

stops-IsValid :
    (p : Phase) (err remote : String) (health sent_at err_at : ℕ) (stopped : Bool)
    (sent : List Event)
    → IsValid (wrapper p err remote health sent_at err_at stopped sent)
    → IsValid (call stops (wrapper p err remote health sent_at err_at stopped sent))
unfolding call stop
stops-IsValid p err remote health sent_at err_at true sent v = v
stops-IsValid p err remote health sent_at err_at false sent v = record {
  last_sent = tt;
  stopped_closed = λ h. refl;
}

pub call-IsValid : (c : Call) (w : Wrapper) → IsValid w → IsValid (call c w)
unfolding call stop
call-IsValid (answered remote resp_err run_err) w v =
    answered-IsValid w.err w.remote_addr w.health w.last_send_start_msg w.last_start_err w.stopped
      w.sent w.phase remote resp_err run_err v
call-IsValid stops w v =
    stops-IsValid w.phase w.err w.remote_addr w.health w.last_send_start_msg w.last_start_err
      w.stopped w.sent v
call-IsValid (round now) w v =
    round-IsValid w.err w.remote_addr w.last_send_start_msg w.last_start_err w.stopped w.sent
      w.phase w.health now v
call-IsValid well w v = record { last_sent = v.last_sent; stopped_closed = v.stopped_closed }
call-IsValid ill w v = record { last_sent = v.last_sent; stopped_closed = v.stopped_closed }
