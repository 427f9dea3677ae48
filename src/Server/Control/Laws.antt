-- ===== src/Server/Control/Laws.antt =====
-- What a control does with its connections, and which control a search finds, server/control.go.
use chml_frp_frp.Prelude.{
  ℕ, suc, ◌+◌, ◌-◌, ◌≤◌, ◌≡◌, ◌↔◌, refl, sym, ap, subst, ◌∙◌, Bool, true, false, Option, none, some,
  List, [], ◌∷◌, ◌++◌, append_assoc, append-nil, arith, inl, inr, ltb, length, length-append,
  if◌then◌else◌, Bool-cases, ℤ, pos, negsuc,
}
use chml_frp_frp.Vhost.Router.{Bytes}
use chml_frp_frp.Server.Control.{
  Control, channel_size, made, new_control, register_work_conn, Answer, got, ctl_closed, Wait,
  arrives, closes, elapses, get_work_conn, stoper,
}

-- A number below -10.
abbrev pub IsBelow : ℤ → Type 0
IsBelow (pos n) = ⊥
IsBelow (negsuc n) = 10 ≤ n

abbrev Fits : ℕ → Option Control → Type 0
Fits max none = Unit {0}
Fits max (some ctl) = (ctl.work_conns ≡ []) × (ctl.capacity ≤ max + 10)

new_control-Fits : (run_id : Bytes) (count : ℤ) (max : ℕ) → Fits max (new_control run_id count max)
unfolding new_control
new_control-Fits run_id (pos n) max = (refl, ground arith)
new_control-Fits run_id (negsuc n) max = fits (ltb n 10)
  where
    fits : (b : Bool) → Fits max (made run_id (if b then some (9 - n) else none))
    fits true = (refl, omega arith)
    fits false = tt

new_control-none :
    (run_id : Bytes) (count : ℤ) (max : ℕ) → (new_control run_id count max ≡ none) ↔ IsBelow count
unfolding new_control
new_control-none run_id (pos n) max = (λ e. absurd (ground (arith, e)), λ h. absurd h)
new_control-none run_id (negsuc n) max = ground arith

-- `NewControl` panics exactly if the client asks for a pool of less than -10 connections; otherwise the
-- new control holds no connection, and at most ten more than the largest pool that is configured.
pub new_control_lem :
    (run_id : Bytes) (count : ℤ) (max : ℕ)
    → ((new_control run_id count max ≡ none) ↔ IsBelow count)
      × ((ctl : Control)
          → new_control run_id count max ≡ some ctl
          → (ctl.work_conns ≡ []) × (ctl.capacity ≤ max + 10))
new_control_lem run_id count max = (
  new_control-none run_id count max,
  λ ctl e. subst (Fits max) e (new_control-Fits run_id count max),
)

-- The calls on a control whose pool is open.
pub data PoolCall : Type 0 where
  registers : ℕ → PoolCall
  takes : Wait → PoolCall

-- A control, with the connections that it has accepted and those that it has handed out.
pub record Traced : Type 0 where
  pub control : Control
  pub accepted : List ℕ
  pub handed : List ℕ

abbrev answered : Answer → List ℕ → List ℕ
answered (got conn) conns = conns ++ conn ∷ []
answered _ conns = conns

abbrev accepted_by : ℕ → Bool → List ℕ → List ℕ
accepted_by conn true conns = conns
accepted_by conn false conns = conns ++ conn ∷ []

-- A connection that arrives while a call waits for the empty pool is accepted too.
abbrev accepted_waiting : List ℕ → Answer → List ℕ → List ℕ
accepted_waiting [] answer conns = answered answer conns
accepted_waiting (c ∷ cs) answer conns = conns

abbrev pub pool_call : PoolCall → Traced → Traced
pool_call (registers conn) t = record t {
  control = (register_work_conn conn t.control).1;
  accepted = accepted_by conn (register_work_conn conn t.control).0 t.accepted;
}
pool_call (takes wait) t = record {
  control = (get_work_conn wait t.control).1;
  accepted = accepted_waiting t.control.work_conns (get_work_conn wait t.control).0 t.accepted;
  handed = answered (get_work_conn wait t.control).0 t.handed;
}

abbrev pub pool_calls : List PoolCall → Traced → Traced
pool_calls [] t = t
pool_calls (c ∷ cs) t = pool_calls cs (pool_call c t)

-- The connections are handed out in the order in which they came, none twice and none lost, and the
-- pool holds no more than fit in.
pub record IsQueue (size : ℕ) (t : Traced) : Type 0 where
  pub in_order : t.accepted ≡ t.handed ++ t.control.work_conns
  pub bounded : length t.control.work_conns ≤ size

module _ (run_id : Bytes) (stopped : Bool) (size : ℕ) where
  -- An open control by its connections and requests, with what it has accepted and handed out.
  abbrev traced : List ℕ → ℕ → List ℕ → List ℕ → Traced
  traced conns requests accepted handed = record {
    control = record {
      run_id = run_id;
      stopped = stopped;
      capacity = size;
      work_conns = conns;
      pool_closed = false;
      send_closed = false;
      requests = requests;
    };
    accepted = accepted;
    handed = handed;
  }

  calls-IsQueue :
      (cs : List PoolCall) (conns : List ℕ) (n : ℕ) (accepted handed : List ℕ)
      → accepted ≡ handed ++ conns
      → length conns ≤ size
      → IsQueue size (pool_calls cs (traced conns n accepted handed))
  unfolding register_work_conn get_work_conn
  calls-IsQueue [] conns n accepted handed order fits = record { in_order = order; bounded = fits }
  calls-IsQueue (registers conn ∷ cs) conns n accepted handed order fits =
      elim (Bool-cases (ltb (length conns) size)) [
        | inl room ↦ rw (room) (
            calls-IsQueue cs (conns ++ conn ∷ []) n (accepted ++ conn ∷ []) handed
              (ap (λ (l : List ℕ). l ++ conn ∷ []) order ∙ append_assoc handed conns (conn ∷ []))
              (ground (arith, length-append conns (conn ∷ []))))
        | inr full ↦ rw (full) (calls-IsQueue cs conns n accepted handed order fits)
      ]
  calls-IsQueue (takes wait ∷ cs) (c ∷ conns) n accepted handed order fits =
      calls-IsQueue cs conns (suc n) accepted (handed ++ c ∷ [])
        (order ∙ sym (append_assoc handed (c ∷ []) conns)) (omega arith)
  calls-IsQueue (takes (arrives conn) ∷ cs) [] n accepted handed order fits =
      calls-IsQueue cs [] (suc (suc n)) (accepted ++ conn ∷ []) (handed ++ conn ∷ [])
        (ap (λ (l : List ℕ). l ++ conn ∷ []) (order ∙ append-nil handed)
          ∙ sym (append-nil (handed ++ conn ∷ [])))
        fits
  calls-IsQueue (takes closes ∷ cs) [] n accepted handed order fits =
      calls-IsQueue cs [] (suc n) accepted handed order fits
  calls-IsQueue (takes elapses ∷ cs) [] n accepted handed order fits =
      calls-IsQueue cs [] (suc n) accepted handed order fits

abbrev pub untraced : Control → Traced
untraced ctl = record { control = ctl; accepted = []; handed = [] }

abbrev QueueOf : List PoolCall → Option Control → Type 0
QueueOf cs none = Unit {0}
QueueOf cs (some ctl) = IsQueue ctl.capacity (pool_calls cs (untraced ctl))

made-QueueOf :
    (cs : List PoolCall) (run_id : Bytes) (size : Option ℕ) → QueueOf cs (made run_id size)
made-QueueOf cs run_id none = tt
made-QueueOf cs run_id (some size) =
    calls-IsQueue run_id false size cs [] 0 [] [] refl (omega arith)

-- A new control, after any calls that register a connection or take one: the connections were handed
-- out in the order in which they were accepted, none twice and none lost, and the pool holds no more
-- than fit in. Once the control has stopped, a connection that comes late is registered without an
-- error, but no call hands it out.
pub pool_calls-IsQueue :
    (run_id : Bytes) (count : ℤ) (max : ℕ) (ctl : Control) (cs : List PoolCall) (late : ℕ)
    (wait : Wait)
    → new_control run_id count max ≡ some ctl
    → IsQueue ctl.capacity (pool_calls cs (untraced ctl))
      × ((register_work_conn late (stoper (pool_calls cs (untraced ctl)).control)).0 ≡ false)
      × ((get_work_conn wait
            (register_work_conn late (stoper (pool_calls cs (untraced ctl)).control)).1).0
          ≡ ctl_closed)
unfolding new_control register_work_conn get_work_conn stoper
pool_calls-IsQueue run_id count max ctl cs late wait e =
    (subst (QueueOf cs) e (made-QueueOf cs run_id (channel_size count max)), refl, refl)
