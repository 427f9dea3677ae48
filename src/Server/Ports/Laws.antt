-- ===== src/Server/Ports/Laws.antt =====
-- What holds of every manager of ports that the code of server/ports/ports.go can reach.
use chml_frp_frp.Prelude.{
  ℕ, zero, suc, String, ◌≡◌, Bool, true, some, List, [], ◌∷◌, inl, inr, arith, ◌==◌, All,
  Bool-cases, Option-cases,
}
use chml_frp_frp.Server.Ports.{
  Manager, allowed_by, new_manager, first_available, acquire, acquire_random, acquire_specified,
  acquire_reserved, Step, acquires, releases, cleans, Reachable, started, stepped,
}
use chml_frp_frp.Server.Ports.Valid.{
  IsValid, new_manager-IsValid, occupy-IsValid, release-IsValid, clean_reserved-IsValid,
}

-- What the first probes of a list find.
pub first_available-free :
    (pm : Manager) (available : ℕ → ℕ → Bool) (i tries k : ℕ) (keys : List ℕ)
    → All (λ (k : ℕ). pm.free_ports k ≡ true) keys
    → first_available available i tries keys ≡ some k
    → pm.free_ports k ≡ true
unfolding first_available
first_available-free pm available i zero k keys free h = cc
first_available-free pm available i (suc tries) k [] free h = cc
first_available-free pm available i (suc tries) k (x ∷ keys) (f, free) h =
    elim (Bool-cases (available i x)) [
      | inl e ↦ ground arith
      | inr e ↦ first_available-free pm available (suc i) tries k keys free (ground arith)
    ]

module _ (allowed : ℕ → Bool) (available : ℕ → ℕ → Bool) (name : String) (now : ℕ) (pm : Manager)
    (valid : IsValid allowed pm) where
  acquire_random-IsValid :
      (keys : List ℕ)
      → All (λ (k : ℕ). pm.free_ports k ≡ true) keys
      → IsValid allowed (acquire_random available name now keys pm).1
  unfolding acquire_random
  acquire_random-IsValid keys free = elim (Option-cases (first_available available 1 5 keys)) [
    | inl e ↦ rw (acquire_random, e) valid
    | inr (k, e) ↦
        rw (acquire_random, e)
          (occupy-IsValid allowed pm valid name now k
            (valid.free_allowed k (first_available-free pm available 1 5 k keys free e)))
  ]

  acquire_specified-IsValid :
      (port : ℕ) → IsValid allowed (acquire_specified available name now port pm).1
  unfolding acquire_specified
  acquire_specified-IsValid port = elim (Bool-cases (pm.free_ports port)) [
    | inl e ↦ elim (Bool-cases (available 1 port)) [
      | inl a ↦
          rw (e, a) (occupy-IsValid allowed pm valid name now port (valid.free_allowed port e))
      | inr a ↦ rw (e, a) valid
    ]
    | inr e ↦ elim (Option-cases (pm.used_ports port)) [
      | inl u ↦ rw (e, u) valid
      | inr (i, u) ↦ rw (e, u) valid
    ]
  ]

  acquire_reserved-IsValid :
      (keys : List ℕ)
      → All (λ (k : ℕ). pm.free_ports k ≡ true) keys
      → IsValid allowed (acquire_reserved available name now keys pm).1
  unfolding acquire_reserved
  acquire_reserved-IsValid keys free = elim (Option-cases (pm.reserved_ports name)) [
    | inl e ↦ rw (acquire_reserved, e) (acquire_random-IsValid keys free)
    | inr (i, e) ↦ elim (Bool-cases (available 0 (pm.store i).port)) [
      | inl a ↦
          rw (acquire_reserved, e, a)
            (occupy-IsValid allowed pm valid name now (pm.store i).port
              (valid.kept name i e).permitted)
      | inr a ↦ rw (acquire_reserved, e, a) (acquire_random-IsValid keys free)
    ]
  ]

  acquire-IsValid :
      (port : ℕ) (keys : List ℕ)
      → All (λ (k : ℕ). pm.free_ports k ≡ true) keys
      → IsValid allowed (acquire available name now port keys pm).1
  unfolding acquire
  acquire-IsValid port keys free = elim (Bool-cases (port == 0)) [
    | inl e ↦ rw e (acquire_reserved-IsValid keys free)
    | inr e ↦ rw e (acquire_specified-IsValid port)
  ]

Step-IsValid :
    (allowed : ℕ → Bool) (pm qm : Manager) → IsValid allowed pm → Step pm qm → IsValid allowed qm
Step-IsValid allowed pm _ valid (acquires available name now port keys free) =
    acquire-IsValid allowed available name now pm valid port keys free
Step-IsValid allowed pm _ valid (releases now port) = release-IsValid allowed pm valid now port
Step-IsValid allowed pm _ valid (cleans now) = clean_reserved-IsValid allowed pm valid now

-- After any sequence of acquisitions, releases and rounds of cleaning: every allowed port is either
-- free or in use and no other port is; a port in use belongs to an open context that names this
-- port; a reservation belongs to a context of its proxy, with an allowed port.
pub Reachable-IsValid :
    (ports : List ℕ) (pm : Manager)
    → Reachable (new_manager ports) pm
    → IsValid (allowed_by ports) pm
Reachable-IsValid ports _ started = new_manager-IsValid ports
Reachable-IsValid ports _ (stepped {pm} {qm} before step) =
    Step-IsValid (allowed_by ports) pm qm (Reachable-IsValid ports pm before) step
