-- ===== src/Server/Ports/Outcome.antt =====
-- The outcomes of `Acquire` in server/ports/ports.go, and the states that they leave.
use chml_frp_frp.Prelude.{
  ℕ, zero, suc, ◌+◌, ◌<◌, String, ◌≡◌, ◌≢◌, refl, ap, ◌∙◌, Bool, true, false, none, some, List, [],
  ◌∷◌, inl, inr, arith, ◌==◌, All, Bool-cases, Option-cases, get_elem?,
}
use chml_frp_frp.Server.Ports.{
  Manager, PortError, already_used, not_allowed, unavailable, no_available, Reply, granted, refused,
  occupy, first_available, acquire, acquire_random, acquire_specified, acquire_reserved,
}
use chml_frp_frp.Server.Ports.Valid.{IsValid}
use chml_frp_frp.Server.Ports.Laws.{first_available-free}

module _ (allowed : ℕ → Bool) (available : ℕ → ℕ → Bool) (name : String) (now port : ℕ)
    (keys : List ℕ) (pm : Manager) where
  -- Why a request is refused.
  abbrev pub Reason : PortError → Type 0
  Reason already_used = (i : ℕ) × (pm.used_ports port ≡ some i)
  Reason not_allowed = allowed port ≡ false
  Reason unavailable = (pm.free_ports port ≡ true) × (available 1 port ≡ false)
  Reason no_available =
      (port ≡ 0) × ((n k : ℕ) → n < 5 → get_elem? keys n ≡ some k → available (1 + n) k ≡ false)

  -- A granted port is an allowed one that answered a probe, and the one that was asked for, if one
  -- was; it is now in use by the proxy. A refusal has its reason, and changes nothing.
  pub data Outcome : Reply × Manager → Type 0 where
    grants :
        (p n : ℕ)
        → p ≢ 0
        → allowed p ≡ true
        → available n p ≡ true
        → (port ≢ 0 → (p ≡ port) × (pm.free_ports p ≡ true))
        → Outcome (granted p, occupy name now p pm)
    refuses : (e : PortError) → Reason e → Outcome (refused e, pm)

first_available-probe :
    (available : ℕ → ℕ → Bool) (i tries k : ℕ) (keys : List ℕ)
    → first_available available i tries keys ≡ some k
    → (n : ℕ) × (available n k ≡ true)
unfolding first_available
first_available-probe available i zero k keys h = cc
first_available-probe available i (suc tries) k [] h = cc
first_available-probe available i (suc tries) k (x ∷ keys) h = elim (Bool-cases (available i x)) [
  | inl e ↦ (i, ground arith)
  | inr e ↦ first_available-probe available (suc i) tries k keys (ground arith)
]

first_available-none :
    (available : ℕ → ℕ → Bool) (i tries : ℕ) (keys : List ℕ)
    → first_available available i tries keys ≡ none
    → (n k : ℕ) → n < tries
    → get_elem? keys n ≡ some k
    → available (i + n) k ≡ false
unfolding first_available
first_available-none available i zero keys h n k fits at = absurd (omega arith)
first_available-none available i (suc tries) [] h n k fits at = cc
first_available-none available i (suc tries) (x ∷ keys) h zero k fits at = ground arith
first_available-none available i (suc tries) (x ∷ keys) h (suc n) k fits at =
    elim (Bool-cases (available i x)) [
      | inl e ↦ absurd (ground arith)
      | inr e ↦
          ap (λ m. available m k) (omega arith)
          ∙ first_available-none available (suc i) tries keys (ground arith) n k (omega arith) at
    ]

==_false : (k : ℕ) → k ≢ 0 → (k == 0) ≡ false
==_false k h = ground arith

module _ (allowed : ℕ → Bool) (available : ℕ → ℕ → Bool) (name : String) (now : ℕ) (keys : List ℕ)
    (pm : Manager) (valid : IsValid allowed pm) (nonzero : allowed 0 ≡ false)
    (free : All (λ (k : ℕ). pm.free_ports k ≡ true) keys) where
  permitted-nonzero : (p : ℕ) → allowed p ≡ true → p ≢ 0
  permitted-nonzero p h e = let same = ap allowed e in cc

  unused_permitted : (p : ℕ) → pm.free_ports p ≡ false → pm.used_ports p ≡ none → allowed p ≡ false
  unused_permitted p e u = elim (Bool-cases (allowed p)) [
    | inl h ↦ let frees = valid.unused_free p h u in absurd cc
    | inr h ↦ h
  ]

  random-Outcome :
      Outcome allowed available name now 0 keys pm (acquire_random available name now keys pm)
  unfolding acquire_random
  random-Outcome = elim (Option-cases (first_available available 1 5 keys)) [
    | inl e ↦
        rw (acquire_random, e)
          (refuses no_available (refl, first_available-none available 1 5 keys e))
    | inr (k, e) ↦
        let allows = valid.free_allowed k (first_available-free pm available 1 5 k keys free e) in
        let (n, probe) = first_available-probe available 1 5 k keys e in
        rw (acquire_random, e, ==_false k (permitted-nonzero k allows))
          (grants k n (permitted-nonzero k allows) allows probe (λ h. absurd (h refl)))
  ]

  specified-Outcome :
      (port : ℕ)
      → port ≢ 0
      → Outcome allowed available name now port keys pm
          (acquire_specified available name now port pm)
  unfolding acquire_specified
  specified-Outcome port h = elim (Bool-cases (pm.free_ports port)) [
    | inl e ↦ elim (Bool-cases (available 1 port)) [
      | inl a ↦
          rw (acquire_specified, e, a)
            (grants port 1 h (valid.free_allowed port e) a (λ _. (refl, e)))
      | inr a ↦ rw (acquire_specified, e, a) (refuses unavailable (e, a))
    ]
    | inr e ↦ elim (Option-cases (pm.used_ports port)) [
      | inl u ↦ rw (acquire_specified, e, u) (refuses not_allowed (unused_permitted port e u))
      | inr (i, u) ↦ rw (acquire_specified, e, u) (refuses already_used (i, u))
    ]
  ]

  reserved-Outcome :
      Outcome allowed available name now 0 keys pm (acquire_reserved available name now keys pm)
  unfolding acquire_reserved
  reserved-Outcome = elim (Option-cases (pm.reserved_ports name)) [
    | inl e ↦ rw (acquire_reserved, e) random-Outcome
    | inr (i, e) ↦ elim (Bool-cases (available 0 (pm.store i).port)) [
      | inl a ↦
          let allows = (valid.kept name i e).permitted in
          rw (acquire_reserved, e, a)
            (grants (pm.store i).port 0 (permitted-nonzero (pm.store i).port allows) allows a
              (λ h. absurd (h refl)))
      | inr a ↦ rw (acquire_reserved, e, a) random-Outcome
    ]
  ]

-- `Acquire` on a manager that satisfies the invariant and that was not configured with port 0: it
-- grants an allowed port that answered a probe, which is the requested port if one was requested,
-- and only records the new context; or it refuses and changes nothing, because the requested port
-- is in use, not allowed or taken outside, or none of the first five free ports that it met answered.
pub acquire-Outcome :
    (allowed : ℕ → Bool) (available : ℕ → ℕ → Bool) (name : String) (now port : ℕ) (keys : List ℕ)
    (pm : Manager)
    → IsValid allowed pm
    → allowed 0 ≡ false
    → All (λ (k : ℕ). pm.free_ports k ≡ true) keys
    → Outcome allowed available name now port keys pm (acquire available name now port keys pm)
unfolding acquire
acquire-Outcome allowed available name now zero keys pm valid nonzero free =
    (reserved-Outcome allowed available name now keys pm valid nonzero free)
acquire-Outcome allowed available name now (suc port) keys pm valid nonzero free =
    rw (==_false (suc port) (λ e. absurd (omega arith))) (
      specified-Outcome allowed available name now keys pm valid nonzero free (suc port)
        (λ e. absurd (omega arith)))
