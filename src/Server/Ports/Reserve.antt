-- ===== src/Server/Ports/Reserve.antt =====
-- The reservation of a port for the last proxy that had it, in server/ports/ports.go.
use chml_frp_frp.Prelude.{
  ℕ, ◌+◌, ◌-◌, ◌≤◌, ◌<◌, String, ◌≡◌, ◌≢◌, refl, ap, ◌∙◌, true, false, Bool, none, some, List,
  arith, ltb, if◌then◌else◌, eq_refl, str_eq,
}
use chml_frp_frp.Server.Ports.{
  Manager, Reply, granted, acquire, acquire_reserved, acquire_specified, occupy, release,
  clean_reserved, max_port_reserved_duration,
}

-- A free port is granted to a proxy that requests it, and a reserved one to its proxy.
pub acquired :
    (available : ℕ → ℕ → Bool) (name : String) (now port : ℕ) (keys : List ℕ) (pm : Manager)
    → port ≢ 0
    → pm.free_ports port ≡ true
    → available 1 port ≡ true
    → acquire available name now port keys pm ≡ (granted port, occupy name now port pm)
unfolding acquire acquire_specified
acquired available name now port keys pm nonzero free probe = ground arith

acquired_reserved :
    (available : ℕ → ℕ → Bool) (name : String) (now port i : ℕ) (keys : List ℕ) (pm : Manager)
    → pm.reserved_ports name ≡ some i
    → (pm.store i).port ≡ port
    → available 0 port ≡ true
    → acquire available name now 0 keys pm ≡ (granted port, occupy name now port pm)
unfolding acquire acquire_reserved
acquired_reserved available name now port i keys pm reserved stored probe =
    rw (acquire, acquire_reserved, reserved, stored, probe)

-- A proxy takes a port, gives it back, and a round of cleaning passes.
abbrev pub left_at :
    (available : ℕ → ℕ → Bool) (name : String) (t0 t1 t2 port : ℕ) (keys : List ℕ)
    → Manager
    → Manager
left_at available name t0 t1 t2 port keys pm =
    clean_reserved t2 (release t1 port (acquire available name t0 port keys pm).1)

module _ (available : ℕ → ℕ → Bool) (name : String) (t0 t1 t2 port : ℕ) (keys : List ℕ)
    (pm : Manager) (nonzero : port ≢ 0) (free : pm.free_ports port ≡ true)
    (probe : available 1 port ≡ true) where
  reserved_after :
      (left_at available name t0 t1 t2 port keys pm).reserved_ports name
      ≡ (if ltb max_port_reserved_duration (t2 - t1) then none else some pm.next)
  unfolding occupy release clean_reserved
  reserved_after =
      rw (acquired available name t0 port keys pm nonzero free probe) (ground (arith, eq_refl name))

  store_after : ((left_at available name t0 t1 t2 port keys pm).store pm.next).port ≡ port
  unfolding occupy release clean_reserved
  store_after = rw (acquired available name t0 port keys pm nonzero free probe) (ground arith)

-- A proxy that had taken a free port, and released it, gets the same port again when it asks for
-- any port, if the port answers the first probe and the cleaning came at most 24 hours after the
-- release; after more than 24 hours the cleaning has dropped the reservation.
pub acquire_again :
    (available again : ℕ → ℕ → Bool) (name : String) (t0 t1 t2 t3 port : ℕ) (keys others : List ℕ)
    (pm : Manager)
    → port ≢ 0
    → pm.free_ports port ≡ true
    → available 1 port ≡ true
    → again 0 port ≡ true
    → (t2 ≤ t1 + max_port_reserved_duration
        → (acquire again name t3 0 others (left_at available name t0 t1 t2 port keys pm)).0
          ≡ granted port)
      × (t1 + max_port_reserved_duration < t2
          → (left_at available name t0 t1 t2 port keys pm).reserved_ports name ≡ none)
acquire_again available again name t0 t1 t2 t3 port keys others pm nonzero free probe probe_again =
    let reserved = reserved_after available name t0 t1 t2 port keys pm nonzero free probe in
    let stored = store_after available name t0 t1 t2 port keys pm nonzero free probe in
    (
      λ h.
          ap (λ (r : Reply × Manager). r.0)
            (acquired_reserved again name t3 port pm.next others
              (left_at available name t0 t1 t2 port keys pm) (reserved ∙ ground arith) stored
              probe_again),
      λ h. reserved ∙ ground arith,
    )

-- Two proxies with open contexts of one port.
pub record SharePort (pm : Manager) (a b : String) (port i j : ℕ) : Type 0 where
  pub name_a : (pm.store i).proxy_name ≡ a
  pub port_a : (pm.store i).port ≡ port
  pub opened_a : (pm.store i).closed ≡ false
  pub name_b : (pm.store j).proxy_name ≡ b
  pub port_b : (pm.store j).port ≡ port
  pub opened_b : (pm.store j).closed ≡ false

module _ (available again : ℕ → ℕ → Bool) (a b : String) (t0 t1 t2 t3 port : ℕ)
    (keys others : List ℕ) (pm : Manager) where
  -- `a` takes a port and gives it back; `b` takes it; `a` asks for any port.
  abbrev pub after_b : Reply × Manager
  after_b =
      acquire available b t2 port keys (release t1 port (acquire available a t0 port keys pm).1)

  abbrev pub after_both : Reply × Manager
  after_both = acquire again a t3 0 others after_b.1

  free_again :
      pm.free_ports port ≡ true → (release t1 port (occupy a t0 port pm)).free_ports port ≡ true
  unfolding occupy release
  free_again free = ground arith

  abbrev both : Manager
  both = occupy b t2 port (release t1 port (occupy a t0 port pm))

  still_reserved : str_eq a b ≡ false → both.reserved_ports a ≡ some pm.next
  unfolding occupy release
  still_reserved other = ground (arith, eq_refl a)

  still_stored : (both.store pm.next).port ≡ port
  unfolding occupy release
  still_stored = ground arith

  shared : SharePort (occupy a t3 port both) a b port (pm.next + 2) (pm.next + 1)
  unfolding occupy release
  shared = record {
    name_a = ground arith;
    port_a = ground arith;
    opened_a = ground arith;
    name_b = ground arith;
    port_b = ground arith;
    opened_b = ground arith;
  }

  -- The check of a reservation looks at the probe alone, and not at the ports in use: if the proxy
  -- `b` has been granted the port that `a` released, and does not listen on it yet, then the probe
  -- succeeds and `a` is granted the port too, so that both have an open context of it.
  pub acquire-SharePort :
      str_eq a b ≡ false
      → port ≢ 0
      → pm.free_ports port ≡ true
      → available 1 port ≡ true
      → again 0 port ≡ true
      → (after_b.0 ≡ granted port)
        × (after_both.0 ≡ granted port)
        × SharePort after_both.1 a b port (pm.next + 2) (pm.next + 1)
  acquire-SharePort other nonzero free probe probe_again =
      rw
        (
          acquired available a t0 port keys pm nonzero free probe,
          acquired available b t2 port keys (release t1 port (occupy a t0 port pm)) nonzero
              (free_again free) probe,
          acquired_reserved again a t3 port pm.next others both (still_reserved other) still_stored
              probe_again,
        )
        (refl, refl, shared)
