-- ===== src/Tests/Ports.antt =====
-- The manager of ports on concrete inputs.
use chml_frp_frp.Prelude.{ℕ, ◌+◌, ◌≤◌, ◌<◌, ◌≡◌, refl, Bool, none, List, [], ◌∷◌, arith, ◌==◌}
use chml_frp_frp.Server.Ports.{
  Manager, Reply, granted, refused, already_used, not_allowed, no_available, new_manager, acquire,
  occupy, release, allowed_by, started, stepped, acquires, releases, max_port_reserved_duration,
}
use chml_frp_frp.Server.Ports.Valid.{IsValid, new_manager-IsValid}
use chml_frp_frp.Server.Ports.Laws.{Reachable-IsValid}
use chml_frp_frp.Server.Ports.Outcome.{Outcome, acquire-Outcome}
use chml_frp_frp.Server.Ports.Reserve.{
  left_at, acquire_again, SharePort, after_b, after_both, acquire-SharePort,
}

abbrev allow_ports : List ℕ
allow_ports = 7001 ∷ 7002 ∷ []

-- Port 7001 is taken by a program outside.
abbrev answers : ℕ → ℕ → Bool
answers n p = p == 7002

abbrev ssh_on_7002 : Reply × Manager
ssh_on_7002 = acquire answers "ssh" 5 0 allow_ports (new_manager allow_ports)

ssh_runs :
    (ssh_on_7002.0 ≡ granted 7002)
    × ((acquire answers "web" 6 7002 [] ssh_on_7002.1).0 ≡ refused already_used)
    × ((acquire answers "web" 6 7003 [] ssh_on_7002.1).0 ≡ refused not_allowed)
    × ((acquire answers "web" 6 0 (7001 ∷ []) ssh_on_7002.1).0 ≡ refused no_available)
unfolding acquire new_manager occupy
ssh_runs = (refl, refl, refl, refl)

Reachable-IsValid_example : IsValid (allowed_by (7001 ∷ 7002 ∷ [])) (release 9 7002 ssh_on_7002.1)
unfolding new_manager
Reachable-IsValid_example = Reachable-IsValid (7001 ∷ 7002 ∷ []) (release 9 7002 ssh_on_7002.1) (
    stepped (stepped started (acquires answers "ssh" 5 0 allow_ports (refl, (refl, tt))))
      (releases 9 7002))

acquire-Outcome_example :
    Outcome
      (allowed_by allow_ports)
      answers
      "ssh"
      5
      0
      allow_ports
      (new_manager allow_ports)
      (acquire answers "ssh" 5 0 allow_ports (new_manager allow_ports))
unfolding new_manager
acquire-Outcome_example =
    acquire-Outcome (allowed_by allow_ports) answers "ssh" 5 0 allow_ports (new_manager allow_ports)
      (new_manager-IsValid allow_ports) refl (refl, (refl, tt))

acquire_again_example :
    (20 ≤ 9 + max_port_reserved_duration
      → (acquire answers "ssh" 30 0 []
          (left_at answers "ssh" 5 9 20 7002 [] (new_manager allow_ports))).0
        ≡ granted 7002)
    × (9 + max_port_reserved_duration < 20
        → (left_at answers "ssh" 5 9 20 7002 [] (new_manager allow_ports)).reserved_ports "ssh"
          ≡ none)
unfolding new_manager
acquire_again_example =
    acquire_again answers answers "ssh" 5 9 20 30 7002 [] [] (new_manager allow_ports)
      (λ e. absurd (omega arith)) refl refl refl

acquire-SharePort_example :
    ((after_b answers answers "ssh" "web" 5 9 10 11 7002 [] [] (new_manager allow_ports)).0
      ≡ granted 7002)
    × ((after_both answers answers "ssh" "web" 5 9 10 11 7002 [] [] (new_manager allow_ports)).0
        ≡ granted 7002)
    × SharePort
        (after_both answers answers "ssh" "web" 5 9 10 11 7002 [] [] (new_manager allow_ports)).1
        "ssh"
        "web"
        7002
        2
        1
unfolding new_manager
acquire-SharePort_example =
    acquire-SharePort answers answers "ssh" "web" 5 9 10 11 7002 [] [] (new_manager allow_ports)
      refl (λ e. absurd (omega arith)) refl refl refl
