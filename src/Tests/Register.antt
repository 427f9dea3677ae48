-- ===== src/Tests/Register.antt =====
-- Two clients that register proxies, on concrete inputs.
use chml_frp_frp.Prelude.{ℕ, ◌≡◌, refl, true, false, none, some, [], ◌∷◌, pos, ◌+ℤ◌, ◌-ℤ◌}
use chml_frp_frp.Server.Register.{
  Registry, new_registry, begin_register, end_register, close_proxy, stop_client, already_exists,
  too_many_ports,
}
use chml_frp_frp.Server.Register.Quota.{
  begins, ends, closes, stops, Reachable, empty, goes_on, Limited, Reachable-quota, Reachable-names,
}

-- Client 0 has started "ssh", and client 1 starts "web", with at most one port each.
abbrev starting : Registry
starting = (begin_register 1 0 "ssh" 1 new_registry).1

abbrev started : Registry
started = (end_register 1 true 0 starting).1

abbrev both : Registry
both = (begin_register 1 1 "web" 1 started).1

both-Reachable : Reachable 1 false both
unfolding begin_register end_register new_registry ◌+ℤ◌
both-Reachable =
    goes_on (goes_on (goes_on empty (begins 0 "ssh" 1 refl refl)) (ends true 0 refl))
      (begins 1 "web" 1 refl refl)

-- Client 0 stops, and client 1 takes its name; then the dashboard closes "ssh" of client 0.
abbrev stopped : Registry
stopped = stop_client 0 (end_register 2 true 0 (begin_register 2 0 "ssh" 1 new_registry).1).1

abbrev taken_over : Registry
taken_over = (end_register 2 true 1 (begin_register 2 1 "ssh" 1 stopped).1).1

abbrev closed_late : Registry
closed_late = (close_proxy 2 0 "ssh" taken_over).1

closed_late-Reachable : Reachable 2 true closed_late
unfolding begin_register end_register close_proxy stop_client new_registry ◌+ℤ◌ ◌-ℤ◌
closed_late-Reachable =
    goes_on
      (goes_on
        (goes_on
          (goes_on (goes_on (goes_on empty (begins 0 "ssh" 1 refl refl)) (ends true 0 refl))
            (stops 0 refl))
          (begins 1 "ssh" 1 refl refl))
        (ends true 1 refl))
      (closes 0 "ssh")

Reachable-quota_example : Limited 2 true (closed_late.clients 1)
Reachable-quota_example = Reachable-quota 2 true closed_late 1 closed_late-Reachable

same_owner : ◌≡◌ {A = ℕ} 0 0
unfolding begin_register end_register new_registry ◌+ℤ◌
same_owner = Reachable-names 1 both 0 0 "ssh" 1 1 both-Reachable refl refl refl refl

-- The name of client 1 is free, although its proxy runs; when it registers the name again, a port is
-- counted that no proxy uses.
abbrev again : Registry
again = (end_register 2 true 1 (begin_register 2 1 "ssh" 1 closed_late).1).1

lost :
    (closed_late.pxys "ssh" ≡ none)
    × ((closed_late.clients 1).proxies ≡ ("ssh", 1) ∷ [])
    × ((again.clients 1).proxies ≡ ("ssh", 1) ∷ [])
    × ((again.clients 1).ports_used_num ≡ pos 2)
unfolding begin_register end_register close_proxy stop_client new_registry ◌+ℤ◌ ◌-ℤ◌
lost = (refl, refl, refl, refl)

refusals :
    ((begin_register 1 1 "ssh" 1 started).0 ≡ some already_exists)
    × ((begin_register 1 0 "mail" 1 started).0 ≡ some too_many_ports)
unfolding begin_register end_register new_registry ◌+ℤ◌
refusals = (refl, refl)
