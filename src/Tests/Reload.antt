-- ===== src/Tests/Reload.antt =====
-- Reloads of the configuration of a client on concrete inputs.
use chml_frp_frp.Prelude.{
  String, ◌≡◌, refl, some, none, List, [], ◌∷◌, arith, str_eq, eq_refl, eq_iff,
}
use chml_frp_frp.Client.Wrapper.{round, new_wrapper, stop}
use chml_frp_frp.Client.Manager.{
  ProxyConfOps, IsDeepEqual, ProxyManager, new_manager, started, set_name, add_proxies,
  drop_proxies, reload, close,
}
use chml_frp_frp.Client.Manager.Dropped.{AllRun, ListsMap, stopped_proxy}
use chml_frp_frp.Client.Manager.Reload.{Reloaded, reload-Reloaded}
use chml_frp_frp.Client.Manager.Leaves.{Leaves, Ends}
use chml_frp_frp.Client.Manager.Live.{
  IsLive, IsLive-AllRun, Reachable, begins, goes_on, reloads, turns, on_proxy, all_reached,
  Reachable-IsLive,
}
use chml_frp_frp.Client.Manager.Again.{reload-reload}

-- A configuration is a text, and has no health check.
abbrev texts : ProxyConfOps String
texts = record {
  same = str_eq;
  proxy_name = λ c. c;
  proxy_type = λ _. "tcp";
  health_check_type = λ _. "";
  base_config = λ _. record { local_ip = ""; local_port = 0; plugin = "" };
}

texts-IsDeepEqual : IsDeepEqual texts
texts-IsDeepEqual = record { same_self = eq_refl; same_eq = λ c d. (eq_iff c d).0 }

abbrev two : List (String × String)
two = ("ssh", "port 22") ∷ ("web", "port 80") ∷ []

-- One is changed, one is dropped, and one is new.
abbrev next_two : List (String × String)
next_two = ("web", "port 8080") ∷ ("dns", "port 53") ∷ []

abbrev running_two : ProxyManager String
running_two = add_proxies texts two new_manager

running_two-Reachable : Reachable texts running_two
unfolding reload drop_proxies
running_two-Reachable = goes_on begins (reloads [] two running_two refl)

running_two-AllRun : AllRun running_two
running_two-AllRun = IsLive-AllRun running_two (all_reached texts running_two-Reachable)

running_two-ListsMap : ListsMap ("ssh" ∷ "web" ∷ []) running_two
unfolding add_proxies new_manager
running_two-ListsMap name p found = ground arith

reload-Reloaded_example :
    (after : ProxyManager String) × (reload texts ("ssh" ∷ "web" ∷ []) next_two running_two
      ≡ some after)
    × Reloaded texts next_two running_two after
reload-Reloaded_example =
    reload-Reloaded texts texts-IsDeepEqual ("ssh" ∷ "web" ∷ []) next_two running_two
      running_two-AllRun running_two-ListsMap

abbrev after_round : ProxyManager String
after_round = on_proxy "web" (round 9) running_two

after_round-ListsMap : ListsMap ("ssh" ∷ "web" ∷ []) after_round
unfolding add_proxies new_manager on_proxy
after_round-ListsMap name p found = ground arith

Reachable-IsLive_example :
    IsLive after_round
    × Leaves after_round (reload texts ("ssh" ∷ "web" ∷ []) next_two after_round)
    × Ends after_round (close ("ssh" ∷ "web" ∷ []) after_round)
Reachable-IsLive_example =
    Reachable-IsLive texts after_round ("ssh" ∷ "web" ∷ []) next_two
      (goes_on running_two-Reachable (turns "web" (round 9) (λ e. cc))) after_round-ListsMap
      (refl, (refl, tt))

-- The manager after the reload.
abbrev first_reload : ProxyManager String
first_reload = add_proxies texts next_two (record {
  proxies = set_name "web" none (set_name "ssh" none running_two.proxies);
  stopped = stopped_proxy (started texts "port 80") ∷ stopped_proxy (started texts "port 22") ∷ [];
})

first_reload_lem : reload texts ("ssh" ∷ "web" ∷ []) next_two running_two ≡ some first_reload
unfolding reload drop_proxies add_proxies new_manager started new_wrapper stop
first_reload_lem = refl

reload-reload_example : reload texts ("dns" ∷ "web" ∷ []) next_two first_reload ≡ some first_reload
reload-reload_example =
    reload-reload texts texts-IsDeepEqual ("ssh" ∷ "web" ∷ []) ("dns" ∷ "web" ∷ []) next_two
      running_two first_reload running_two-AllRun running_two-ListsMap first_reload_lem
