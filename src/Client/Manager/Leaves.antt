-- ===== src/Client/Manager/Leaves.antt =====
-- Which proxies leave the map of a client, client/proxy/proxy_manager.go: those that were stopped.
use mathlib.Core.List.{Mem}
use chml_frp_frp.Prelude.{
  String, ◌≡◌, refl, ◌∙◌, Option, none, some, List, ◌⊎◌, inl, inr, Bool-cases,
}
use chml_frp_frp.Client.Manager.{
  ProxyConfOps, Proxy, ProxyManager, lookup, is_kept, add_proxies, reload, close,
}
use chml_frp_frp.Client.Manager.Dropped.{
  names_key, stopped_proxy, AllRun, ListsMap, Dropped, drop_proxies-Dropped,
}
use chml_frp_frp.Client.Manager.Reload.{add_proxies_lem, stopped-add_proxies}
use chml_frp_frp.Client.Manager.Closed.{Distinct, stop_proxies-Halted}

module _ {C : Type 0} where
  -- There is a manager afterwards, in which each proxy from before is as it was, or has been stopped.
  abbrev pub Leaves : ProxyManager C → Option (ProxyManager C) → Type 0
  Leaves pm none = ⊥
  Leaves pm (some after) =
      (name : String) (p : Proxy C)
      → pm.proxies name ≡ some p
      → (after.proxies name ≡ some p) ⊎ Mem (stopped_proxy p) after.stopped

  -- There is a manager afterwards, whose map is empty, and each proxy from before has been stopped.
  abbrev pub Ends : ProxyManager C → Option (ProxyManager C) → Type 0
  Ends pm none = ⊥
  Ends pm (some after) =
      ((name : String) → after.proxies name ≡ none)
      × ((name : String) (p : Proxy C)
          → pm.proxies name ≡ some p
          → Mem (stopped_proxy p) after.stopped)

  pub close-Ends :
      (names : List String) (pm : ProxyManager C)
      → AllRun pm
      → ListsMap names pm
      → Distinct names
      → Ends pm (close names pm)
  unfolding close
  close-Ends names pm runs lists d =
      let (left, h, halted) =
        stop_proxies-Halted names pm d (λ name p _ found. runs name p found) in
      rw (close, h) (λ name. refl, λ name p found. halted.told name p (lists name p found) found)

module _ {C : Type 0} (ops : ProxyConfOps C) where
  added-Leaves :
      (names : List String) (cfgs : List (String × C)) (pm left : ProxyManager C)
      → ListsMap names pm
      → Dropped ops cfgs (names_key names) pm left
      → Leaves pm (some (add_proxies ops cfgs left))
  added-Leaves names cfgs pm left lists d name p found =
      let met = lists name p found in
      elim (Bool-cases (is_kept ops p (lookup name cfgs))) [
        | inl kept ↦
            let still : left.proxies name ≡ some p =
              d.left_proxies name ∙ rw (met, found, kept) refl in
            inl (add_proxies_lem ops cfgs left name ∙ rw still refl)
        | inr changed ↦
            inr (rw (stopped-add_proxies ops cfgs left) (d.now_stopped name p met found changed))
      ]

  pub reload-Leaves :
      (names : List String) (cfgs : List (String × C)) (pm : ProxyManager C)
      → AllRun pm
      → ListsMap names pm
      → Leaves pm (reload ops names cfgs pm)
  unfolding reload
  reload-Leaves names cfgs pm runs lists =
      let (left, drops, d) = drop_proxies-Dropped ops cfgs names pm runs in
      rw (reload, drops) (added-Leaves names cfgs pm left lists d)
