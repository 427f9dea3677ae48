-- ===== src/Client/Manager/Again.antt =====
-- A second reload of the same configuration, client/proxy/proxy_manager.go.
use mathlib.Core.Option.{some_inj}
use chml_frp_frp.Prelude.{
  String, ◌≡◌, ◌≢◌, refl, sym, ◌∙◌, ap, subst, ◌⊎◌, inl, inr, true, none, some, List, [], ◌∷◌,
  str_eq, eq_refl, All, Bool-cases, Option-cases,
}
use chml_frp_frp.Client.Manager.{
  ProxyConfOps, IsDeepEqual, Proxy, ProxyManager, lookup, started, drop_changed, drop_proxies,
  add_missing, add_proxies, reload,
}
use chml_frp_frp.Client.Manager.Dropped.{AllRun, ListsMap}
use chml_frp_frp.Client.Manager.Reload.{Reloaded, reload-Reloaded}

module _ {ℓ} {A : Type ℓ} where
  -- Every name of a list of entries is found in a longer list.
  abbrev FoundIn : List (String × A) → List (String × A) → Type ℓ
  FoundIn all = All (λ e. (a : A) × (lookup e.0 all ≡ some a))

  FoundIn-cons :
      (k : String) (a : A) (all some_of : List (String × A))
      → FoundIn all some_of
      → FoundIn ((k, a) ∷ all) some_of
  FoundIn-cons k a all [] h = tt
  FoundIn-cons k a all ((j, b) ∷ rest) ((c, h), hs) = (
    elim (Bool-cases (str_eq j k)) [ inl e ↦ (a, rw e refl) | inr e ↦ (c, rw e h) ],
    FoundIn-cons k a all rest hs,
  )

  FoundIn-self : (all : List (String × A)) → FoundIn all all
  FoundIn-self [] = tt
  FoundIn-self ((k, a) ∷ all) =
      ((a, rw (eq_refl k) refl), FoundIn-cons k a all all (FoundIn-self all))

module _ {C : Type 0} (ops : ProxyConfOps C) (deep : IsDeepEqual ops) where
  -- What the map holds under a name is what the configuration says.
  abbrev Configured : List (String × C) → ProxyManager C → Type 0
  Configured cfgs pm =
      (name : String)
      → ((pm.proxies name ≡ none) × (lookup name cfgs ≡ none))
        ⊎ ((p : Proxy C) × (pm.proxies name ≡ some p) × (lookup name cfgs ≡ some p.cfg))

  Reloaded-Configured :
      (cfgs : List (String × C)) (pm after : ProxyManager C)
      → Reloaded ops cfgs pm after
      → Configured cfgs after
  unfolding started
  Reloaded-Configured cfgs pm after r name = elim (Option-cases (lookup name cfgs)) [
    | inl e ↦ inl (r.gone name e, e)
    | inr (c, e) ↦ elim (Option-cases (pm.proxies name)) [
      | inl n ↦ inr (started ops c, r.restarted name c e (λ p h. absurd (cc)), e)
      | inr (p, found) ↦ elim (Bool-cases (ops.same p.cfg c)) [
        | inl same ↦
            let own = e ∙ ap some (sym (deep.same_eq p.cfg c same)) in
            inr (p, r.untouched name p found own, own)
        | inr differ ↦
            let other : (q : Proxy C) → pm.proxies name ≡ some q → q.cfg ≢ c = λ q h eq.
              let own : ops.same q.cfg c ≡ true =
                subst (λ d. ops.same q.cfg d ≡ true) eq (deep.same_self q.cfg) in
              let one : p ≡ q = some_inj.0 (sym found ∙ h) in cc in
            inr (started ops c, r.restarted name c e other, e)
      ]
    ]
  ]

  drop_proxies_again :
      (cfgs : List (String × C)) (pm : ProxyManager C)
      → Configured cfgs pm
      → (names : List String) → drop_proxies ops names cfgs pm ≡ some pm
  unfolding drop_proxies
  drop_proxies_again cfgs pm v [] = refl
  drop_proxies_again cfgs pm v (k ∷ names) =
      rw (drop_proxies, stays) (drop_proxies_again cfgs pm v names)
    where
      stays : drop_changed ops cfgs k pm ≡ some pm
      stays = elim (v k) [
        | inl (e, _) ↦ rw (drop_changed, e) refl
        | inr (p, e, own) ↦ rw (drop_changed, e, own, deep.same_self p.cfg) refl
      ]

  add_proxies_again :
      (cfgs : List (String × C)) (pm : ProxyManager C)
      → Configured cfgs pm
      → (rest : List (String × C)) → FoundIn cfgs rest
      → add_proxies ops rest pm ≡ pm
  unfolding add_proxies
  add_proxies_again cfgs pm v [] h = refl
  add_proxies_again cfgs pm v ((k, c) ∷ rest) ((d, found), hs) =
      rw (add_proxies, stays) (add_proxies_again cfgs pm v rest hs)
    where
      stays : add_missing ops k c pm ≡ pm
      stays = elim (v k) [
        | inl (_, missing) ↦ absurd (cc)
        | inr (p, e, _) ↦ rw (add_missing, e) refl
      ]

  -- After a reload of a manager whose proxies all run, a second reload of the same configuration
  -- changes nothing: no proxy is stopped, and none is started, in whatever order the loop meets them.
  pub reload-reload :
      (names again : List String) (cfgs : List (String × C)) (pm after : ProxyManager C)
      → AllRun pm
      → ListsMap names pm
      → reload ops names cfgs pm ≡ some after
      → reload ops again cfgs after ≡ some after
  unfolding reload
  reload-reload names again cfgs pm after runs lists h =
      let (found, e, r) = reload-Reloaded ops deep names cfgs pm runs lists in
      let settled =
        Reloaded-Configured cfgs pm after
          (subst (Reloaded ops cfgs pm) (some_inj.0 (sym e ∙ h)) r) in
      rw
        (
          reload,
          drop_proxies_again cfgs after settled again,
          add_proxies_again cfgs after settled cfgs (FoundIn-self cfgs),
        )
        refl
