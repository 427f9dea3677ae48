-- ===== src/Client/Manager/Reload.antt =====
-- What a reload of the configuration does to the proxies of a client, client/proxy/proxy_manager.go.
use mathlib.Core.List.{Mem}
use chml_frp_frp.Prelude.{
  String, ◌≡◌, ◌≢◌, refl, sym, ◌∙◌, ap, subst, Bool, true, false, Option, none, some, List, [], ◌∷◌,
  ◌⊎◌, inl, inr, str_eq, eq_iff, eq_refl, if◌then◌else◌, Bool-cases, Option-cases,
}
use chml_frp_frp.Client.Manager.{
  ProxyConfOps, IsDeepEqual, Proxy, ProxyManager, lookup, started, is_kept, add_missing,
  add_proxies, reload,
}
use chml_frp_frp.Client.Manager.Dropped.{
  names_key, stopped_proxy, AllRun, ListsMap, Dropped, kept_of, left_of, drop_proxies-Dropped,
}

module _ {C : Type 0} (ops : ProxyConfOps C) where
  abbrev pub filled : Option (Proxy C) → Option C → Option (Proxy C)
  filled (some p) o = some p
  filled none none = none
  filled none (some c) = some (started ops c)

  add_missing_lem :
      (k : String) (c : C) (pm : ProxyManager C) (name : String)
      → (add_missing ops k c pm).proxies name
        ≡ (if str_eq name k then filled (pm.proxies name) (some c) else pm.proxies name)
  add_missing_lem k c pm name = elim (Bool-cases (str_eq name k)) [
    | inl h ↦ rw h (
        subst (λ (n : String). (add_missing ops k c pm).proxies n ≡ filled (pm.proxies n) (some c))
          (sym ((eq_iff name k).0 h)) at_k)
    | inr h ↦ rw h (elim (Option-cases (pm.proxies k)) [
      | inl e ↦ rw (add_missing, e, h) refl
      | inr (p, e) ↦ rw (add_missing, e) refl
    ])
  ]
    where
      at_k : (add_missing ops k c pm).proxies k ≡ filled (pm.proxies k) (some c)
      at_k = elim (Option-cases (pm.proxies k)) [
        | inl e ↦ rw (add_missing, e, eq_refl k) refl
        | inr (p, e) ↦ rw (add_missing, e) e
      ]

  pub add_proxies_lem :
      (cfgs : List (String × C)) (pm : ProxyManager C) (name : String)
      → (add_proxies ops cfgs pm).proxies name ≡ filled (pm.proxies name) (lookup name cfgs)
  unfolding add_proxies
  add_proxies_lem [] pm name = elim (Option-cases (pm.proxies name)) [
    | inl e ↦ rw e refl
    | inr (p, e) ↦ rw e refl
  ]
  add_proxies_lem ((k, c) ∷ cfgs) pm name =
      add_proxies_lem cfgs (add_missing ops k c pm) name
      ∙ ap (λ o. filled o (lookup name cfgs)) (add_missing_lem k c pm name)
      ∙ twice (str_eq name k) (pm.proxies name) (lookup name cfgs)
    where
      twice :
          (met : Bool) (o : Option (Proxy C)) (found : Option C)
          → filled (if met then filled o (some c) else o) found
            ≡ filled o (if met then some c else found)
      twice true none found = refl
      twice false none found = refl
      twice true (some p) none = refl
      twice true (some p) (some d) = refl
      twice false (some p) found = refl

  pub stopped-add_proxies :
      (cfgs : List (String × C)) (pm : ProxyManager C)
      → (add_proxies ops cfgs pm).stopped ≡ pm.stopped
  unfolding add_proxies
  stopped-add_proxies [] pm = refl
  stopped-add_proxies ((k, c) ∷ cfgs) pm =
      stopped-add_proxies cfgs (add_missing ops k c pm) ∙ same (Option-cases (pm.proxies k))
    where
      same :
          (pm.proxies k ≡ none) ⊎ ((p : Proxy C) × (pm.proxies k ≡ some p))
          → (add_missing ops k c pm).stopped ≡ pm.stopped
      same (inl e) = rw (add_missing, e) refl
      same (inr (p, e)) = rw (add_missing, e) refl

  -- A manager after a reload, by what it holds under each name.
  pub record Reloaded (cfgs : List (String × C)) (pm after : ProxyManager C) : Type 0 where
    pub gone : (name : String) → lookup name cfgs ≡ none → after.proxies name ≡ none
    pub untouched :
        (name : String) (p : Proxy C)
        → pm.proxies name ≡ some p
        → lookup name cfgs ≡ some p.cfg
        → after.proxies name ≡ some p
    pub restarted :
        (name : String) (c : C)
        → lookup name cfgs ≡ some c
        → ((p : Proxy C) → pm.proxies name ≡ some p → p.cfg ≢ c)
        → after.proxies name ≡ some (started ops c)
    pub told :
        (name : String) (p : Proxy C)
        → pm.proxies name ≡ some p
        → lookup name cfgs ≢ some p.cfg
        → Mem (stopped_proxy p) after.stopped

  module _ (deep : IsDeepEqual ops) where
    Dropped-Reloaded :
        (names : List String) (cfgs : List (String × C)) (pm left : ProxyManager C)
        → ListsMap names pm
        → Dropped ops cfgs (names_key names) pm left
        → Reloaded cfgs pm (add_proxies ops cfgs left)
    Dropped-Reloaded names cfgs pm left lists d = record {
      gone = λ name h. held name ∙ rw h (none_left name h);
      untouched = λ name p found h. held name ∙ rw (found, h, deep.same_self p.cfg) refl;
      restarted = λ name c h other. held name ∙ rw h (other_left name c h other);
      told = λ name p found other.
          rw (stopped-add_proxies cfgs left)
            (d.now_stopped name p (lists name p found) found (changed name p other));
    }
      where
        at_key :
            (name : String) (o : Option (Proxy C))
            → pm.proxies name ≡ o
            → left_of ops cfgs (names_key names name) name o ≡ kept_of ops cfgs name o
        at_key name none e = elim (Bool-cases (names_key names name)) [
          | inl h ↦ rw h refl
          | inr h ↦ rw h refl
        ]
        at_key name (some p) e = rw (lists name p e) refl

        held :
            (name : String)
            → (add_proxies ops cfgs left).proxies name
              ≡ filled (kept_of ops cfgs name (pm.proxies name)) (lookup name cfgs)
        held name =
            add_proxies_lem cfgs left name
            ∙ ap (λ o. filled o (lookup name cfgs))
                (d.left_proxies name ∙ at_key name (pm.proxies name) refl)

        none_left :
            (name : String)
            → lookup name cfgs ≡ none
            → filled (kept_of ops cfgs name (pm.proxies name)) none ≡ none
        none_left name h = elim (Option-cases (pm.proxies name)) [
          | inl e ↦ rw e refl
          | inr (p, e) ↦ rw (e, h) refl
        ]

        other_left :
            (name : String) (c : C)
            → lookup name cfgs ≡ some c
            → ((p : Proxy C) → pm.proxies name ≡ some p → p.cfg ≢ c)
            → filled (kept_of ops cfgs name (pm.proxies name)) (some c) ≡ some (started ops c)
        other_left name c h other = elim (Option-cases (pm.proxies name)) [
          | inl e ↦ rw e refl
          | inr (p, e) ↦ elim (Bool-cases (ops.same p.cfg c)) [
            | inl same ↦ absurd (other p e (deep.same_eq p.cfg c same))
            | inr differ ↦ rw (e, h, differ) refl
          ]
        ]

        changed :
            (name : String) (p : Proxy C)
            → lookup name cfgs ≢ some p.cfg
            → is_kept ops p (lookup name cfgs) ≡ false
        changed name p other = elim (Option-cases (lookup name cfgs)) [
          | inl e ↦ rw e refl
          | inr (c, e) ↦ elim (Bool-cases (ops.same p.cfg c)) [
            | inl same ↦ absurd (other (e ∙ ap some (sym (deep.same_eq p.cfg c same))))
            | inr differ ↦ rw (e, differ) refl
          ]
        ]

    -- From a manager whose proxies all run, a reload does not panic. Afterwards there is a proxy for
    -- each name of the new configuration and for no other. A proxy whose configuration is the same is
    -- the one from before, in its phase; any other is a new one, that has sent nothing. Each proxy
    -- that was dropped or changed has been stopped, and its last message asks the server to close it.
    pub reload-Reloaded :
        (names : List String) (cfgs : List (String × C)) (pm : ProxyManager C)
        → AllRun pm
        → ListsMap names pm
        → (after : ProxyManager C) × (reload ops names cfgs pm ≡ some after)
          × Reloaded cfgs pm after
    unfolding reload
    reload-Reloaded names cfgs pm runs lists =
        let (left, drops, d) = drop_proxies-Dropped ops cfgs names pm runs in
        (
          add_proxies ops cfgs left,
          rw (reload, drops) refl,
          Dropped-Reloaded names cfgs pm left lists d,
        )
