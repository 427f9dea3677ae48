-- ===== src/Client/Manager/Dropped.antt =====
-- The first loop of a reload, client/proxy/proxy_manager.go: the proxies that it stops.
use mathlib.Core.List.{Mem, mem-cons_self, mem-cons_of_mem}
use chml_frp_frp.Prelude.{
  String, ◌≡◌, refl, sym, subst, ◌∙◌, ap, Bool, true, false, Option, none, some, List, [], ◌∷◌,
  arith, inl, inr, str_eq, eq_iff, if◌then◌else◌, Bool-cases, Option-cases,
}
use chml_frp_frp.Client.Wrapper.{stop, send_close, closed}
use chml_frp_frp.Client.Manager.{
  ProxyConfOps, Proxy, ProxyManager, set_name, lookup, take_out, is_kept, drop_changed,
  drop_proxies,
}

abbrev pub names_key : List String → String → Bool
names_key [] name = false
names_key (k ∷ ks) name = let rest = names_key ks name in if str_eq name k then true else rest

module _ {C : Type 0} where
  -- A proxy that was told to stop.
  abbrev pub stopped_proxy : Proxy C → Proxy C
  stopped_proxy p = record p {
    wrapper = record (send_close p.wrapper) { phase = closed; stopped = true };
  }

  -- No proxy of the map was stopped.
  abbrev pub AllRun : ProxyManager C → Type 0
  AllRun pm = (name : String) (p : Proxy C) → pm.proxies name ≡ some p → p.wrapper.stopped ≡ false

  -- The keys list the whole map.
  abbrev pub ListsMap : List String → ProxyManager C → Type 0
  ListsMap names pm =
      (name : String) (p : Proxy C) → pm.proxies name ≡ some p → names_key names name ≡ true

  pub take_out_lem :
      (name : String) (p : Proxy C) (pm : ProxyManager C)
      → p.wrapper.stopped ≡ false
      → take_out name p pm
        ≡ some (record {
          proxies = set_name name none pm.proxies;
          stopped = stopped_proxy p ∷ pm.stopped;
        })
  unfolding stop
  take_out_lem name p pm runs = rw runs refl

module _ {C : Type 0} (ops : ProxyConfOps C) (cfgs : List (String × C)) where
  abbrev pub kept_of : String → Option (Proxy C) → Option (Proxy C)
  kept_of name none = none
  kept_of name (some p) = if is_kept ops p (lookup name cfgs) then some p else none

  -- What the first loop leaves under a name.
  abbrev pub left_of : Bool → String → Option (Proxy C) → Option (Proxy C)
  left_of true name found = kept_of name found
  left_of false name found = found

  pub record Dropped (met : String → Bool) (pm left : ProxyManager C) : Type 0 where
    pub left_proxies :
        (name : String) → left.proxies name ≡ left_of (met name) name (pm.proxies name)
    pub still_stopped : (p : Proxy C) → Mem p pm.stopped → Mem p left.stopped
    pub now_stopped :
        (name : String) (p : Proxy C)
        → met name ≡ true
        → pm.proxies name ≡ some p
        → is_kept ops p (lookup name cfgs) ≡ false
        → Mem (stopped_proxy p) left.stopped

  -- A round that leaves the map as it is.
  same-Dropped :
      (k : String) (pm : ProxyManager C)
      → kept_of k (pm.proxies k) ≡ pm.proxies k
      → Dropped (λ name. str_eq name k) pm pm
  same-Dropped k pm same = record {
    left_proxies = λ name. elim (Bool-cases (str_eq name k)) [
      | inl h ↦ rw h (
          subst (λ (n : String). pm.proxies n ≡ kept_of n (pm.proxies n))
            (sym ((eq_iff name k).0 h)) (sym same))
      | inr h ↦ rw h refl
    ];
    still_stopped = λ p m. m;
    now_stopped = λ name p h found changed. absurd (
        let kept =
          subst (λ (n : String). kept_of n (pm.proxies n) ≡ pm.proxies n)
            (sym ((eq_iff name k).0 h)) same in
        grind (arith, kept, found, changed));
  }

  -- A round that takes a proxy out.
  removed-Dropped :
      (k : String) (q : Proxy C) (pm : ProxyManager C)
      → pm.proxies k ≡ some q
      → is_kept ops q (lookup k cfgs) ≡ false
      → Dropped
          (λ name. str_eq name k)
          pm
          (record { proxies = set_name k none pm.proxies; stopped = stopped_proxy q ∷ pm.stopped })
  removed-Dropped k q pm e changed = record {
    left_proxies = λ name. elim (Bool-cases (str_eq name k)) [
      | inl h ↦ rw h (
          subst (λ (n : String). none ≡ kept_of n (pm.proxies n)) (sym ((eq_iff name k).0 h))
            (rw (e, changed) refl))
      | inr h ↦ rw h refl
    ];
    still_stopped = λ p m. mem-cons_of_mem (stopped_proxy q) m;
    now_stopped = λ name p h found _.
        let at_k = subst (λ (n : String). pm.proxies n ≡ some p) ((eq_iff name k).0 h) found in
        let same : q ≡ p = cc in
        subst (λ (r : Proxy C). Mem (stopped_proxy r) (stopped_proxy q ∷ pm.stopped)) same
          mem-cons_self;
  }

  drop_changed-Dropped :
      (k : String) (pm : ProxyManager C)
      → AllRun pm
      → (left : ProxyManager C) × (drop_changed ops cfgs k pm ≡ some left)
        × Dropped (λ name. str_eq name k) pm left
  drop_changed-Dropped k pm runs = elim (Option-cases (pm.proxies k)) [
    | inl e ↦ (pm, rw (drop_changed, e) refl, same-Dropped k pm (rw e refl))
    | inr (q, e) ↦ elim (Bool-cases (is_kept ops q (lookup k cfgs))) [
      | inl same ↦ (pm, rw (drop_changed, e, same) refl, same-Dropped k pm (rw (e, same) refl))
      | inr changed ↦ (
        record { proxies = set_name k none pm.proxies; stopped = stopped_proxy q ∷ pm.stopped },
        rw (drop_changed, e, changed) (take_out_lem k q pm (runs k q e)),
        removed-Dropped k q pm e changed,
      )
    ]
  ]

  Dropped-AllRun :
      (met : String → Bool) (pm left : ProxyManager C)
      → Dropped met pm left
      → AllRun pm
      → AllRun left
  Dropped-AllRun met pm left d runs name p found =
      runs name p (from (met name) (pm.proxies name) (sym (d.left_proxies name) ∙ found))
    where
      from : (b : Bool) (o : Option (Proxy C)) → left_of b name o ≡ some p → o ≡ some p
      from true none h = cc
      from true (some q) h = ground arith
      from false o h = h

  left_of_twice :
      (a b : Bool) (name : String) (o : Option (Proxy C))
      → left_of b name (left_of a name o) ≡ left_of (if a then true else b) name o
  left_of_twice a b name none = ground arith
  left_of_twice a b name (some p) = elim (Bool-cases (is_kept ops p (lookup name cfgs))) [
    | inl e ↦ ground arith
    | inr e ↦ ground arith
  ]

  compose-Dropped :
      (a b : String → Bool) (pm next left : ProxyManager C)
      → Dropped a pm next
      → Dropped b next left
      → Dropped (λ name. if a name then true else b name) pm left
  compose-Dropped a b pm next left d e = record {
    left_proxies = λ name.
        e.left_proxies name
        ∙ ap (left_of (b name) name) (d.left_proxies name)
        ∙ left_of_twice (a name) (b name) name (pm.proxies name);
    still_stopped = λ p m. e.still_stopped p (d.still_stopped p m);
    now_stopped = λ name p h found changed. elim (Bool-cases (a name)) [
      | inl met ↦ e.still_stopped (stopped_proxy p) (d.now_stopped name p met found changed)
      | inr unmet ↦
          e.now_stopped name p (rw (sym h, unmet) refl) (d.left_proxies name ∙ rw (unmet) found)
            changed
    ];
  }

  -- The first loop stops the proxies that the new configuration drops or changes, and no other.
  pub drop_proxies-Dropped :
      (names : List String) (pm : ProxyManager C)
      → AllRun pm
      → (left : ProxyManager C) × (drop_proxies ops names cfgs pm ≡ some left)
        × Dropped (names_key names) pm left
  unfolding drop_proxies
  drop_proxies-Dropped [] pm runs = (
    pm,
    refl,
    record {
      left_proxies = λ name. refl;
      still_stopped = λ p m. m;
      now_stopped = λ name p h found d. absurd (ground arith);
    },
  )
  drop_proxies-Dropped (k ∷ names) pm runs =
      let (next, first, d) = drop_changed-Dropped k pm runs in
      let (left, rest, e) = drop_proxies-Dropped names next (Dropped-AllRun _ pm next d runs) in
      (
        left,
        rw (drop_proxies, first) rest,
        compose-Dropped (λ name. str_eq name k) (names_key names) pm next left d e,
      )
