-- ===== src/Client/Manager/Closed.antt =====
-- The end of the client, client/proxy/proxy_manager.go: each proxy is stopped, and the map is emptied.
use mathlib.Core.List.{Mem, mem-cons_self, mem-cons_of_mem}
use chml_frp_frp.Prelude.{
  String, ◌≡◌, refl, sym, subst, ◌∙◌, true, false, Option, none, some, List, [], ◌∷◌, inl, inr,
  str_eq, eq_iff, eq_refl, All, Bool-cases, Option-cases,
}
use chml_frp_frp.Client.Wrapper.{stop}
use chml_frp_frp.Client.Manager.{Proxy, ProxyManager, set_name, stop_in_place, stop_proxies}
use chml_frp_frp.Client.Manager.Dropped.{names_key, stopped_proxy}

-- The keys of a map: no name is met twice.
abbrev pub Distinct : List String → Type 0
Distinct [] = Unit
Distinct (k ∷ ks) = (names_key ks k ≡ false) × Distinct ks

other_name :
    (k name : String) (ks : List String)
    → names_key ks k ≡ false
    → names_key ks name ≡ true
    → str_eq name k ≡ false
other_name k name ks fresh met = elim (Bool-cases (str_eq name k)) [
  | inl e ↦
      let there = subst (λ (n : String). names_key ks n ≡ true) ((eq_iff name k).0 e) met in
      absurd (cc)
  | inr e ↦ e
]

at_head :
    (k name : String) (names : List String)
    → str_eq name k ≡ false
    → names_key (k ∷ names) name ≡ true
    → names_key names name ≡ true
at_head k name names e met = sym (rw e refl) ∙ met

later :
    (k name : String) (names : List String)
    → names_key names name ≡ true
    → names_key (k ∷ names) name ≡ true
later k name names met = elim (Bool-cases (str_eq name k)) [ inl e ↦ rw e refl | inr e ↦ rw e met ]

met_first : (k : String) (names : List String) → names_key (k ∷ names) k ≡ true
met_first k names = rw (eq_refl k) refl

module _ {C : Type 0} where
  -- None of the proxies with some names was stopped.
  abbrev NamedRun : List String → ProxyManager C → Type 0
  NamedRun names pm =
      (name : String) (p : Proxy C)
      → names_key names name ≡ true
      → pm.proxies name ≡ some p
      → p.wrapper.stopped ≡ false

  -- What the loop leaves in the list of the proxies that were told to stop.
  pub record Halted (names : List String) (pm left : ProxyManager C) : Type 1 where
    pub told :
        (name : String) (p : Proxy C)
        → names_key names name ≡ true
        → pm.proxies name ≡ some p
        → Mem (stopped_proxy p) left.stopped
    pub still_stopped : (p : Proxy C) → Mem p pm.stopped → Mem p left.stopped
    pub no_other :
        (P : Proxy C → Type 0)
        → All P pm.stopped
        → ((name : String) (p : Proxy C)
            → names_key names name ≡ true
            → pm.proxies name ≡ some p
            → P (stopped_proxy p))
        → All P left.stopped

  abbrev in_place : String → Proxy C → ProxyManager C → ProxyManager C
  in_place k p pm = record {
    proxies = set_name k (some (stopped_proxy p)) pm.proxies;
    stopped = stopped_proxy p ∷ pm.stopped;
  }

  stop_in_place_lem :
      (k : String) (p : Proxy C) (pm : ProxyManager C)
      → p.wrapper.stopped ≡ false
      → stop_in_place k p pm ≡ some (in_place k p pm)
  unfolding stop
  stop_in_place_lem k p pm runs = rw runs refl

  -- A name that is not met again is as before.
  untouched :
      (k : String) (q : Proxy C) (names : List String) (pm : ProxyManager C)
      → names_key names k ≡ false
      → (name : String) (o : Option (Proxy C)) → names_key names name ≡ true
      → pm.proxies name ≡ o
      → (in_place k q pm).proxies name ≡ o
  untouched k q names pm fresh name o met h =
      let apart : str_eq name k ≡ false = other_name k name names fresh met in rw apart h

  absent-Halted :
      (k : String) (names : List String) (pm left : ProxyManager C)
      → pm.proxies k ≡ none
      → Halted names pm left
      → Halted (k ∷ names) pm left
  absent-Halted k names pm left absent h = record {
    told = λ name p met found. elim (Bool-cases (str_eq name k)) [
      | inl e ↦
          let gone = subst (λ (n : String). pm.proxies n ≡ some p) ((eq_iff name k).0 e) found in
          absurd (cc)
      | inr e ↦ h.told name p (at_head k name names e met) found
    ];
    still_stopped = h.still_stopped;
    no_other = λ P old new. h.no_other P old (λ name p met. new name p (later k name names met));
  }

  present-Halted :
      (k : String) (q : Proxy C) (names : List String) (pm left : ProxyManager C)
      → pm.proxies k ≡ some q
      → names_key names k ≡ false
      → Halted names (in_place k q pm) left
      → Halted (k ∷ names) pm left
  present-Halted k q names pm left present fresh h = record {
    told = λ name p met found. elim (Bool-cases (str_eq name k)) [
      | inl e ↦
          let at_k = subst (λ (n : String). pm.proxies n ≡ some p) ((eq_iff name k).0 e) found in
          let same : q ≡ p = cc in
          subst (λ (r : Proxy C). Mem (stopped_proxy r) left.stopped) same
            (h.still_stopped (stopped_proxy q) mem-cons_self)
      | inr e ↦
          let rest = at_head k name names e met in
          h.told name p rest (untouched k q names pm fresh name (some p) rest found)
    ];
    still_stopped = λ p m. h.still_stopped p (mem-cons_of_mem (stopped_proxy q) m);
    no_other = λ P old new.
        h.no_other P (new k q (met_first k names) present, old)
          (λ name p met found.
            new name p (later k name names met)
              (sym (untouched k q names pm fresh name (pm.proxies name) met refl) ∙ found));
  }

  pub stop_proxies-Halted :
      (names : List String) (pm : ProxyManager C)
      → Distinct names
      → NamedRun names pm
      → (left : ProxyManager C) × (stop_proxies names pm ≡ some left) × Halted names pm left
  unfolding stop_proxies
  stop_proxies-Halted [] pm d runs = (
    pm,
    refl,
    record {
      told = λ name p met found. absurd (cc);
      still_stopped = λ p m. m;
      no_other = λ P old new. old;
    },
  )
  stop_proxies-Halted (k ∷ names) pm (fresh, d) runs = elim (Option-cases (pm.proxies k)) [
    | inl e ↦
        let (left, h, w) =
          stop_proxies-Halted names pm d (λ name p met. runs name p (later k name names met)) in
        (left, rw (stop_proxies, e) h, absent-Halted k names pm left e w)
    | inr (q, e) ↦
        let (left, h, w) = stop_proxies-Halted names (in_place k q pm) d (λ name p met found.
          runs name p (later k name names met)
            (sym (untouched k q names pm fresh name (pm.proxies name) met refl) ∙ found)) in
        (
          left,
          rw (stop_proxies, e, stop_in_place_lem k q pm (runs k q (met_first k names) e)) h,
          present-Halted k q names pm left e fresh w,
        )
  ]
