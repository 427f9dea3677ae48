-- ===== src/Server/Register/Valid.antt =====
-- The invariant of the proxies of all clients, and that every step keeps it, server/control.go and
-- server/proxy/proxy.go.
use mathlib.Core.Option.{some_inj}
use chml_frp_frp.Prelude.{
  ℕ, String, ◌≡◌, refl, sym, ◌∙◌, ap, subst, Bool, true, false, Option, none, some, [], ◌∷◌, str_eq,
  eq_iff, ◌==◌, ==_iff, arith, inl, inr, Bool-cases, Option-cases,
}
use chml_frp_frp.Server.Ports.{set}
use chml_frp_frp.Client.Manager.{set_name, lookup}
use chml_frp_frp.Server.Register.{
  Entries, Client, Registry, exceeds, begin_register, give_back, started_proxy, end_register,
  close_proxy, del_names, stop_client,
}
use chml_frp_frp.Server.Register.Entries.{
  Distinct, lookup-set_entry, lookup-delete_entry, Distinct-set_entry, Distinct-delete_entry,
}
use chml_frp_frp.Server.Register.Counted.{
  Counted, counted_begin, counted_back, proxies-use_ports, stopped-use_ports, proxies-free_ports,
  stopped-free_ports, counted_refused, counted_set, counted_delete, counted_stop,
}

module _ (max : ℕ) where
  pub record ClientValid (pxys : String → Option ℕ) (i : ℕ) (c : Client) : Type 0 where
    pub counted : Counted max c
    pub distinct : Distinct c.proxies
    pub owned :
        c.stopped ≡ false
        → (name : String) (used : ℕ) → lookup name c.proxies ≡ some used
        → pxys name ≡ some i

  pub record IsValid (s : Registry) : Type 0 where
    pub client : (i : ℕ) → ClientValid s.pxys i (s.clients i)

  -- A change of one client that leaves the names of the others alone.
  change-IsValid :
      (i : ℕ) (c : Client) (pxys : String → Option ℕ) (s : Registry)
      → IsValid s
      → ClientValid pxys i c
      → ((name : String) (j : ℕ) → (j == i) ≡ false → s.pxys name ≡ some j → pxys name ≡ some j)
      → IsValid (record { pxys = pxys; clients = set i c s.clients })
  change-IsValid i c pxys s v own others = record {
    client = λ j. elim (Bool-cases (j == i)) [
      | inl e ↦ rw e (subst (λ (k : ℕ). ClientValid pxys k c) (sym ((==_iff j i).0 e)) own)
      | inr e ↦
          let other = v.client j in
          rw e (record {
            counted = other.counted;
            distinct = other.distinct;
            owned = λ live name used h. others name j e (other.owned live name used h);
          })
    ];
  }

  unchanged :
      (pxys : String → Option ℕ) (i : ℕ) (c d : Client)
      → ClientValid pxys i c
      → Counted max d
      → d.proxies ≡ c.proxies
      → d.stopped ≡ c.stopped
      → ClientValid pxys i d
  unchanged pxys i c d v counted same live = record {
    counted = counted;
    distinct = subst Distinct (sym same) v.distinct;
    owned =
        λ runs name used h. v.owned (sym live ∙ runs) name used (sym (ap (lookup name) same) ∙ h);
  }

  pub begin_register-IsValid :
      (i : ℕ) (name : String) (used : ℕ) (s : Registry)
      → IsValid s
      → (s.clients i).pending ≡ none
      → IsValid (begin_register max i name used s).1
  unfolding begin_register
  begin_register-IsValid i name used s v idle = elim (Bool-cases (exceeds max used c)) [
    | inl e ↦ rw (begin_register, e) v
    | inr e ↦ elim (Option-cases (s.pxys name)) [
      | inr (j, held) ↦
          rw (begin_register, e, held)
            (change-IsValid i _ s.pxys s v
              (unchanged s.pxys i c _ (v.client i) (counted_refused max c used (v.client i).counted)
                (proxies-free_ports max used _ ∙ proxies-use_ports max used c)
                (stopped-free_ports max used _ ∙ stopped-use_ports max used c))
              (λ n j d h. h))
      | inl free ↦
          rw (begin_register, e, free)
            (change-IsValid i _ s.pxys s v
              (unchanged s.pxys i c _ (v.client i)
                (counted_begin max c name used (v.client i).counted idle e)
                (proxies-use_ports max used c) (stopped-use_ports max used c))
              (λ n j d h. h))
    ]
  ]
    where
      c : Client
      c = s.clients i

  give_back-IsValid :
      (i : ℕ) (name : String) (used : ℕ) (s : Registry)
      → IsValid s
      → (s.clients i).pending ≡ some (name, used)
      → IsValid (give_back max i used s)
  give_back-IsValid i name used s v busy =
      change-IsValid i _ s.pxys s v
        (unchanged s.pxys i (s.clients i) _ (v.client i)
          (counted_back max (s.clients i) name used (v.client i).counted busy)
          (proxies-free_ports max used (s.clients i)) (stopped-free_ports max used (s.clients i)))
        (λ n j d h. h)

  -- A live client holds no name that the manager does not give it.
  not_held :
      (i : ℕ) (name : String) (s : Registry)
      → IsValid s
      → (s.clients i).stopped ≡ false
      → s.pxys name ≡ none
      → lookup name (s.clients i).proxies ≡ none
  not_held i name s v live free = elim (Option-cases (lookup name (s.clients i).proxies)) [
    | inl e ↦ e
    | inr (used, e) ↦ let held = (v.client i).owned live name used e in absurd (cc)
  ]

  started_proxy-IsValid :
      (i : ℕ) (name : String) (used : ℕ) (s : Registry)
      → IsValid s
      → (s.clients i).stopped ≡ false
      → (s.clients i).pending ≡ some (name, used)
      → IsValid (started_proxy max i name used s).1
  started_proxy-IsValid i name used s v live busy = elim (Option-cases (s.pxys name)) [
    | inr (j, held) ↦ rw (started_proxy, held) (give_back-IsValid i name used s v busy)
    | inl free ↦
        let c = s.clients i in
        let fresh = not_held i name s v live free in
        rw (started_proxy, free)
          (change-IsValid i _ (set_name name (some i) s.pxys) s v
            (record {
              counted = counted_set max c name used (v.client i).counted busy fresh;
              distinct = Distinct-set_entry name used c.proxies (v.client i).distinct;
              owned = λ _ other n h. elim (Bool-cases (str_eq other name)) [
                | inl e ↦ rw e refl
                | inr e ↦
                    let there = lookup-set_entry name other used c.proxies ∙ rw e refl in
                    rw e ((v.client i).owned live other n (sym there ∙ h))
              ];
            })
            (λ other j d h. elim (Bool-cases (str_eq other name)) [
              | inl e ↦
                  let taken : s.pxys name ≡ some j =
                    subst (λ (k : String). s.pxys k ≡ some j) ((eq_iff other name).0 e) h in
                  absurd (cc)
              | inr e ↦ rw e h
            ]))
  ]

  pub end_register-IsValid :
      (runs : Bool) (i : ℕ) (s : Registry)
      → IsValid s
      → (s.clients i).stopped ≡ false
      → IsValid (end_register max runs i s).1
  unfolding end_register
  end_register-IsValid runs i s v live = elim (Option-cases (s.clients i).pending) [
    | inl e ↦ rw (end_register, e) v
    | inr ((name, used), e) ↦
        rw (end_register, e)
          (elim (Bool-cases runs) [
            | inl r ↦ rw r (started_proxy-IsValid i name used s v live e)
            | inr r ↦ rw r (give_back-IsValid i name used s v e)
          ])
  ]

  pub close_proxy-IsValid :
      (i : ℕ) (name : String) (s : Registry)
      → IsValid s
      → (s.clients i).stopped ≡ false
      → IsValid (close_proxy max i name s).1
  unfolding close_proxy
  close_proxy-IsValid i name s v live = elim (Option-cases (lookup name (s.clients i).proxies)) [
    | inl e ↦ rw (close_proxy, e) v
    | inr (used, e) ↦
        let c = s.clients i in
        rw (close_proxy, e)
          (change-IsValid i _ (set_name name none s.pxys) s v
            (record {
              counted = counted_delete max c name used (v.client i).counted e;
              distinct = Distinct-delete_entry name c.proxies (v.client i).distinct;
              owned = λ _ other n h.
                  let (apart, there) =
                    lookup-delete_entry name other c.proxies n (v.client i).distinct h in
                  rw apart ((v.client i).owned live other n there);
            })
            (λ other j d h. elim (Bool-cases (str_eq other name)) [
              | inl o ↦
                  let mine : s.pxys name ≡ some i = (v.client i).owned live name used e in
                  let theirs : s.pxys name ≡ some j =
                    subst (λ (k : String). s.pxys k ≡ some j) ((eq_iff other name).0 o) h in
                  let same : (j == i) ≡ true = (==_iff j i).1 (some_inj.0 (sym theirs ∙ mine)) in
                  absurd (cc)
              | inr o ↦ rw o h
            ]))
  ]

  -- Deleting the names of one client leaves those of another.
  del_names_lem :
      (es : Entries) (pxys : String → Option ℕ) (other : String)
      → lookup other es ≡ none
      → del_names es pxys other ≡ pxys other
  del_names_lem [] pxys other h = refl
  del_names_lem ((k, n) ∷ es) pxys other h = elim (Bool-cases (str_eq other k)) [
    | inl e ↦ absurd (ground arith)
    | inr e ↦ del_names_lem es (set_name k none pxys) other (sym (rw e refl) ∙ h) ∙ rw e refl
  ]

  pub stop_client-IsValid :
      (i : ℕ) (s : Registry) → IsValid s → (s.clients i).stopped ≡ false → IsValid (stop_client i s)
  unfolding stop_client
  stop_client-IsValid i s v live =
      let c = s.clients i in
      change-IsValid i _ (del_names c.proxies s.pxys) s v
        (record {
          counted = counted_stop max c (v.client i).counted;
          distinct = (v.client i).distinct;
          owned = λ runs other n h. absurd (ground arith);
        })
        (λ other j d h. elim (Option-cases (lookup other c.proxies)) [
          | inl e ↦ del_names_lem c.proxies s.pxys other e ∙ h
          | inr (used, e) ↦
              let mine = (v.client i).owned live other used e in
              let same : (j == i) ≡ true = (==_iff j i).1 (some_inj.0 (sym h ∙ mine)) in absurd (cc)
        ])
