-- ===== src/Vhost/Router/Laws.antt =====
-- What the routers of pkg/util/vhost/router.go keep and promise, for every sequence of calls.
use chml_frp_frp.Prelude.{
  String, ◌≡◌, refl, sym, ap, subst, ◌∙◌, true, false, none, some, List, [], ◌∷◌, ◌++◌,
  if◌then◌else◌, inl, inr, arith, Bool-cases, str_eq, eq_refl, eq_iff,
}
use chml_frp_frp.Vhost.Router.{
  Bytes, Router, Routers, new_routers, routers_of, set_routers, insert, sort, is_listed, exist, add,
  del, get, scan, adds, dels, Reachable, started, stepped,
}
use chml_frp_frp.Vhost.Router.Sorted.{
  Descends, sort_append, insert-Descends, others, others-Descends, others-insert,
}
use chml_frp_frp.Vhost.Router.Found.{Found, scan-Found, scan-insert}

module _ {ℓ} {Payload : Type ℓ} where
  -- The list of each domain and user descends.
  abbrev pub IsSorted : Routers Payload → Type 0
  IsSorted r = (domain user : String) → Descends (routers_of r domain user)

  routers_of-set_routers :
      (r : Routers Payload) (domain user d u : String) (vrs : List (Router Payload))
      → routers_of (set_routers r domain user vrs) d u ≡ (
          if str_eq d domain
          then if str_eq u user then vrs else routers_of r d u
          else routers_of r d u)
  unfolding routers_of set_routers
  routers_of-set_routers r domain user d u vrs = ground arith

  set_routers-IsSorted :
      (r : Routers Payload) (domain user : String) (vrs : List (Router Payload))
      → IsSorted r
      → Descends vrs
      → IsSorted (set_routers r domain user vrs)
  set_routers-IsSorted r domain user vrs sorted new d u =
      subst Descends (sym (routers_of-set_routers r domain user d u vrs))
        (elim (Bool-cases (str_eq d domain)) [
          | inl e ↦ elim (Bool-cases (str_eq u user)) [
            | inl k ↦ rw (e, k) new
            | inr k ↦ rw (e, k) (sorted d u)
          ]
          | inr e ↦ rw e (sorted d u)
        ])

  abbrev pub router : String → Bytes → String → Payload → Router Payload
  router domain location user payload = record {
    domain = domain;
    location = location;
    http_user = user;
    payload = payload;
  }

  -- A call of `Add` that succeeds.
  added :
      (domain : String) (location : Bytes) (user : String) (payload : Payload)
      (r s : Routers Payload)
      → add domain location user payload r ≡ some s
      → (is_listed location (routers_of r domain user) ≡ false)
        × (s
            ≡ set_routers r domain user
                (sort (routers_of r domain user ++ router domain location user payload ∷ [])))
  unfolding add exist
  added domain location user payload r s h =
      elim (Bool-cases (is_listed location (routers_of r domain user))) [
        | inl e ↦ absurd (ground arith)
        | inr e ↦ (e, ground arith)
      ]

  -- The list after a successful `Add`, which inserts, and the one after a `Del`.
  routers_of-add :
      (domain : String) (location : Bytes) (user : String) (payload : Payload)
      (r s : Routers Payload)
      → IsSorted r
      → add domain location user payload r ≡ some s
      → s
        ≡ set_routers r domain user
            (insert (router domain location user payload) (routers_of r domain user))
  routers_of-add domain location user payload r s sorted h =
      let (new, e) = added domain location user payload r s h in
      e
      ∙ ap (set_routers r domain user) (
          sort_append (router domain location user payload) (routers_of r domain user)
            (sorted domain user) new)

  routers_of-del :
      (domain : String) (location : Bytes) (user : String) (r : Routers Payload) (d u : String)
      → routers_of (del domain location user r) d u ≡ (
          if str_eq d domain
          then if str_eq u user then others location (routers_of r d u) else routers_of r d u
          else routers_of r d u)
  unfolding routers_of del set_routers
  routers_of-del domain location user r d u = ground (arith, eq_iff d domain, eq_iff u user)

  del-IsSorted :
      (domain : String) (location : Bytes) (user : String) (r : Routers Payload)
      → IsSorted r
      → IsSorted (del domain location user r)
  del-IsSorted domain location user r sorted d u =
      subst Descends (sym (routers_of-del domain location user r d u))
        (elim (Bool-cases (str_eq d domain)) [
          | inl e ↦ elim (Bool-cases (str_eq u user)) [
            | inl k ↦ rw (e, k) (others-Descends location (routers_of r d u) (sorted d u))
            | inr k ↦ rw (e, k) (sorted d u)
          ]
          | inr e ↦ rw e (sorted d u)
        ])

  -- However routers were added and deleted, the list of each domain and user is in strictly
  -- descending order of the locations, so that no location is in it twice.
  pub Reachable-IsSorted : (r : Routers Payload) → Reachable r → IsSorted r
  unfolding routers_of new_routers
  Reachable-IsSorted _ started = λ d u. tt
  Reachable-IsSorted _ (stepped {r} {s} before (adds domain location user payload h)) =
      let sorted = Reachable-IsSorted r before in
      let (new, _) = added domain location user payload r s h in
      subst IsSorted (sym (routers_of-add domain location user payload r s sorted h)) (
        set_routers-IsSorted r domain user
          (insert (router domain location user payload) (routers_of r domain user)) sorted
          (insert-Descends (router domain location user payload) (routers_of r domain user)
            (sorted domain user) new))
  Reachable-IsSorted _ (stepped {r} before (dels domain location user)) =
      del-IsSorted domain location user r (Reachable-IsSorted r before)

  -- `Get` on routers that the code can reach: a router that it reports stands in the list of the host
  -- and user, and its location is the longest of those that are a prefix of the path; if it reports
  -- none, no location in the list is a prefix of the path.
  pub get-Found :
      (r : Routers Payload) (host : String) (path : Bytes) (user : String)
      → Reachable r
      → Found path (get host path user r) (routers_of r host user)
  unfolding get
  get-Found r host path user reach =
      scan-Found path none (routers_of r host user) (Reachable-IsSorted r reach host user)

  set_routers_here :
      (r : Routers Payload) (domain user : String) (vrs : List (Router Payload))
      → routers_of (set_routers r domain user vrs) domain user ≡ vrs
  set_routers_here r domain user vrs =
      routers_of-set_routers r domain user domain user vrs ∙ rw (eq_refl domain, eq_refl user)

  del-set_routers :
      (r : Routers Payload) (n : Router Payload) (domain user d u : String)
      → is_listed n.location (routers_of r domain user) ≡ false
      → routers_of
          (del domain n.location user
            (set_routers r domain user (insert n (routers_of r domain user))))
          d
          u
        ≡ routers_of r d u
  del-set_routers r n domain user d u new =
      let vrs = insert n (routers_of r domain user) in
      routers_of-del domain n.location user (set_routers r domain user vrs) d u
      ∙ rw (routers_of-set_routers r domain user d u vrs) (elim (Bool-cases (str_eq d domain)) [
        | inl e ↦ elim (Bool-cases (str_eq u user)) [
          | inl k ↦
              rw (e, k, (eq_iff d domain).0 e, (eq_iff u user).0 k)
                (others-insert n (routers_of r domain user) new)
          | inr k ↦ rw (e, k)
        ]
        | inr e ↦ rw e
      ])

  -- `Add` followed by `Get` with the same domain, location and user finds the router that was added,
  -- and by `Del` leaves every list as it was.
  pub add-get-del :
      (domain : String) (location : Bytes) (user : String) (payload : Payload)
      (r s : Routers Payload)
      → Reachable r
      → add domain location user payload r ≡ some s
      → (get domain location user s ≡ (some (router domain location user payload), true))
        × ((d u : String) → routers_of (del domain location user s) d u ≡ routers_of r d u)
  unfolding get
  add-get-del domain location user payload r s reach h =
      let (new, _) = added domain location user payload r s h in
      let e = routers_of-add domain location user payload r s (Reachable-IsSorted r reach) h in
      let n = router domain location user payload in
      let vrs = insert n (routers_of r domain user) in
      (
        ap (scan location none) (
              ap (λ (q : Routers Payload). routers_of q domain user) e
              ∙ set_routers_here r domain user vrs)
            ∙ scan-insert location none n (routers_of r domain user) refl new,
        λ d u. rw e (del-set_routers r n domain user d u new),
      )
