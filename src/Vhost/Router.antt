-- ===== src/Vhost/Router.antt =====
-- pkg/util/vhost/router.go: the routers of each domain and user, sorted by location. A location and a
-- path are lists of bytes, as the code compares them byte by byte; the payload is of any type.
pub mod Bytes
pub mod Sorted
pub mod Found
pub mod Laws
use chml_frp_frp.Prelude.{
  ℕ, String, Bool, true, false, not, ◌&&◌, Option, none, some, List, [], ◌∷◌, ◌++◌, ltb, ◌==◌,
  if◌then◌else◌, str_eq, keep, ◌≡◌,
}

abbrev pub Bytes : Type 0
Bytes = List ℕ

abbrev pub bytes_eq : Bytes → Bytes → Bool
bytes_eq [] [] = true
bytes_eq [] (y ∷ ys) = false
bytes_eq (x ∷ xs) [] = false
bytes_eq (x ∷ xs) (y ∷ ys) = (x == y) && bytes_eq xs ys

-- `strings.Compare(a, b) < 0`
abbrev pub bytes_lt : Bytes → Bytes → Bool
bytes_lt [] [] = false
bytes_lt [] (y ∷ ys) = true
bytes_lt (x ∷ xs) [] = false
bytes_lt (x ∷ xs) (y ∷ ys) = let rest = bytes_lt xs ys in if x == y then rest else ltb x y

-- `strings.HasPrefix(path, prefix)`
abbrev pub has_prefix : Bytes → Bytes → Bool
has_prefix path [] = true
has_prefix [] (y ∷ ys) = false
has_prefix (x ∷ xs) (y ∷ ys) = (x == y) && has_prefix xs ys

module _ {ℓ} (Payload : Type ℓ) where
  pub record Router : Type ℓ where
    pub domain : String
    pub location : Bytes
    pub http_user : String
    pub payload : Payload

  pub record Routers : Type ℓ where
    pub index_by_domain : String → Option (String → Option (List Router))

module _ {ℓ} {Payload : Type ℓ} where
  unfoldable pub new_routers : Routers Payload
  new_routers = record { index_by_domain = λ _. none }

  -- The list for a domain and a user, which is empty where one of the two keys is missing.
  unfoldable pub routers_of : Routers Payload → String → String → List (Router Payload)
  routers_of r domain user = elim (r.index_by_domain domain) [
    | none ↦ []
    | some by_user ↦ elim (by_user user) [ none ↦ [] | some vrs ↦ vrs ]
  ]

  unfoldable pub set_routers :
      Routers Payload → String → String → List (Router Payload) → Routers Payload
  set_routers r domain user vrs = record {
    index_by_domain = λ d.
        if str_eq d domain
        then some (λ u.
          if str_eq u user
          then some vrs
          else elim (r.index_by_domain d) [ none ↦ none | some by_user ↦ by_user u ])
        else r.index_by_domain d;
  }

  -- `sort.Sort(sort.Reverse(ByLocation(vrs)))`
  abbrev pub insert : Router Payload → List (Router Payload) → List (Router Payload)
  insert r [] = r ∷ []
  insert r (x ∷ xs) =
      let rest = insert r xs in if bytes_lt x.location r.location then r ∷ x ∷ xs else x ∷ rest

  abbrev pub sort : List (Router Payload) → List (Router Payload)
  sort [] = []
  sort (x ∷ xs) = insert x (sort xs)

  abbrev pub is_listed : Bytes → List (Router Payload) → Bool
  is_listed path [] = false
  is_listed path (x ∷ xs) =
      let rest = is_listed path xs in if bytes_eq path x.location then true else rest

  unfoldable pub exist : String → Bytes → String → Routers Payload → Bool
  unfolding routers_of
  exist host path user r = is_listed path (routers_of r host user)

  -- `Add`: nothing where the configuration conflicts.
  unfoldable pub add :
      String → Bytes → String → Payload → Routers Payload → Option (Routers Payload)
  unfolding exist set_routers
  add domain location user payload r =
      if exist domain location user r
      then none
      else some (
          set_routers r domain user (
            sort (
              routers_of r domain user
              ++ record {
                domain = domain;
                location = location;
                http_user = user;
                payload = payload;
              }
                ∷ [])))

  unfoldable pub del : String → Bytes → String → Routers Payload → Routers Payload
  unfolding set_routers
  del domain location user r = elim (r.index_by_domain domain) [
    | none ↦ r
    | some by_user ↦ elim (by_user user) [
      | none ↦ r
      | some vrs ↦ set_routers r domain user (keep (λ vr. not (bytes_eq vr.location location)) vrs)
    ]
  ]

  -- The loop of `Get`, whose result `vr` is also the loop's variable.
  abbrev pub scan :
      Bytes → Option (Router Payload) → List (Router Payload) → Option (Router Payload) × Bool
  scan path vr [] = (vr, false)
  scan path vr (x ∷ xs) =
      let rest = scan path (some x) xs in
      if has_prefix path x.location then (some x, true) else rest

  unfoldable pub get : String → Bytes → String → Routers Payload → Option (Router Payload) × Bool
  unfolding routers_of
  get host path user r = scan path none (routers_of r host user)

  -- A call of `Add` that succeeds, or of `Del`.
  pub data Step : Routers Payload → Routers Payload → Type ℓ where
    adds :
        (domain : String) (location : Bytes) (user : String) (payload : Payload)
        {r s : Routers Payload}
        → add domain location user payload r ≡ some s
        → Step r s
    dels :
        (domain : String) (location : Bytes) (user : String) {r : Routers Payload}
        → Step r (del domain location user r)

  pub data Reachable : Routers Payload → Type ℓ where
    started : Reachable new_routers
    stepped : {r s : Routers Payload} → Reachable r → Step r s → Reachable s
