-- ===== src/Vhost/Muxer/Laws.antt =====
-- Which listener a request gets, by the order of the hosts that are tried.
use chml_frp_frp.Prelude.{
  ℕ, String, ◌≡◌, refl, sym, subst, ◌⊎◌, inl, inr, Bool, true, false, Option, none, some, List, [],
  ◌∷◌, ◌++◌, ◌+++◌, arith, get_elem?,
}
use chml_frp_frp.Vhost.Router.{Bytes, Router, Routers, routers_of, get, has_prefix, Reachable}
use chml_frp_frp.Vhost.Router.Found.{Found, Longest}
use chml_frp_frp.Vhost.Router.Laws.{get-Found}
use chml_frp_frp.Vhost.Muxer.{
  split_domain, join_domain, listener_of, find_router, find_wildcard, get_listener, or_else,
}

-- The hosts that stand for a request: its own, the wildcards of the domains above it that have two
-- parts or more, and the one for all domains.
abbrev pub wildcards : List String → List String
wildcards [] = []
wildcards (a ∷ []) = []
wildcards (a ∷ b ∷ []) = []
wildcards (a ∷ b ∷ c ∷ parts) = ("*." +++ join_domain (b ∷ c ∷ parts)) ∷ wildcards (b ∷ c ∷ parts)

abbrev pub hosts : String → List String
hosts name = name ∷ (wildcards (split_domain name) ++ "*" ∷ [])

module _ {ℓ} {Listener : Type ℓ} (r : Routers Listener) (path : Bytes) (user : String) where
  abbrev pub Misses : String → String → Type ℓ
  Misses name u =
      (x : Router Listener) (i : ℕ)
      → get_elem? (routers_of r name u) i ≡ some x
      → has_prefix path x.location ≡ false

  -- The listener of a router with the longest location: one for the user or, where none of these
  -- matches, one for all users.
  pub record ServedBy (name : String) (l : Listener) : Type ℓ where
    pub by_user : String
    pub same_user : (by_user ≡ user) ⊎ ((by_user ≡ "") × Misses name user)
    pub vr : Router Listener
    pub position : ℕ
    pub at_position : get_elem? (routers_of r name by_user) position ≡ some vr
    pub same_listener : vr.payload ≡ l
    pub longest : Longest path vr (routers_of r name by_user)

  abbrev pub MissesBoth : String → Type ℓ
  MissesBoth name = Misses name user × Misses name ""

  -- The first of some hosts with a matching router serves the request.
  pub data Serves : Option Listener → List String → Type ℓ where
    none_left : Serves none []
    served :
        {name : String} {l : Listener} {names : List String}
        → ServedBy name l
        → Serves (some l) (name ∷ names)
    passes :
        {name : String} {o : Option Listener} {names : List String}
        → MissesBoth name
        → Serves o names
        → Serves o (name ∷ names)

  -- What one search with `Get` tells.
  Searched : String → String → Option Listener → Type ℓ
  Searched name u (some l) =
      (x : Router Listener) × ((i : ℕ) × (get_elem? (routers_of r name u) i ≡ some x))
      × (x.payload ≡ l)
      × Longest path x (routers_of r name u)
  Searched name u none = Misses name u

  Found-Searched :
      (name u : String) (o : Option (Router Listener) × Bool)
      → Found path o (routers_of r name u)
      → Searched name u (listener_of r path user o)
  unfolding Searched
  Found-Searched name u (none, true) (x, e, at, longest) = absurd (ground arith)
  Found-Searched name u (some v, true) (x, e, at, longest) = (x, at, cc, longest)
  Found-Searched name u (vr, false) f = f

  serve_here :
      (name : String) (a b o : Option Listener) (names : List String)
      → Searched name user a
      → Searched name "" b
      → Serves o names
      → Serves (or_else (or_else a b) o) (name ∷ names)
  unfolding Searched
  serve_here name (some l) b o names (x, (i, at), e, longest) h rest = served (record {
    by_user = user;
    same_user = inl refl;
    vr = x;
    position = i;
    at_position = at;
    same_listener = e;
    longest = longest;
  })
  serve_here name none (some l) o names miss (x, (i, at), e, longest) rest = served (record {
    by_user = "";
    same_user = inr (refl, miss);
    vr = x;
    position = i;
    at_position = at;
    same_listener = e;
    longest = longest;
  })
  serve_here name none none o names miss h rest = passes (miss, h) rest

  or_else_assoc : (a b c : Option Listener) → or_else (or_else a b) c ≡ or_else a (or_else b c)
  or_else_assoc none b c = refl
  or_else_assoc (some l) b c = refl

  or_else-none : (a : Option Listener) → or_else a none ≡ a
  or_else-none none = refl
  or_else-none (some l) = refl

  module _ (reach : Reachable r) where
    serve_host :
        (name : String) (o : Option Listener) (names : List String)
        → Serves o names
        → Serves (or_else (find_router r path user name) o) (name ∷ names)
    unfolding find_router
    serve_host name o names rest =
        serve_here name (listener_of r path user (get name path user r))
          (listener_of r path user (get name path "" r)) o names
          (Found-Searched name user (get name path user r) (get-Found r name path user reach))
          (Found-Searched name "" (get name path "" r) (get-Found r name path "" reach)) rest

    serve_wildcards :
        (parts : List String) (o : Option Listener) (names : List String)
        → Serves o names
        → Serves (or_else (find_wildcard r path user parts) o) (wildcards parts ++ names)
    unfolding find_wildcard
    serve_wildcards [] o names rest = rest
    serve_wildcards (a ∷ []) o names rest = rest
    serve_wildcards (a ∷ b ∷ []) o names rest = rest
    serve_wildcards (a ∷ b ∷ c ∷ parts) o names rest =
        let host = join_domain ("*" ∷ b ∷ c ∷ parts) in
        let next = b ∷ c ∷ parts in
        subst (λ t. Serves t (host ∷ (wildcards next ++ names)))
          (sym (or_else_assoc (find_router r path user host) (find_wildcard r path user next) o))
          (serve_host host (or_else (find_wildcard r path user next) o) (wildcards next ++ names)
            (serve_wildcards (b ∷ c ∷ parts) o names rest))

    -- For routers that the code can reach: the hosts of a request are tried in the order of the
    -- request's own host, its wildcards from the longest to the shortest, and "*". The first one with
    -- a router for the user or for all users whose location is a prefix of the path serves the
    -- request: by a router for the user if one matches, and by one for all users only if none does,
    -- and among these by the longest such location. Each host before it has no such router; and
    -- without any such host there is no listener.
    pub get_listener-Serves : (name : String) → Serves (get_listener r path user name) (hosts name)
    unfolding get_listener
    get_listener-Serves name =
        serve_host name
          (or_else (find_wildcard r path user (split_domain name)) (find_router r path user "*"))
          (wildcards (split_domain name) ++ "*" ∷ [])
          (serve_wildcards (split_domain name) (find_router r path user "*") ("*" ∷ []) (
            subst (λ t. Serves t ("*" ∷ [])) (or_else-none (find_router r path user "*"))
              (serve_host "*" none [] none_left)))
