-- ===== src/Vhost/Muxer.antt =====
-- pkg/util/vhost/vhost.go: the search of a listener for the host, path and user of a request. The
-- payload of a router is its listener.
pub mod Laws
use chml_frp_frp.Prelude.{
  ℕ, String, Bool, true, false, Option, none, some, List, [], ◌∷◌, ◌++◌, ◌==◌, if◌then◌else◌, ◌+++◌,
}
use Prim.Native.Char.{Char, code}
use Prim.Native.String
use chml_frp_frp.Vhost.Router.{Bytes, Router, Routers, get}

-- A text put before the first of some parts.
abbrev extend : Char → List String → List String
extend c [] = String.◌∷◌ c String.[] ∷ []
extend c (part ∷ parts) = String.◌∷◌ c part ∷ parts

-- `strings.Split(name, ".")`
abbrev pub split_domain : String → List String
split_domain String.[] = "" ∷ []
split_domain (String.◌∷◌ c s) =
    let rest = split_domain s in if code c == 46 then "" ∷ rest else extend c rest

-- `strings.Join(parts, ".")`
abbrev pub join_domain : List String → String
join_domain [] = ""
join_domain (part ∷ []) = part
join_domain (part ∷ next ∷ parts) = part +++ "." +++ join_domain (next ∷ parts)

-- `if l, ok := ...; ok { return l, true }`, followed by the rest of the function.
abbrev pub or_else {ℓ} : {A : Type ℓ} → Option A → Option A → Option A
or_else (some l) rest = some l
or_else none rest = rest

module _ {ℓ} {Listener : Type ℓ} (r : Routers Listener) (path : Bytes) (user : String) where
  abbrev pub listener_of : Option (Router Listener) × Bool → Option Listener
  listener_of (vr, true) = elim vr [ none ↦ none | some v ↦ some v.payload ]
  listener_of (vr, false) = none

  -- A router for the user, or one for all users.
  unfoldable pub find_router : String → Option Listener
  find_router name = or_else (listener_of (get name path user r)) (listener_of (get name path "" r))

  -- The loop over the parts of the domain: at least three are left, and the first becomes "*".
  unfoldable pub find_wildcard : List String → Option Listener
  find_wildcard [] = none
  find_wildcard (a ∷ []) = none
  find_wildcard (a ∷ b ∷ []) = none
  find_wildcard (a ∷ b ∷ c ∷ parts) =
      let rest = find_wildcard (b ∷ c ∷ parts) in
      or_else (find_router (join_domain ("*" ∷ b ∷ c ∷ parts))) rest

  unfoldable pub get_listener : String → Option Listener
  get_listener name =
      or_else (find_router name) (or_else (find_wildcard (split_domain name)) (find_router "*"))
