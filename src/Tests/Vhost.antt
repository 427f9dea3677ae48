-- ===== src/Tests/Vhost.antt =====
-- The routers of a virtual host on concrete inputs.
use chml_frp_frp.Prelude.{ℕ, ◌≡◌, refl, true, false, none, some, List, [], ◌∷◌}
use chml_frp_frp.Vhost.Router.{
  Bytes, Router, Routers, new_routers, routers_of, set_routers, exist, add, get, Reachable, started,
  stepped, adds,
}
use chml_frp_frp.Vhost.Muxer.{get_listener, find_wildcard, find_router}
use chml_frp_frp.Vhost.Muxer.Laws.{Serves, get_listener-Serves}
use chml_frp_frp.Vhost.Router.Found.{Found}
use chml_frp_frp.Vhost.Router.Laws.{router, get-Found}

-- "/" and "/api", of one domain and any user.
abbrev root : Bytes
root = 47 ∷ []

abbrev api : Bytes
api = 47 ∷ 97 ∷ 112 ∷ 105 ∷ []

abbrev root_list : List (Router ℕ)
root_list = router "a.com" root "" 1 ∷ []

abbrev both_list : List (Router ℕ)
both_list = router "a.com" api "" 2 ∷ router "a.com" root "" 1 ∷ []

abbrev with_root : Routers ℕ
with_root = set_routers new_routers "a.com" "" root_list

abbrev with_both : Routers ℕ
with_both = set_routers with_root "a.com" "" both_list

root_added : add "a.com" root "" 1 new_routers ≡ some with_root
unfolding add exist routers_of new_routers
root_added = refl

api_added : add "a.com" api "" 2 with_root ≡ some with_both
unfolding add exist routers_of new_routers set_routers
api_added = refl

with_root-Reachable : Reachable with_root
with_root-Reachable = stepped started (adds "a.com" root "" 1 root_added)

with_both-Reachable : Reachable with_both
with_both-Reachable = stepped with_root-Reachable (adds "a.com" api "" 2 api_added)

get_runs :
    (get "a.com" (47 ∷ 97 ∷ 112 ∷ 105 ∷ 47 ∷ 120 ∷ []) "" with_both
      ≡ (some (router "a.com" api "" 2), true))
    × (get "a.com" (47 ∷ 97 ∷ []) "" with_both ≡ (some (router "a.com" root "" 1), true))
    × (get "a.com" [] "" with_both ≡ (some (router "a.com" root "" 1), false))
unfolding get routers_of new_routers set_routers
get_runs = (refl, refl, refl)

get-Found_example :
    Found (47 ∷ 97 ∷ []) (get "a.com" (47 ∷ 97 ∷ []) "" with_both) (routers_of with_both "a.com" "")
get-Found_example = get-Found with_both "a.com" (47 ∷ 97 ∷ []) "" with_both-Reachable

-- A listener of all hosts below example.com.
abbrev wild : Routers ℕ
wild = set_routers new_routers "*.example.com" "" (router "*.example.com" root "" 7 ∷ [])

wild_added : add "*.example.com" root "" 7 new_routers ≡ some wild
unfolding add exist routers_of new_routers
wild_added = refl

wild_runs :
    (get_listener wild api "bob" "a.b.example.com" ≡ some 7)
    × (get_listener wild api "bob" "example.com" ≡ none)
unfolding get_listener find_wildcard find_router get routers_of new_routers set_routers
wild_runs = (refl, refl)

get_listener-Serves_example :
    Serves wild api "bob"
      (get_listener wild api "bob" "a.b.example.com")
      ("a.b.example.com" ∷ "*.b.example.com" ∷ "*.example.com" ∷ "*" ∷ [])
get_listener-Serves_example =
    get_listener-Serves wild api "bob" (stepped started (adds "*.example.com" root "" 7 wild_added))
      "a.b.example.com"
