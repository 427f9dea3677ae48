-- ===== src/Server/Control/Search.antt =====
-- Which control a search by user finds, server/control.go and server/service.go.
use chml_frp_frp.Prelude.{
  ℕ, ◌≡◌, refl, sym, ap, ◌∙◌, true, false, none, some, List, [], ◌∷◌, ◌++◌, append_assoc, arith,
  All,
}
use mathlib.Core.Option
use chml_frp_frp.Vhost.Router.{Bytes, has_prefix}
use chml_frp_frp.Server.Control.{ControlManager, contains, search_by_id, close_user}

has_prefix-append : (part rest : Bytes) → has_prefix (part ++ rest) part ≡ true
has_prefix-append [] rest = refl
has_prefix-append (c ∷ part) rest = ground (arith, has_prefix-append part rest)

contains-prefix : (text part : Bytes) → has_prefix text part ≡ true → contains text part ≡ true
contains-prefix [] part h = h
contains-prefix (c ∷ text) part h = ground (arith, h)

contains-append : (before part after : Bytes) → contains (before ++ (part ++ after)) part ≡ true
contains-append [] part after = contains-prefix (part ++ after) part (has_prefix-append part after)
contains-append (c ∷ before) part after = ground (arith, contains-append before part after)

-- The run id of a client without one of its own: its user, a dash and a random text.
abbrev pub run_id_of : Bytes → Bytes → Bytes
run_id_of user random = user ++ b'-' ∷ random

abbrev pub with_dash : Bytes → Bytes
with_dash user = user ++ b'-' ∷ []

run_id_lem :
    (before user random : Bytes)
    → run_id_of (before ++ user) random ≡ before ++ (with_dash user ++ random)
run_id_lem before user random =
    append_assoc before user (b'-' ∷ random)
    ∙ ap (λ (l : Bytes). before ++ l) (sym (append_assoc user (b'-' ∷ []) random))

contains-run_id :
    (before user random : Bytes)
    → contains (run_id_of (before ++ user) random) (with_dash user) ≡ true
contains-run_id before user random =
    ap (λ (l : Bytes). contains l (with_dash user)) (run_id_lem before user random)
    ∙ contains-append before (with_dash user) random

module _ (user : Bytes) (cm : ControlManager) where
  -- No run id of a list contains the text and a dash.
  abbrev pub Without : List Bytes → Type 0
  Without keys = All (λ (k : Bytes). contains k (with_dash user) ≡ false) keys

  search-Without : (keys : List Bytes) → Without keys → search_by_id user keys cm ≡ none
  unfolding search_by_id
  search-Without [] h = refl
  search-Without (k ∷ ks) (first, later) = rw (first) (search-Without ks later)

  -- A result of the later keys stays.
  search_earlier :
      (earlier keys : List Bytes) (g : ℕ)
      → search_by_id user keys cm ≡ some g
      → search_by_id user (earlier ++ keys) cm ≡ some g
  unfolding search_by_id
  search_earlier [] keys g h = h
  search_earlier (k ∷ ks) keys g h = rw (search_earlier ks keys g h) (ground arith)

module _ (before user random : Bytes) (earlier later : List Bytes) (cm : ControlManager) (g : ℕ)
    (logged_in : cm.ctls_by_run_id (run_id_of (before ++ user) random) ≡ some g) where
  search_found :
      Without user cm later
      → search_by_id user (earlier ++ run_id_of (before ++ user) random ∷ later) cm ≡ some g
  unfolding search_by_id
  search_found none_later =
      search_earlier user cm earlier (run_id_of (before ++ user) random ∷ later) g
        (rw (contains-run_id before user random, search-Without user cm later none_later) logged_in)

  -- A client is logged in whose user ends with the text `user`. If the loop over the run ids meets no
  -- other one with that text and a dash after it, then the request to close the client of `user`
  -- closes this client, whatever stands in front of the text in its user, and it reports success.
  pub close_user-suffix :
      Without user cm later
      → Option.map
          (λ (d : ControlManager). (d.store g).stopped)
          (close_user user (earlier ++ run_id_of (before ++ user) random ∷ later) cm)
        ≡ some true
  unfolding close_user
  close_user-suffix none_later = rw (close_user, search_found none_later) (ground arith)
