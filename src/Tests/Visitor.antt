-- ===== src/Tests/Visitor.antt =====
-- Visitors of a secret proxy on concrete inputs. The key is the text of the secret.
use mathlib.Core.List.{Memᴰ}
use mathlib.Core.Logic.{∥∥₁_elim}
use mathlib.Core.Bool.{Bool-set}
use chml_frp_frp.Prelude.{
  String, ◌≡◌, refl, sym, ◌∙◌, Bool, true, false, none, some, List, [], ◌∷◌, str_eq, eq_iff, pos, ℤ,
  if◌then◌else◌, Bool-cases, inl, inr,
}
use chml_frp_frp.Server.Visitor.{
  VisitorManager, VisitorConn, new_conn, stcp_run, stcp_close, not_found, new_internal_listener,
  not_allowed,
}
use chml_frp_frp.Server.Visitor.Laws.{
  IsContains, Outcome, new_conn-Outcome, with_queue, run_own, stcp_run-new_conn-stcp_close,
}

abbrev contains : String → List String → Bool
contains x [] = false
contains x (y ∷ ys) = let rest = contains x ys in if str_eq x y then true else rest

contains-IsContains : IsContains contains
contains-IsContains = record {
  finds = λ x xs h. ∣ in_list x xs h ∣₁;
  found = λ x xs m. ∥∥₁_elim m (λ p q. Bool-set _ _ p q) (λ d. of_list x xs d);
}
  where
    in_list : (x : String) (xs : List String) → contains x xs ≡ true → Memᴰ x xs
    in_list x [] h = absurd (cc)
    in_list x (y ∷ ys) h = elim (Bool-cases (str_eq x y)) [
      | inl e ↦ Memᴰ.head ((eq_iff x y).0 e)
      | inr e ↦ Memᴰ.tail (in_list x ys (sym (rw e refl) ∙ h))
    ]

    of_list : (x : String) (xs : List String) → Memᴰ x xs → contains x xs ≡ true
    of_list x [] d = elim d [ ]
    of_list x (y ∷ ys) (Memᴰ.head e) = rw ((eq_iff x y).1 e) refl
    of_list x (y ∷ ys) (Memᴰ.tail d) =
        rw (of_list x ys d)
          (elim (Bool-cases (str_eq x y)) [ inl e ↦ rw e refl | inr e ↦ rw e refl ])

abbrev key : String → ℤ → String
key sk timestamp = sk

abbrev empty : VisitorManager
empty = record { listeners = λ _. none; store = λ _. new_internal_listener }

-- A connection of a user who knows the secret.
abbrev from_user : String → VisitorConn
from_user user = record {
  conn = 7;
  timestamp = pos 0;
  sign_key = "secret";
  use_encryption = false;
  encryptable = true;
  visitor_user = user;
}

new_conn-Outcome_example :
    Outcome key contains "ssh"
      (from_user "eve")
      (run_own "ssh" "bob" "secret" 0 empty)
      (new_conn key contains "ssh" (from_user "eve") (run_own "ssh" "bob" "secret" 0 empty))
new_conn-Outcome_example =
    new_conn-Outcome key contains contains-IsContains "ssh" (from_user "eve")
      (run_own "ssh" "bob" "secret" 0 empty)

eve_runs :
    (new_conn key contains "ssh" (from_user "eve") (run_own "ssh" "bob" "secret" 0 empty)).0
    ≡ some not_allowed
unfolding new_conn stcp_run
eve_runs = refl

stcp_run-new_conn-stcp_close_example :
    (new_conn key contains "ssh" (from_user "bob") (run_own "ssh" "bob" "secret" 0 empty)
      ≡ (none, with_queue 0 (7 ∷ []) (run_own "ssh" "bob" "secret" 0 empty)))
    × ((new_conn key contains "ssh"
          (from_user "bob")
          (stcp_close "ssh" 0 (run_own "ssh" "bob" "secret" 0 empty))).0
        ≡ some not_found)
    × ((stcp_close "ssh" 0 (run_own "ssh" "bob" "secret" 0 empty)).listeners "web"
        ≡ empty.listeners "web")
stcp_run-new_conn-stcp_close_example =
    stcp_run-new_conn-stcp_close key contains contains-IsContains "ssh" "bob" "secret" 0 empty
      (from_user "bob") "web" refl refl refl refl
