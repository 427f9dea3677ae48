-- ===== src/Web/Page.antt =====
-- A page of the dashboards: a state that handlers change step by step. A step may throw, and what
-- was changed before stays changed. A handler is what hangs on a `fetch`: it runs on the outcome of
-- the request, which is the JSON body whatever the status of the answer.
use chml_frp_frp.Prelude.{String}
use chml_frp_frp.Web.Value.{Thrown, Result, ok, throw}

-- `ElMessage`
pub record Message : Type 0 where
  pub text : String
  pub kind : String

abbrev pub Handler : Type 0 → Type 0 → Type 0
Handler S A = S → Result A × S

abbrev after {ℓ} :
    {S : Type 0} {A B : Type ℓ} → (A → S → Result B × S) → Result A × S → Result B × S
after f (ok a, s) = f a s
after f (throw e, s) = (throw e, s)

infixl 5 ◌>>=◌ ◌>>◌
abbrev pub ◌>>=◌ : {S A B : Type 0} → Handler S A → (A → Handler S B) → Handler S B
◌>>=◌ m f s = after f (m s)

abbrev pub ◌>>◌ : {S A B : Type 0} → Handler S A → Handler S B → Handler S B
◌>>◌ m k s = after (λ _. k) (m s)

abbrev pub attempt : {S A : Type 0} → Result A → Handler S A
attempt r s = (r, s)

abbrev pub modify : {S : Type 0} → (S → S) → Handler S (Unit {0})
modify f s = (ok tt, f s)

abbrev pub done : {S : Type 0} → Handler S (Unit {0})
done s = (ok tt, s)

-- A chain of promises with a `.catch` at its end, and one with none.
abbrev pub caught : {S : Type 0} → (Thrown → S → S) → Result (Unit {0}) × S → S
caught f (ok _, s) = s
caught f (throw e, s) = f e s

abbrev pub settled : {S : Type 0} → Result (Unit {0}) × S → S
settled (_, s) = s
