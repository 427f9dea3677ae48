-- ===== src/Web/Status.antt =====
-- web/frpc/src/components/Overview.vue: the page with the state of the client's proxies.
pub mod Laws
use chml_frp_frp.Prelude.{String, List, [], ◌∷◌, ◌++◌, ◌+++◌}
use chml_frp_frp.Web.Value.{
  Value, undefined, null, nan, bool, num, str, arr, obj, Fields, end, field, elements, characters,
  Thrown, Result, ok, throw, iterate,
}
use chml_frp_frp.Web.Page.{Message, Handler, ◌>>=◌, ◌>>◌, attempt, modify, done, caught}

pub record Status : Type 0 where
  pub rows : List Value
  pub messages : List Message

values : Fields → List Value
values end = []
values (field k v fs) = v ∷ values fs

-- The values `json[key]` that `for (let key in json)` goes through.
unfoldable pub for_in : Value → List Value
unfolding values
for_in (obj fs) = values fs
for_in (arr xs) = elements xs
for_in (str s) = characters s
for_in _ = []

unfoldable pub push_groups : List Value → Handler Status (Unit {0})
push_groups [] = done
push_groups (group ∷ groups) = do
  entries ← attempt (iterate group)
  modify (λ page. record page { rows = page.rows ++ entries })
  push_groups groups

module _ (error_text : Thrown → String) where
  pub status_failure : Thrown → Message
  status_failure e = record {
    text = "Get status info from frpc failed!" +++ error_text e;
    kind = "warning";
  }

  -- `fetchData`, for the outcome of the request to /api/status.
  pub fetch_status : Result Value → Status → Status
  fetch_status answer page =
      caught (λ e p. record p { messages = p.messages ++ status_failure e ∷ [] }) (work page)
    where
      work : Handler Status (Unit {0})
      work = do
        json ← attempt answer
        modify (λ page. record page { rows = [] })
        push_groups (for_in json)
