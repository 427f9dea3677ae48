-- ===== src/Web/Status/Laws.antt =====
-- Which rows the page with the state of the client's proxies shows.
use chml_frp_frp.Prelude.{String, ◌≡◌, ◌∙◌, List, map, [], ◌∷◌, ◌++◌, append_assoc, append-nil}
use chml_frp_frp.Web.Value.{Value, arr, obj, fields, Items, elements, Thrown, ok, iterate}
use chml_frp_frp.Web.Status.{Status, for_in, push_groups, fetch_status}

abbrev pub all_rows : List (String × Items) → List Value
all_rows [] = []
all_rows ((k, xs) ∷ groups) = elements xs ++ all_rows groups

-- An object that holds an array under each of its keys.
abbrev pub groups_json : List (String × Items) → Value
groups_json groups = obj (fields (map (λ g. (g.0, arr g.1)) groups))

push_groups_lem :
    (groups : List (String × Items)) (page : Status)
    → push_groups (for_in (groups_json groups)) page
      ≡ (ok tt, record page { rows = page.rows ++ all_rows groups })
unfolding push_groups for_in iterate
push_groups_lem [] page = rw append-nil
push_groups_lem ((k, xs) ∷ groups) page =
    push_groups_lem groups (record page { rows = page.rows ++ elements xs }) ∙ rw append_assoc

-- For an answer that holds an array under each of its keys the page shows the entries of all arrays,
-- in the order of the keys, in place of the rows that it showed before, and adds no message.
pub fetch_status_lem :
    (error_text : Thrown → String) (groups : List (String × Items)) (page : Status)
    → fetch_status error_text (ok (groups_json groups)) page
      ≡ record page { rows = all_rows groups }
unfolding fetch_status
fetch_status_lem error_text groups page = rw (push_groups_lem groups (record page { rows = [] }))
