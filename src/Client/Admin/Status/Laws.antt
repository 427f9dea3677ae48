-- ===== src/Client/Admin/Status/Laws.antt =====
-- Which proxies the answer to /api/status holds, and what the page of the client shows of it.
use mathlib.Core.List.{Perm}
use mathlib.Core.List.Perm
use chml_frp_frp.Prelude.{String, ◌≡◌, List, [], ◌∷◌, ◌++◌, map, All}
use chml_frp_frp.Web.Value.{Value, str}
use chml_frp_frp.Web.Status.{Status}
use chml_frp_frp.Web.Table.{status_cells}
use chml_frp_frp.Client.Admin.Status.{
  WorkingStatus, ProxyStatusResp, new_proxy_status_resp, Groups, group_statuses, sort_by, name_of,
  key_of, sort_groups,
}
use chml_frp_frp.Client.Admin.Status.Sorted.{Ascends}

abbrev pub flatten : Groups → List ProxyStatusResp
flatten [] = []
flatten (g ∷ gs) = g.1 ++ flatten gs

-- A group holds entries of its own type.
abbrev OfKind : String × List ProxyStatusResp → Type 0
OfKind g = All (λ (r : ProxyStatusResp). r.kind ≡ g.0) g.1

-- A group that the answer holds: of one type, and sorted by name.
abbrev pub IsGroup : String × List ProxyStatusResp → Type 0
IsGroup g = OfKind g × Ascends name_of g.1

-- The cells of the table, for an entry of the answer.
abbrev pub cells_of : ProxyStatusResp → List (String × Value)
cells_of r =
    ("name", str r.name)
    ∷ ("type", str r.kind)
    ∷ ("local address", str r.local_addr)
    ∷ ("plugin", str r.plugin)
    ∷ ("remote address", str r.remote_addr)
    ∷ ("status", str r.status)
    ∷ ("info", str r.err)
    ∷ []

-- The table of the page, from some groups.
pub record ListsStatuses (addr : String) (ps : List WorkingStatus) (page : Status) (groups : Groups)
    : Type 0 where
  pub table : map status_cells page.rows ≡ map cells_of (flatten groups)
  pub complete : Perm (flatten groups) (map (new_proxy_status_resp addr) ps)
  pub by_kind : Ascends key_of groups
  pub each : All IsGroup groups

sorted_groups : String → List WorkingStatus → Groups
sorted_groups addr ps = sort_by key_of (sort_groups (group_statuses addr [] ps))
