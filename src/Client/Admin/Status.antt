-- ===== src/Client/Admin/Status.antt =====
-- client/admin_api.go: the answer to /api/status. Proxies come in any order, as they are read from a
-- map; the answer is a map too, whose keys the encoding sorts.
pub mod Sorted
pub mod Laws
use Prim.Native.Char.{code}
use Prim.Native.String
use chml_frp_frp.Prelude.{
  ℕ, String, Bool, true, false, ◌||◌, List, [], ◌∷◌, ◌++◌, map, ◌==◌, if◌then◌else◌, str_eq, ◌+++◌,
  show_nat, code_points,
}
use chml_frp_frp.Vhost.Router.{bytes_lt}
use chml_frp_frp.Web.Value.{Value, str, arr, obj, fields, items, Items}

-- What the status of a proxy takes from its configuration.
pub record BaseConfig : Type 0 where
  pub local_ip : String
  pub local_port : ℕ
  pub plugin : String

pub record WorkingStatus : Type 0 where
  pub name : String
  pub kind : String
  pub phase : String
  pub err : String
  pub cfg : BaseConfig
  pub remote_addr : String

pub record ProxyStatusResp : Type 0 where
  pub name : String
  pub kind : String
  pub status : String
  pub err : String
  pub local_addr : String
  pub plugin : String
  pub remote_addr : String

abbrev has_char : ℕ → String → Bool
has_char c String.[] = false
has_char c (String.◌∷◌ d s) = code d == c || has_char c s

-- `net.JoinHostPort(host, strconv.Itoa(port))`: a host with a colon stands in brackets.
unfoldable pub join_host_port : String → ℕ → String
join_host_port host port =
    if has_char 58 host
    then "[" +++ host +++ "]:" +++ show_nat port
    else host +++ ":" +++ show_nat port

unfoldable pub new_proxy_status_resp : String → WorkingStatus → ProxyStatusResp
new_proxy_status_resp server_addr status = record {
  name = status.name;
  kind = status.kind;
  status = status.phase;
  err = status.err;
  local_addr =
      if status.cfg.local_port == 0
      then ""
      else join_host_port status.cfg.local_ip status.cfg.local_port;
  plugin = status.cfg.plugin;
  remote_addr =
      if str_eq status.err ""
      then if str_eq status.kind "tcp" || str_eq status.kind "udp"
        then server_addr +++ status.remote_addr
        else status.remote_addr
      else "";
}

abbrev pub Groups : Type 0
Groups = List (String × List ProxyStatusResp)

-- `res[status.Type] = append(res[status.Type], resp)`
abbrev pub append_to : String → ProxyStatusResp → Groups → Groups
append_to k resp [] = (k, resp ∷ []) ∷ []
append_to k resp ((j, resps) ∷ groups) =
    let rest = append_to k resp groups in
    if str_eq j k then (j, resps ++ resp ∷ []) ∷ groups else (j, resps) ∷ rest

unfoldable pub group_statuses : String → Groups → List WorkingStatus → Groups
unfolding new_proxy_status_resp
group_statuses server_addr groups [] = groups
group_statuses server_addr groups (status ∷ rest) =
    group_statuses server_addr
      (append_to status.kind (new_proxy_status_resp server_addr status) groups) rest

-- `strings.Compare(s, t) < 0`
abbrev pub text_lt : String → String → Bool
text_lt s t = bytes_lt (code_points s) (code_points t)

-- Sorting by a text, for `sort.Slice` and for the keys of an encoded map.
module _ {ℓ} {A : Type ℓ} (key : A → String) where
  abbrev pub insert_by : A → List A → List A
  insert_by a [] = a ∷ []
  insert_by a (x ∷ xs) =
      let rest = insert_by a xs in if text_lt (key x) (key a) then x ∷ rest else a ∷ x ∷ xs

  abbrev pub sort_by : List A → List A
  sort_by [] = []
  sort_by (x ∷ xs) = insert_by x (sort_by xs)

abbrev pub name_of : ProxyStatusResp → String
name_of resp = resp.name

-- The loop that sorts each group by name.
abbrev pub sort_groups : Groups → Groups
sort_groups groups = map (λ g. (g.0, sort_by name_of g.1)) groups

-- `json.Marshal`, by the field tags of `ProxyStatusResp`.
unfoldable pub resp_json : ProxyStatusResp → Value
resp_json resp = obj (
    fields (
      ("name", str resp.name)
      ∷ ("type", str resp.kind)
      ∷ ("status", str resp.status)
      ∷ ("err", str resp.err)
      ∷ ("local_addr", str resp.local_addr)
      ∷ ("plugin", str resp.plugin)
      ∷ ("remote_addr", str resp.remote_addr)
      ∷ []))

abbrev pub key_of : String × List ProxyStatusResp → String
key_of g = g.0

-- The groups of the answer, in the order in which the encoding writes them.
unfoldable pub status_groups : String → List WorkingStatus → List (String × Items)
unfolding group_statuses resp_json
status_groups server_addr ps =
    map (λ g. (g.0, items (map resp_json g.1)))
      (sort_by key_of (sort_groups (group_statuses server_addr [] ps)))

unfoldable pub api_status : String → List WorkingStatus → Value
unfolding status_groups
api_status server_addr ps = obj (fields (map (λ g. (g.0, arr g.1)) (status_groups server_addr ps)))
