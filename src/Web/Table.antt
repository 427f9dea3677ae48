-- ===== src/Web/Table.antt =====
-- The tables of web/frps/src/components/ProxyView.vue and web/frpc/src/components/Overview.vue: the
-- cells that each column shows of a row. The table component is not part of the repository: how it
-- sorts its rows by a property is a parameter, and the layout is left to it.
pub mod Order
use chml_frp_frp.Prelude.{String, Bool, true, List, [], ◌∷◌, map}
use chml_frp_frp.Web.Value.{Value, read}
use chml_frp_frp.Web.Proxy.{BaseProxy}
use chml_frp_frp.Web.View.{Item, expand_items, status_tag}

-- A value as it is, a size in words, or a tag of a kind around a value.
pub data Cell : Type 0 where
  shown : Value → Cell
  sized : String → Cell
  tagged : String → Value → Cell

-- A line of the table of proxies, with what opens below it: the traffic of a name, and a form.
pub record ProxyLine : Type 0 where
  pub cells : List (String × Cell)
  pub traffic_of : Value
  pub expanded : List Item

-- `file_size` is `Humanize.fileSize`.
module _ (file_size : Value → String) where
  format_traffic_in : BaseProxy → String
  format_traffic_in row = file_size row.traffic_in

  format_traffic_out : BaseProxy → String
  format_traffic_out row = file_size row.traffic_out

  pub proxy_cells : BaseProxy → List (String × Cell)
  unfolding format_traffic_in format_traffic_out
  proxy_cells row =
      ("Name", shown row.name)
      ∷ ("Port", shown row.port)
      ∷ ("Connections", shown row.conns)
      ∷ ("Traffic In", sized (format_traffic_in row))
      ∷ ("Traffic Out", sized (format_traffic_out row))
      ∷ ("ClientVersion", shown row.client_version)
      ∷ ("Status", tagged (status_tag row.status) row.status)
      ∷ []

  -- The line of a row.
  unfoldable pub proxy_line : String → BaseProxy → ProxyLine
  unfolding proxy_cells
  proxy_line proxy_type row = record {
    cells = proxy_cells row;
    traffic_of = row.name;
    expanded = expand_items proxy_type row;
  }

  -- The lines of some rows, in the order of the rows.
  unfoldable pub proxy_lines : String → List BaseProxy → List ProxyLine
  unfolding proxy_line
  proxy_lines proxy_type rows = map (proxy_line proxy_type) rows

  -- The table, which sorts its rows by default; `sort` takes the property and whether the order is
  -- ascending.
  unfoldable pub proxy_view :
      (String → Bool → List BaseProxy → List BaseProxy) → String → List BaseProxy → List ProxyLine
  unfolding proxy_lines
  proxy_view sort proxy_type rows = proxy_lines proxy_type (sort "name" true rows)

-- The label and the property of each column of the client's table.
unfoldable pub status_columns : List (String × String)
status_columns =
    ("name", "name")
    ∷ ("type", "type")
    ∷ ("local address", "local_addr")
    ∷ ("plugin", "plugin")
    ∷ ("remote address", "remote_addr")
    ∷ ("status", "status")
    ∷ ("info", "err")
    ∷ []

unfoldable pub status_cells : Value → List (String × Value)
unfolding status_columns
status_cells row = map (λ column. (column.0, read row column.1)) status_columns
