-- ===== src/Web/Proxies/Laws.antt =====
-- Which rows the pages of the proxies list.
use chml_frp_frp.Prelude.{
  String, ◌≡◌, sym, ◌∙◌, Bool, true, false, not, ◌||◌, List, [], ◌∷◌, ◌++◌, map, append_assoc,
  append-nil, arith, if◌then◌else◌,
}
use chml_frp_frp.Web.Value.{
  Value, undefined, ok, is_nullish, read, get-eq-read, iterate, arr, Items, elements, loosely_num,
}
use chml_frp_frp.Web.Proxy.{BaseProxy, ProxyClass, tcp, udp, http, https, stcp, sudp}
use chml_frp_frp.Web.Proxy.Laws.{row_of, construct_row}
use chml_frp_frp.Web.Page.{settled}
use chml_frp_frp.Web.Proxies.{push_rows, list_proxies, fetch_vhost, fetch_proxies}

-- The entries up to the first `null` or `undefined`.
abbrev pub present : List Value → List Value
present [] = []
present (v ∷ vs) = elim (is_nullish v) [ true ↦ [] | false ↦ v ∷ present vs ]

abbrev pub rows_of : ProxyClass → Value → Value → List Value → List BaseProxy
rows_of c port host vs = map (λ v. row_of c port host v (read v "conf")) vs

push_rows_lem :
    (c : ProxyClass) (port host : Value) (vs : List Value) (rows : List BaseProxy)
    → settled (push_rows c port host vs rows) ≡ rows ++ rows_of c port host (present vs)
unfolding push_rows
push_rows_lem c port host [] rows = sym (append-nil rows)
push_rows_lem c port host (v ∷ vs) rows =
    let row = row_of c port host v (read v "conf") in
    ground (
      arith,
      construct_row c port host v,
      push_rows_lem c port host vs (rows ++ row ∷ []),
      append_assoc rows (row ∷ []) (rows_of c port host (present vs)),
      append-nil rows,
    )

module _ (c : ProxyClass) (port host json : Value) (xs : Items) (rows : List BaseProxy)
    (object : is_nullish json ≡ false) (listed : read json "proxies" ≡ arr xs) where
  list_proxies_lem :
      settled (list_proxies c port host (ok json) rows)
      ≡ rows ++ rows_of c port host (present (elements xs))
  unfolding list_proxies iterate
  list_proxies_lem =
      rw (get-eq-read json "proxies" object, listed) (push_rows_lem c port host (elements xs) rows)

-- The port of the virtual host that a page needs, and whether it is configured.
abbrev pub vhost_port : ProxyClass → Value → Value
vhost_port http info = read info "vhost_http_port"
vhost_port https info = read info "vhost_https_port"
vhost_port _ info = undefined

abbrev pub vhost_name : ProxyClass → Value → Value
vhost_name http info = read info "subdomain_host"
vhost_name https info = read info "subdomain_host"
vhost_name _ info = undefined

abbrev pub lists : ProxyClass → Value → Bool
lists http info = not (is_nullish (vhost_port http info) || loosely_num (vhost_port http info) 0)
lists https info = not (is_nullish (vhost_port https info) || loosely_num (vhost_port https info) 0)
lists _ info = true

module _ (info json : Value) (xs : Items) (rows : List BaseProxy) (served : is_nullish info ≡ false)
    (object : is_nullish json ≡ false) (listed : read json "proxies" ≡ arr xs) where
  fetch_vhost_lem :
      (c : ProxyClass) (key : String)
      → fetch_vhost c key (ok info) (ok json) rows ≡ (
          if is_nullish (read info key) || loosely_num (read info key) 0
          then rows
          else rows
            ++ rows_of c (read info key) (read info "subdomain_host") (present (elements xs)))
  unfolding fetch_vhost
  fetch_vhost_lem c key =
      let filled =
        list_proxies_lem c (read info key) (read info "subdomain_host") json xs rows object
          listed in
      rw (get-eq-read info key served, get-eq-read info "subdomain_host" served)
        (ground (arith, filled))

  -- A page adds a row for each entry of the answer, in its order, up to the first entry that is
  -- `null` or `undefined`; the pages of the types with a virtual host add none where the server
  -- has no port for it.
  pub fetch_proxies_lem :
      (c : ProxyClass)
      → fetch_proxies c (ok info) (ok json) rows ≡ (
          if lists c info
          then rows ++ rows_of c (vhost_port c info) (vhost_name c info) (present (elements xs))
          else rows)
  unfolding fetch_proxies
  fetch_proxies_lem http = fetch_vhost_lem http "vhost_http_port" ∙ ground arith
  fetch_proxies_lem https = fetch_vhost_lem https "vhost_https_port" ∙ ground arith
  fetch_proxies_lem tcp = list_proxies_lem tcp undefined undefined json xs rows object listed
  fetch_proxies_lem udp = list_proxies_lem udp undefined undefined json xs rows object listed
  fetch_proxies_lem stcp = list_proxies_lem stcp undefined undefined json xs rows object listed
  fetch_proxies_lem sudp = list_proxies_lem sudp undefined undefined json xs rows object listed
