-- ===== src/Web/Proxies.antt =====
-- web/frps/src/components/ProxiesTCP.vue, ProxiesUDP.vue, ProxiesHTTP.vue, ProxiesHTTPS.vue,
-- ProxiesSTCP.vue, ProxiesSUDP.vue: the pages that list the proxies of one type.
pub mod Laws
use chml_frp_frp.Prelude.{String, Bool, true, false, not, ◌||◌, List, [], ◌∷◌, ◌++◌, if◌then◌else◌}
use chml_frp_frp.Web.Value.{
  Value, undefined, Result, ok, throw, is_nullish, get, iterate, loosely_num,
}
use chml_frp_frp.Web.Proxy.{BaseProxy, ProxyClass, tcp, udp, http, https, stcp, sudp, construct}
use chml_frp_frp.Web.Page.{Handler, ◌>>=◌, ◌>>◌, attempt, modify, done, settled}

-- `for (let proxyStats of json.proxies) proxies.value.push(new …)`
unfoldable pub push_rows :
    ProxyClass → Value → Value → List Value → Handler (List BaseProxy) (Unit {0})
push_rows c port host [] = done
push_rows c port host (stats ∷ rest) = do
  row ← attempt (construct c port host stats)
  modify (λ rows. rows ++ row ∷ [])
  push_rows c port host rest

unfoldable pub list_proxies :
    ProxyClass → Value → Value → Result Value → Handler (List BaseProxy) (Unit {0})
unfolding push_rows
list_proxies c port host answer = do
  json ← attempt answer
  proxies ← attempt (get json "proxies")
  all ← attempt (iterate proxies)
  push_rows c port host all

-- `fetchData` of the pages without a virtual host, for the outcome of the request to
-- ../api/proxy/:type.
unfoldable pub fetch_plain : ProxyClass → Result Value → List BaseProxy → List BaseProxy
fetch_plain c answer rows = settled (list_proxies c undefined undefined answer rows)

-- `fetchData` of the pages with a virtual host: first the request to ../api/serverinfo, which tells
-- the port under `key`; without a port the second request is not made.
unfoldable pub fetch_vhost :
    ProxyClass → String → Result Value → Result Value → List BaseProxy → List BaseProxy
fetch_vhost c key info answer rows = settled (work rows)
  where
    work : Handler (List BaseProxy) (Unit {0})
    work = do
      json ← attempt info
      port ← attempt (get json key)
      host ← attempt (get json "subdomain_host")
      if is_nullish port || loosely_num port 0 then done else list_proxies c port host answer

-- `fetchData` of each page.
unfoldable pub fetch_tcp : Result Value → List BaseProxy → List BaseProxy
unfolding fetch_plain
fetch_tcp answer rows = fetch_plain tcp answer rows

unfoldable pub fetch_udp : Result Value → List BaseProxy → List BaseProxy
unfolding fetch_plain
fetch_udp answer rows = fetch_plain udp answer rows

unfoldable pub fetch_http : Result Value → Result Value → List BaseProxy → List BaseProxy
fetch_http info answer rows = fetch_vhost http "vhost_http_port" info answer rows

unfoldable pub fetch_https : Result Value → Result Value → List BaseProxy → List BaseProxy
fetch_https info answer rows = fetch_vhost https "vhost_https_port" info answer rows

unfoldable pub fetch_stcp : Result Value → List BaseProxy → List BaseProxy
unfolding fetch_plain
fetch_stcp answer rows = fetch_plain stcp answer rows

unfoldable pub fetch_sudp : Result Value → List BaseProxy → List BaseProxy
unfolding fetch_plain
fetch_sudp answer rows = fetch_plain sudp answer rows

-- The page of a type, to speak of all pages at once.
unfoldable pub fetch_proxies :
    ProxyClass → Result Value → Result Value → List BaseProxy → List BaseProxy
unfolding fetch_tcp fetch_udp fetch_http fetch_https fetch_stcp fetch_sudp
fetch_proxies tcp info answer rows = fetch_tcp answer rows
fetch_proxies udp info answer rows = fetch_udp answer rows
fetch_proxies http info answer rows = fetch_http info answer rows
fetch_proxies https info answer rows = fetch_https info answer rows
fetch_proxies stcp info answer rows = fetch_stcp answer rows
fetch_proxies sudp info answer rows = fetch_sudp answer rows
