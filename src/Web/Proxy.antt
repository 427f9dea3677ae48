-- ===== src/Web/Proxy.antt =====
-- web/frps/src/utils/proxy.ts: the rows of the proxy tables, one class for each type of proxy. A
-- constructor reads the JSON object of /api/proxy/:type and may throw.
pub mod Laws
use chml_frp_frp.Prelude.{String, ◌≡◌, refl, Bool, true, false, not, ◌+++◌, if◌then◌else◌}
use chml_frp_frp.Web.Value.{
  Value, undefined, null, bool, num, str, Result, ok, throw, ◌>>=◌, ◌>>◌, is_nullish, get, to_text,
  loosely_text,
}

-- The fields that every class fills, and those that only some fill. A field that is assigned from
-- the JSON object holds whatever value stands there.
pub record BaseProxy : Type 0 where
  pub name : Value
  pub kind : String
  pub encryption : Value
  pub compression : Value
  pub conns : Value
  pub traffic_in : Value
  pub traffic_out : Value
  pub last_start_time : Value
  pub last_close_time : Value
  pub status : Value
  pub client_version : Value
  pub addr : String
  pub port : Value
  pub custom_domains : Value
  pub host_header_rewrite : Value
  pub locations : Value
  pub subdomain : String

-- The two flags, from `proxyStats.conf` where there is one.
flags : Value → Result (Value × Value)
flags conf = if is_nullish conf then ok (bool false, bool false) else do
  encryption ← get conf "use_encryption"
  compression ← get conf "use_compression"
  ok (encryption, compression)

unfoldable pub new_base : Value → Result BaseProxy
unfolding flags
new_base stats = do
  name ← get stats "name"
  conf ← get stats "conf"
  both ← flags conf
  conns ← get stats "cur_conns"
  traffic_in ← get stats "today_traffic_in"
  traffic_out ← get stats "today_traffic_out"
  started ← get stats "last_start_time"
  closed ← get stats "last_close_time"
  status ← get stats "status"
  version ← get stats "client_version"
  ok (record {
    name = name;
    kind = "";
    encryption = both.0;
    compression = both.1;
    conns = conns;
    traffic_in = traffic_in;
    traffic_out = traffic_out;
    last_start_time = started;
    last_close_time = closed;
    status = status;
    client_version = version;
    addr = "";
    port = num 0;
    custom_domains = str "";
    host_header_rewrite = str "";
    locations = str "";
    subdomain = "";
  })

-- `this.addr` and `this.port` of the classes with a port of their own.
remote : BaseProxy → Value → Result BaseProxy
remote row conf = if is_nullish conf then ok (record row { addr = ""; port = num 0 }) else do
  port ← get conf "remote_port"
  ok (record row { addr = ":" +++ to_text port; port = port })

unfoldable pub new_tcp : Value → Result BaseProxy
unfolding remote
new_tcp stats = do
  row ← new_base stats
  conf ← get stats "conf"
  remote (record row { kind = "tcp" }) conf

unfoldable pub new_udp : Value → Result BaseProxy
unfolding remote
new_udp stats = do
  row ← new_base stats
  conf ← get stats "conf"
  remote (record row { kind = "udp" }) conf

-- `subdomain + '.' + subdomain_host`, where a subdomain is configured.
unfoldable pub full_subdomain : Value → Value → String
full_subdomain subdomain host =
    if not (loosely_text subdomain "") then to_text subdomain +++ "." +++ to_text host else ""

http_conf : BaseProxy → Value → Value → Result BaseProxy
unfolding full_subdomain
http_conf row host conf =
    if is_nullish conf
    then ok (record row {
      custom_domains = str "";
      host_header_rewrite = str "";
      subdomain = "";
      locations = str "";
    })
    else do
      domains ← get conf "custom_domains"
      rewrite ← get conf "host_header_rewrite"
      locations ← get conf "locations"
      subdomain ← get conf "subdomain"
      ok (record row {
        custom_domains = domains;
        host_header_rewrite = rewrite;
        locations = locations;
        subdomain = full_subdomain subdomain host;
      })

unfoldable pub new_http : Value → Value → Value → Result BaseProxy
unfolding http_conf
new_http stats port host = do
  row ← new_base stats
  conf ← get stats "conf"
  http_conf (record row { kind = "http"; port = port }) host conf

https_conf : BaseProxy → Value → Value → Result BaseProxy
unfolding full_subdomain
https_conf row host conf =
    if is_nullish conf then ok (record row { custom_domains = str ""; subdomain = "" }) else do
      domains ← get conf "custom_domains"
      subdomain ← get conf "subdomain"
      ok (record row { custom_domains = domains; subdomain = full_subdomain subdomain host })

unfoldable pub new_https : Value → Value → Value → Result BaseProxy
unfolding https_conf
new_https stats port host = do
  row ← new_base stats
  conf ← get stats "conf"
  https_conf (record row { kind = "https"; port = port }) host conf

unfoldable pub new_stcp : Value → Result BaseProxy
new_stcp stats = do row ← new_base stats; ok (record row { kind = "stcp" })

unfoldable pub new_sudp : Value → Result BaseProxy
new_sudp stats = do row ← new_base stats; ok (record row { kind = "sudp" })

-- The classes, to speak of all constructors at once.
pub data ProxyClass : Type 0 where
  tcp udp http https stcp sudp : ProxyClass

abbrev pub class_name : ProxyClass → String
class_name tcp = "tcp"
class_name udp = "udp"
class_name http = "http"
class_name https = "https"
class_name stcp = "stcp"
class_name sudp = "sudp"

-- `new` of a class; the classes without a virtual host take no port and no host.
unfoldable pub construct : ProxyClass → Value → Value → Value → Result BaseProxy
unfolding new_tcp new_udp new_http new_https new_stcp new_sudp
construct tcp port host stats = new_tcp stats
construct udp port host stats = new_udp stats
construct http port host stats = new_http stats port host
construct https port host stats = new_https stats port host
construct stcp port host stats = new_stcp stats
construct sudp port host stats = new_sudp stats
