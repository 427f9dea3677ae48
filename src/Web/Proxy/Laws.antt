-- ===== src/Web/Proxy/Laws.antt =====
-- What the rows of web/frps/src/utils/proxy.ts hold, field by field, for each class.
use chml_frp_frp.Prelude.{String, ◌≡◌, refl, Bool, true, false, arith, ◌+++◌, if◌then◌else◌}
use chml_frp_frp.Web.Value.{
  Value, bool, num, str, ok, throw, type_error, is_nullish, get, read, to_text, loosely_text, obj,
}
use chml_frp_frp.Web.Proxy.{
  BaseProxy, new_base, ProxyClass, tcp, udp, http, https, stcp, sudp, class_name, construct,
}

-- The property of a configuration, and a default where there is no configuration.
abbrev read_or : Value → Value → String → Value
read_or fallback conf k = if is_nullish conf then fallback else read conf k

abbrev has_port : ProxyClass → Bool
has_port tcp = true
has_port udp = true
has_port _ = false

abbrev has_domains : ProxyClass → Bool
has_domains http = true
has_domains https = true
has_domains _ = false

abbrev is_http : ProxyClass → Bool
is_http http = true
is_http _ = false

-- The row as a table of its fields: what each holds, given the class, the port and host of the
-- virtual host, the JSON object and its `conf`.
abbrev pub row_of : ProxyClass → Value → Value → Value → Value → BaseProxy
row_of c port host stats conf = record {
  name = read stats "name";
  kind = class_name c;
  encryption = read_or (bool false) conf "use_encryption";
  compression = read_or (bool false) conf "use_compression";
  conns = read stats "cur_conns";
  traffic_in = read stats "today_traffic_in";
  traffic_out = read stats "today_traffic_out";
  last_start_time = read stats "last_start_time";
  last_close_time = read stats "last_close_time";
  status = read stats "status";
  client_version = read stats "client_version";
  addr =
      if has_port c
      then if is_nullish conf then "" else ":" +++ to_text (read conf "remote_port")
      else "";
  port =
      if has_port c
      then read_or (num 0) conf "remote_port"
      else if has_domains c
      then port
      else num 0;
  custom_domains = if has_domains c then read_or (str "") conf "custom_domains" else str "";
  host_header_rewrite = if is_http c then read_or (str "") conf "host_header_rewrite" else str "";
  locations = if is_http c then read_or (str "") conf "locations" else str "";
  subdomain =
      if has_domains c
      then if is_nullish conf
        then ""
        else if loosely_text (read conf "subdomain") ""
        then ""
        else to_text (read conf "subdomain") +++ "." +++ to_text host
      else "";
}

-- A constructor throws a `TypeError` on `null` and `undefined`; on any other value it returns the row
-- that the table describes, whatever `conf` is.
pub construct_row :
    (c : ProxyClass) (port host stats : Value)
    → construct c port host stats ≡ (
        if is_nullish stats
        then throw type_error
        else ok (row_of c port host stats (read stats "conf")))
unfolding construct new_base get
construct_row c port host (obj fs) = ground arith
construct_row tcp port host _ = refl
construct_row udp port host _ = refl
construct_row http port host _ = refl
construct_row https port host _ = refl
construct_row stcp port host _ = refl
construct_row sudp port host _ = refl
