-- ===== src/Tests/Admin.antt =====
-- The administration server of the client on concrete inputs.
use chml_frp_frp.Prelude.{
  String, ◌≡◌, refl, true, Option, none, some, List, [], ◌∷◌, code_points, if◌then◌else◌, show_nat,
}
use chml_frp_frp.Web.Status.{Status}
use chml_frp_frp.Client.Admin.Status.{WorkingStatus, new_proxy_status_resp, join_host_port}
use chml_frp_frp.Client.Admin.Config.{
  Text, done, shown_rows, join_lines, token_row, api_get_config, api_put_config, new_content,
  trim_space,
}
use chml_frp_frp.Client.Admin.Config.Laws.{has_common, has_template, RendersPlain, api_get-put}

abbrev status_of : String → String → String → WorkingStatus
status_of name kind err = record {
  name = name;
  kind = kind;
  phase = "running";
  err = err;
  cfg = record { local_ip = "::1"; local_port = 22; plugin = "" };
  remote_addr = ":6000";
}

abbrev statuses : List WorkingStatus
statuses = status_of "web" "udp" "" ∷ status_of "ssh" "tcp" "" ∷ status_of "dns" "udp" "down" ∷ []

abbrev page : Status
page = record { rows = []; messages = [] }

addresses :
    ((new_proxy_status_resp "1.2.3.4" (status_of "ssh" "tcp" "")).remote_addr ≡ "1.2.3.4:6000")
    × ((new_proxy_status_resp "1.2.3.4" (status_of "a" "http" "")).remote_addr ≡ ":6000")
    × ((new_proxy_status_resp "1.2.3.4" (status_of "ssh" "tcp" "x")).remote_addr ≡ "")
    × ((new_proxy_status_resp "1.2.3.4" (status_of "ssh" "tcp" "")).local_addr ≡ "[::1]:22")
unfolding new_proxy_status_resp join_host_port show_nat
addresses = (refl, refl, refl, refl)

abbrev old_file : Text
old_file = code_points "[common]\ntoken = abc\nserver_port = 7000"

abbrev uploaded : Text
uploaded = code_points "[common]\n token = guess\n server_port = 7001 "

stored : new_content old_file uploaded ≡ code_points "[common]\ntoken = abc\nserver_port = 7001"
unfolding new_content token_row shown_rows trim_space
stored = refl

-- Renders the texts without a template, and no others.
abbrev render_plain : Text → Option Text
render_plain s = if has_template s then none else some s

renders : RendersPlain render_plain
renders = record { plain = λ s h. rw h refl }

api_get-put_example :
    (content : Text) × (api_put_config (some uploaded) true (some old_file)
      ≡ (done [], some content))
    × (api_get_config render_plain true (some content) ≡ done (join_lines (shown_rows uploaded)))
    × (token_row content ≡ (if has_common (shown_rows uploaded) then token_row old_file else []))
unfolding new_content token_row shown_rows trim_space
api_get-put_example = api_get-put render_plain old_file uploaded renders (λ e. cc) refl
