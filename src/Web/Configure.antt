-- ===== src/Web/Configure.antt =====
-- web/frpc/src/components/ClientConfigure.vue: the page that shows the configuration of the client,
-- and uploads and reloads it.
pub mod Laws
use chml_frp_frp.Prelude.{
  ℕ, String, Bool, true, false, List, [], ◌∷◌, ◌++◌, ◌+++◌, str_eq, if◌then◌else◌,
}
use chml_frp_frp.Web.Value.{Thrown}
use chml_frp_frp.Web.Page.{Message}

-- The outcome of a `fetch`: an answer with its status and its body, or no answer at all.
pub data Fetched : Type 0 where
  answered : ℕ → String → Fetched
  failed : Thrown → Fetched

pub data Request : Type 0 where
  get_config : Request
  put_config : String → Request
  reload : Request

pub record Configure : Type 0 where
  pub textarea : String
  pub requests : List Request
  pub messages : List Message

abbrev pub say : Configure → String → String → Configure
say page kind text = record page {
  messages = page.messages ++ record { text = text; kind = kind } ∷ [];
}

abbrev pub send : Configure → Request → Configure
send page request = record page { requests = page.requests ++ request ∷ [] }

-- `fetchData`: the body is shown whatever the status.
unfoldable pub fetch_config : Fetched → Configure → Configure
fetch_config (answered status body) page = record (send page get_config) { textarea = body }
fetch_config (failed e) page =
    say (send page get_config) "warning" "Get configure content from frpc failed!"

-- The outcomes that a run of `uploadConfig` meets: of the dialog, and of the two requests.
pub record Outcomes : Type 0 where
  pub confirmed : Bool
  pub put : Fetched
  pub reloaded : Fetched

module _ (error_text : Thrown → String) where
  pub after_reload : Fetched → Configure → Configure
  after_reload (answered status body) page = say page "success" "Success"
  after_reload (failed e) page =
      say page "warning" ("Reload frpc configure file error, " +++ error_text e)

  pub after_put : Fetched → Fetched → Configure → Configure
  unfolding after_reload
  after_put (answered status body) reloaded page = after_reload reloaded (send page reload)
  after_put (failed e) reloaded page =
      say page "warning" "Put config to frpc and hot reload failed!"

  pub upload_config : Outcomes → Configure → Configure
  unfolding after_put
  upload_config o page =
      if o.confirmed
      then if str_eq page.textarea ""
        then say page "warning" "Configure content can not be empty!"
        else after_put o.put o.reloaded (send page (put_config page.textarea))
      else say page "info" "Canceled"
