-- ===== src/Web/Configure/Laws.antt =====
-- Which requests the page of the client's configuration sends, and when it reports success.
use chml_frp_frp.Prelude.{
  String, ◌≡◌, ◌≢◌, ◌↔◌, Bool, true, false, List, [], ◌∷◌, ◌++◌, ◌+++◌, arith, append-nil,
  append_assoc, str_eq, eq_iff, if◌then◌else◌,
}
use chml_frp_frp.Web.Value.{Thrown}
use chml_frp_frp.Web.Page.{Message}
use chml_frp_frp.Web.Configure.{
  Fetched, answered, failed, Request, put_config, reload, Configure, Outcomes, upload_config,
}

-- An outcome with an answer, whatever its status.
abbrev pub is_answered : Fetched → Bool
is_answered (answered status body) = true
is_answered (failed e) = false

abbrev pub success : Message
success = record { text = "Success"; kind = "success" }

-- The requests of a run: the text is sent once the dialog is confirmed and only if it is not empty,
-- and the client is told to reload only after an answer to that.
abbrev pub requests_of : Outcomes → String → List Request
requests_of o text =
    if o.confirmed
    then if str_eq text ""
      then []
      else if is_answered o.put
      then put_config text ∷ reload ∷ []
      else put_config text ∷ []
    else []

-- The message that ends a run.
abbrev pub message_of : (Thrown → String) → Outcomes → String → Message
message_of error_text o text =
    if o.confirmed
    then if str_eq text ""
      then record { text = "Configure content can not be empty!"; kind = "warning" }
      else put_message o.put o.reloaded
    else record { text = "Canceled"; kind = "info" }
  where
    reload_message : Fetched → Message
    reload_message (answered status body) = success
    reload_message (failed e) = record {
      text = "Reload frpc configure file error, " +++ error_text e;
      kind = "warning";
    }

    put_message : Fetched → Fetched → Message
    put_message (answered status body) reloaded = reload_message reloaded
    put_message (failed e) reloaded = record {
      text = "Put config to frpc and hot reload failed!";
      kind = "warning";
    }

module _ (error_text : Thrown → String) (o : Outcomes) (page : Configure) where
  -- A run of the upload sends the text of the page only if the dialog is confirmed and the text is
  -- not empty, asks for a reload only after an answer to that request, keeps the text, and adds the
  -- one message that the outcomes call for.
  pub upload_config_lem : upload_config error_text o page ≡ record page {
    requests = page.requests ++ requests_of o page.textarea;
    messages = page.messages ++ message_of error_text o page.textarea ∷ [];
  }
  unfolding upload_config
  upload_config_lem = ground (
    arith,
    append-nil page.requests,
    append_assoc page.requests (put_config page.textarea ∷ []) (reload ∷ []),
  )

  message_of-success : (message_of error_text o page.textarea ≡ success) ↔ (
      (o.confirmed ≡ true)
      × (page.textarea ≢ "")
      × (is_answered o.put ≡ true)
      × (is_answered o.reloaded ≡ true))
  message_of-success =
      ground (arith, eq_iff page.textarea "", eq_iff "info" "success", eq_iff "warning" "success")

  -- The message of a run is that of a success exactly when the dialog is confirmed, the text is not
  -- empty and both requests get an answer. The statuses of the answers play no part: a configuration
  -- that the client rejects is reported as a success too.
  pub upload_config-success_iff :
      (m : Message) × ((upload_config error_text o page).messages ≡ page.messages ++ m ∷ [])
      × ((m ≡ success) ↔ (
          (o.confirmed ≡ true)
          × (page.textarea ≢ "")
          × (is_answered o.put ≡ true)
          × (is_answered o.reloaded ≡ true)))
  upload_config-success_iff =
      (message_of error_text o page.textarea, rw upload_config_lem, message_of-success)
