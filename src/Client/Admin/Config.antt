-- ===== src/Client/Admin/Config.antt =====
-- client/admin_api.go and pkg/config/value.go: reading and storing the configuration file of the
-- client. A text is the list of its code points. The file system answers by arguments: what the file holds, if it can be read,
-- and whether it can be written.
pub mod Lines
pub mod Laws
use chml_frp_frp.Prelude.{
  ℕ, String, Bool, true, false, ◌&&◌, ◌||◌, Option, none, some, List, [], ◌∷◌, ◌++◌, map, leb, ◌==◌,
  if◌then◌else◌, code_points,
}
use chml_frp_frp.Vhost.Router.{has_prefix}

abbrev pub Text : Type 0
Text = List ℕ

abbrev pub newline : ℕ
newline = 10

-- `strings.Split(content, "\n")`
abbrev pub cons_first : ℕ → List Text → List Text
cons_first c [] = (c ∷ []) ∷ []
cons_first c (row ∷ rows) = (c ∷ row) ∷ rows

abbrev pub split_lines : Text → List Text
split_lines [] = [] ∷ []
split_lines (c ∷ s) =
    let rows = split_lines s in if c == newline then [] ∷ rows else cons_first c rows

-- `strings.Join(rows, "\n")`
abbrev pub join_lines : List Text → Text
join_lines [] = []
join_lines (row ∷ []) = row
join_lines (row ∷ next ∷ rows) = row ++ newline ∷ join_lines (next ∷ rows)

-- `unicode.IsSpace`
abbrev pub is_space : ℕ → Bool
is_space c =
    leb 9 c && leb c 13
    || c == 32
    || c == 133
    || c == 160
    || c == 5760
    || leb 8192 c && leb c 8202
    || c == 8232
    || c == 8233
    || c == 8239
    || c == 8287
    || c == 12288

-- `strings.TrimSpace`
abbrev pub trim_start : Text → Text
trim_start [] = []
trim_start (c ∷ s) = let rest = trim_start s in if is_space c then rest else c ∷ s

abbrev pub cons_unless_blank : ℕ → Text → Text
cons_unless_blank c [] = if is_space c then [] else c ∷ []
cons_unless_blank c (d ∷ s) = c ∷ d ∷ s

abbrev pub trim_end : Text → Text
trim_end [] = []
trim_end (c ∷ s) = cons_unless_blank c (trim_end s)

unfoldable pub trim_space : Text → Text
trim_space s = trim_end (trim_start s)

abbrev pub is_token : Text → Bool
is_token row = has_prefix row (code_points "token")

abbrev pub is_common : Text → Bool
is_common row = has_prefix row (code_points "[common]")

-- The loop that leaves out the rows of the token, on trimmed rows.
abbrev pub without_token : List Text → List Text
without_token [] = []
without_token (row ∷ rows) =
    let rest = without_token rows in if is_token row then rest else row ∷ rest

unfoldable pub shown_rows : Text → List Text
shown_rows content = without_token (map trim_space (split_lines content))

pub data ConfigError : Type 0 where
  no_config_file unreadable no_body empty_body unwritable : ConfigError

pub data Response : Type 0 where
  done : Text → Response
  rejected : ℕ → ConfigError → Response

-- `render` is `RenderContent` of pkg/config/value.go: the library fills in the templates of a text
-- with the variables of the environment, if it can be parsed and executed.
module _ (render : Text → Option Text) where
  -- `GetRenderedConfFromFile`
  unfoldable pub get_rendered_conf_from_file : Option Text → Option Text
  get_rendered_conf_from_file none = none
  get_rendered_conf_from_file (some content) = render content

  abbrev shown_config : Option Text → Response
  shown_config none = rejected 400 unreadable
  shown_config (some content) = done (join_lines (shown_rows content))

  -- `apiGetConfig`, for a client with or without a configuration file.
  unfoldable pub api_get_config : Bool → Option Text → Response
  unfolding get_rendered_conf_from_file
  api_get_config false file = rejected 400 no_config_file
  api_get_config true file = shown_config (get_rendered_conf_from_file file)

-- The first row of the token, trimmed; the code keeps it as a text that is empty if there is none.
abbrev pub first_token : List Text → Text
first_token [] = []
first_token (row ∷ rows) = let rest = first_token rows in if is_token row then row else rest

unfoldable pub token_row : Text → Text
token_row content = first_token (map trim_space (split_lines content))

-- The loop that puts the token below each row that starts with `[common]`.
abbrev pub insert_token : Text → List Text → List Text
insert_token token [] = []
insert_token token (row ∷ rows) =
    let rest = insert_token token rows in if is_common row then row ∷ token ∷ rest else row ∷ rest

abbrev pub new_rows : Text → List Text → List Text
new_rows [] rows = rows
new_rows (c ∷ token) rows = insert_token (c ∷ token) rows

unfoldable pub new_content : Text → Text → Text
new_content old body = join_lines (new_rows (token_row old) (shown_rows body))

-- The end of `apiPutConfig`, which writes the file.
abbrev write_config : Bool → Text → Text → Response × Text
write_config writable old content =
    if writable then (done [], content) else (rejected 500 unwritable, old)

-- `apiPutConfig`, for the body of the request and the file. It returns the file too.
unfoldable pub api_put_config : Option Text → Bool → Option Text → Response × Option Text
unfolding new_content
api_put_config none writable file = (rejected 400 no_body, file)
api_put_config (some []) writable file = (rejected 400 empty_body, file)
api_put_config (some (c ∷ body)) writable none = (rejected 400 unreadable, none)
api_put_config (some (c ∷ body)) writable (some old) =
    let (response, content) = write_config writable old (new_content old (c ∷ body)) in
    (response, some content)
