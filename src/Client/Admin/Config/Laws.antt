-- ===== src/Client/Admin/Config/Laws.antt =====
-- What remains of a configuration that is stored and read again.
use chml_frp_frp.Prelude.{
  ◌≡◌, ◌≢◌, refl, ap, ◌∙◌, ◌⊎◌, inl, inr, Bool, true, false, some, List, [], ◌∷◌, map, arith, All,
  Option, ◌&&◌, ◌==◌, Bool-cases, if◌then◌else◌,
}
use chml_frp_frp.Client.Admin.Config.{
  Text, split_lines, join_lines, trim_space, is_token, is_common, without_token, shown_rows,
  first_token, token_row, insert_token, new_rows, new_content, done, api_get_config,
  get_rendered_conf_from_file, api_put_config,
}
use chml_frp_frp.Client.Admin.Config.Lines.{
  IsRow, split_lines-IsRow, split_lines-join_lines, trim_space-IsRow, trim_space-trim_space,
}

-- A row as the code leaves it.
record IsTrimmed (row : Text) : Type 0 where
  trimmed : trim_space row ≡ row
  one_row : IsRow row

map-IsTrimmed : (rows : List Text) → All IsRow rows → All IsTrimmed (map trim_space rows)
map-IsTrimmed [] h = tt
map-IsTrimmed (row ∷ rows) h = (
  record { trimmed = trim_space-trim_space row; one_row = trim_space-IsRow row h.0 },
  map-IsTrimmed rows h.1,
)

rows-IsTrimmed : (s : Text) → All IsTrimmed (map trim_space (split_lines s))
rows-IsTrimmed s = map-IsTrimmed (split_lines s) (split_lines-IsRow s)

map-trim_space : (rows : List Text) → All IsTrimmed rows → map trim_space rows ≡ rows
map-trim_space [] h = refl
map-trim_space (row ∷ rows) h =
    ap (λ r. r ∷ map trim_space rows) (h.0.trimmed)
    ∙ ap (λ (rest : List Text). row ∷ rest) (map-trim_space rows h.1)

All-IsRow : (rows : List Text) → All IsTrimmed rows → All IsRow rows
All-IsRow [] h = tt
All-IsRow (row ∷ rows) h = (h.0.one_row, All-IsRow rows h.1)

-- Trimmed rows come back from the text that they are joined to.
rows_again :
    (row : Text) (rows : List Text)
    → All IsTrimmed (row ∷ rows)
    → map trim_space (split_lines (join_lines (row ∷ rows))) ≡ row ∷ rows
rows_again row rows h =
    ap (map trim_space) (split_lines-join_lines row rows (All-IsRow (row ∷ rows) h))
    ∙ map-trim_space (row ∷ rows) h

abbrev NoToken : List Text → Type 0
NoToken rows = All (λ (r : Text). is_token r ≡ false) rows

without_token-IsTrimmed :
    (rows : List Text) → All IsTrimmed rows → All IsTrimmed (without_token rows)
without_token-IsTrimmed [] h = tt
without_token-IsTrimmed (row ∷ rows) h = elim (Bool-cases (is_token row)) [
  | inl e ↦ rw e (without_token-IsTrimmed rows h.1)
  | inr e ↦ rw e (h.0, without_token-IsTrimmed rows h.1)
]

without_token-NoToken : (rows : List Text) → NoToken (without_token rows)
without_token-NoToken [] = tt
without_token-NoToken (row ∷ rows) = elim (Bool-cases (is_token row)) [
  | inl e ↦ rw e (without_token-NoToken rows)
  | inr e ↦ rw e (e, without_token-NoToken rows)
]

NoToken-without_token : (rows : List Text) → NoToken rows → without_token rows ≡ rows
NoToken-without_token [] h = refl
NoToken-without_token (row ∷ rows) h = rw (h.0, NoToken-without_token rows h.1)

NoToken-first_token : (rows : List Text) → NoToken rows → first_token rows ≡ []
NoToken-first_token [] h = refl
NoToken-first_token (row ∷ rows) h = rw (h.0) (NoToken-first_token rows h.1)

-- Some row starts with `[common]`.
abbrev pub has_common : List Text → Bool
has_common [] = false
has_common (row ∷ rows) = if is_common row then true else has_common rows

-- A row of the token.
record IsToken (t : Text) : Type 0 where
  token : is_token t ≡ true
  trimmed : IsTrimmed t

module _ (t : Text) (h : IsToken t) where
  insert_token-IsTrimmed :
      (rows : List Text) → All IsTrimmed rows → All IsTrimmed (insert_token t rows)
  insert_token-IsTrimmed [] all = tt
  insert_token-IsTrimmed (row ∷ rows) all = elim (Bool-cases (is_common row)) [
    | inl e ↦ rw e (all.0, (h.trimmed, insert_token-IsTrimmed rows all.1))
    | inr e ↦ rw e (all.0, insert_token-IsTrimmed rows all.1)
  ]

  without_token-insert_token :
      (rows : List Text) → NoToken rows → without_token (insert_token t rows) ≡ rows
  without_token-insert_token [] free = refl
  without_token-insert_token (row ∷ rows) free = elim (Bool-cases (is_common row)) [
    | inl e ↦ rw (e, free.0, h.token, without_token-insert_token rows free.1)
    | inr e ↦ rw (e, free.0, without_token-insert_token rows free.1)
  ]

  first_token-insert_token :
      (rows : List Text)
      → NoToken rows
      → first_token (insert_token t rows) ≡ (if has_common rows then t else [])
  first_token-insert_token [] free = refl
  first_token-insert_token (row ∷ rows) free = elim (Bool-cases (is_common row)) [
    | inl e ↦ rw (e, free.0, h.token)
    | inr e ↦ rw (e, free.0) (first_token-insert_token rows free.1)
  ]

first_token_cases :
    (rows : List Text) → All IsTrimmed rows → (first_token rows ≡ []) ⊎ IsToken (first_token rows)
first_token_cases [] h = inl refl
first_token_cases (row ∷ rows) h = elim (Bool-cases (is_token row)) [
  | inl e ↦ rw e (inr (record { token = e; trimmed = h.0 }))
  | inr e ↦ rw e (first_token_cases rows h.1)
]

-- What the rows of a new file hold.
record Stored (t : Text) (rows stored : List Text) : Type 0 where
  all_trimmed : All IsTrimmed stored
  shown : without_token stored ≡ rows
  token : first_token stored ≡ (if has_common rows then t else [])

new_rows-Stored :
    (t : Text) (rows : List Text)
    → All IsTrimmed rows
    → NoToken rows
    → (t ≡ []) ⊎ IsToken t
    → Stored t rows (new_rows t rows)
new_rows-Stored [] rows h free cases = record {
  all_trimmed = h;
  shown = NoToken-without_token rows free;
  token = NoToken-first_token rows free ∙ ground arith;
}
new_rows-Stored (c ∷ t) rows h free (inl e) = absurd (ground arith)
new_rows-Stored (c ∷ t) rows h free (inr is) = record {
  all_trimmed = insert_token-IsTrimmed (c ∷ t) is rows h;
  shown = without_token-insert_token (c ∷ t) is rows free;
  token = first_token-insert_token (c ∷ t) is rows free;
}

shown_again :
    (rows : List Text)
    → All IsTrimmed rows
    → (join_lines (shown_rows (join_lines rows)) ≡ join_lines (without_token rows))
      × (token_row (join_lines rows) ≡ first_token rows)
unfolding shown_rows token_row trim_space
shown_again [] h = (refl, refl)
shown_again (row ∷ rows) h = (
  ap (λ (r : List Text). join_lines (without_token r)) (rows_again row rows h),
  ap first_token (rows_again row rows h),
)

shown_rows-IsTrimmed : (s : Text) → All IsTrimmed (shown_rows s)
unfolding shown_rows
shown_rows-IsTrimmed s = without_token-IsTrimmed (map trim_space (split_lines s)) (rows-IsTrimmed s)

shown_rows-NoToken : (s : Text) → NoToken (shown_rows s)
unfolding shown_rows
shown_rows-NoToken s = without_token-NoToken (map trim_space (split_lines s))

token_row_cases : (s : Text) → (token_row s ≡ []) ⊎ IsToken (token_row s)
unfolding token_row
token_row_cases s = first_token_cases (map trim_space (split_lines s)) (rows-IsTrimmed s)

new_content-Stored :
    (old body : Text)
    → Stored (token_row old) (shown_rows body) (new_rows (token_row old) (shown_rows body))
new_content-Stored old body =
    new_rows-Stored (token_row old) (shown_rows body) (shown_rows-IsTrimmed body)
      (shown_rows-NoToken body) (token_row_cases old)

-- Whether a text holds the delimiter by which a template starts.
abbrev pub has_template : Text → Bool
has_template [] = false
has_template (c ∷ []) = false
has_template (c ∷ d ∷ s) =
    let rest = has_template (d ∷ s) in if c == b'{' && d == b'{' then true else rest

-- What the library says of its templates: a text without the delimiter is its own output.
pub record RendersPlain (render : Text → Option Text) : Type 0 where
  pub plain : (s : Text) → has_template s ≡ false → render s ≡ some s

-- A body that is not empty, a file that can be read and written, a new file that holds no template,
-- and a library that leaves such a text as it is: the request is answered without an error; a later
-- request for the configuration gets the rows of the body, trimmed and without those of a token; and
-- the token of the old file is that of the new one, if some row of the body starts with `[common]`,
-- while without such a row the new file has no token.
pub api_get-put :
    (render : Text → Option Text) (old body : Text)
    → RendersPlain render
    → body ≢ []
    → has_template (new_content old body) ≡ false
    → (content : Text) × (api_put_config (some body) true (some old) ≡ (done [], some content))
      × (api_get_config render true (some content) ≡ done (join_lines (shown_rows body)))
      × (token_row content ≡ (if has_common (shown_rows body) then token_row old else []))
unfolding api_put_config api_get_config get_rendered_conf_from_file new_content
api_get-put render old [] renders nonempty plain = absurd (nonempty refl)
api_get-put render old (c ∷ body) renders nonempty plain =
    let stored = new_content-Stored old (c ∷ body) in
    let rows = new_rows (token_row old) (shown_rows (c ∷ body)) in
    let (shown, token) = shown_again rows stored.all_trimmed in
    (
      new_content old (c ∷ body),
      refl,
      rw (renders.plain (new_content old (c ∷ body)) plain)
          (ap done (shown ∙ ap join_lines stored.shown)),
      token ∙ stored.token,
    )
