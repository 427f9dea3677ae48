-- ===== src/Tests/Version.antt =====
-- The order of versions on concrete texts.
use chml_frp_frp.Prelude.{◌≡◌, ◌↔◌, refl, pos, true, false, code_points}
use chml_frp_frp.Util.Version.{version, proto, major, minor, less_than, compat}
use chml_frp_frp.Util.Version.Order.{Lex, numbers_of, less_than-Lex}

-- The texts of the tests of the source.
compat_texts :
    (compat (code_points "0.9.0") ≡ false)
    × (compat (code_points "10.0.0") ≡ true)
    × (compat (code_points "0.10.0") ≡ false)
unfolding compat
compat_texts = (refl, refl, refl)

-- The program's own version has the numbers 0, 51 and 0.
own : numbers_of (code_points version) ≡ (pos 0, pos 51, pos 0)
unfolding proto major minor
own = refl

less_than-Lex_example :
    (less_than (code_points "0.34.10") (code_points "0.51.2") ≡ true)
    ↔ Lex (numbers_of (code_points "0.34.10")) (numbers_of (code_points "0.51.2"))
less_than-Lex_example = less_than-Lex (code_points "0.34.10") (code_points "0.51.2")
