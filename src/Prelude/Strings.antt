-- ===== src/Prelude/Strings.antt =====
-- Text: equality under a name of its own, concatenation, the code points of a text, and decimals.
use Prim.Native.Nat.{ℕ, zero, suc, ◌/◌, ◌%◌, ◌<◌}
use Prim.Native.Char.{code}
use Prim.Native.String
use Prim.Native.String.{String}
use mathlib.Core.Logic.{dite}
use mathlib.Core.List.{List, [], ◌∷◌}
use mathlib.Core.Path.{◌≡◌, refl}
use mathlib.Core.WellFounded.{Acc, WellFounded}
use native.Mathlib.Omega.{arith}
use native.Mathlib.Decide.{dec_lt}
pub use text.Mathlib.Text.{◌==◌ as str_eq}
use chml_frp_frp.Prelude.Tests.{◌==◌, if◌then◌else◌}

infixl 65 ◌+++◌
abbrev pub ◌+++◌ : String → String → String
s +++ t = String.◌++◌ s t

abbrev pub code_points : String → List ℕ
code_points String.[] = []
code_points (String.◌∷◌ first rest) = code first ∷ code_points rest

-- The decimal digit of a number below ten.
unfoldable pub digit : ℕ → String
digit d =
    if d == 0
    then "0"
    else if d == 1
    then "1"
    else if d == 2
    then "2"
    else if d == 3
    then "3"
    else if d == 4
    then "4"
    else if d == 5
    then "5"
    else if d == 6
    then "6"
    else if d == 7
    then "7"
    else if d == 8
    then "8"
    else "9"

Acc-below : (k n : ℕ) → n < k → Acc ◌<◌ n
Acc-below zero n h = elim h [ ]
Acc-below (suc k) n h = Acc.intro n (λ m hm. Acc-below k m (omega arith))

unfoldable pub lt_wf : WellFounded ◌<◌
unfolding Acc-below
lt_wf = record { apply = λ n. Acc-below (suc n) n (omega arith) }

show_acc : (n : ℕ) → Acc ◌<◌ n → String → String
show_acc n (Acc.intro _ smaller) acc =
    dite (dec_lt n 10) (λ _. digit n +++ acc)
      (λ h. show_acc (n / 10) (smaller (n / 10) (omega arith)) (digit (n % 10) +++ acc))

-- A number in decimal.
unfoldable pub show_nat : ℕ → String
unfolding show_acc lt_wf dec_lt digit
show_nat n = show_acc n (lt_wf.apply n) ""

show_nat_runs : show_nat 6050 ≡ "6050"
unfolding show_nat
show_nat_runs = refl
