-- ===== src/Web/Value.antt =====
-- The JavaScript values that the dashboards handle without a type (`any`), and the operations of
-- the language that they apply to them. Numbers are the integers, and `nan`: what the daemons send
-- are counts, ports and sizes. `minus n` is the number -(n + 1). A thrown value ends a handler.
use chml_frp_frp.Prelude.{
  ℕ, ◌+◌, ◌-◌, ◌*◌, String, ◌≡◌, refl, ap, Bool, true, false, ◌&&◌, ◌||◌, Option, none, some, List,
  [], ◌∷◌, reverse, leb, ◌==◌, if◌then◌else◌, str_eq, ◌+++◌, code_points, show_nat, suc, ℤ, pos,
  negsuc, ◌+ℤ◌,
}

mutual
  -- The properties of an object, in order.
  pub data Fields : Type 0 where
    end : Fields
    field : (name : String) (value : Value) (others : Fields) → Fields

  pub data Value : Type 0 where
    undefined null nan : Value
    obj : Fields → Value
    arr : Items → Value
    str : String → Value
    num minus : ℕ → Value
    bool : Bool → Value

  -- The elements of an array.
  pub data Items : Type 0 where
    nil : Items
    cons : (first : Value) (others : Items) → Items

-- A `TypeError` of the language, a `fetch` that found no server, or a body that is not JSON.
pub data Thrown : Type 0 where
  type_error network_error syntax_error : Thrown

pub data Result {ℓ} (A : Type ℓ) : Type ℓ where
  ok : A → Result A
  throw : Thrown → Result A

infixl 5 ◌>>=◌ ◌>>◌
abbrev pub ◌>>=◌ {ℓ κ} : {A : Type ℓ} {B : Type κ} → Result A → (A → Result B) → Result B
ok a >>= f = f a
throw e >>= f = throw e

abbrev pub ◌>>◌ {ℓ κ} : {A : Type ℓ} {B : Type κ} → Result A → Result B → Result B
m >> k = m >>= λ _. k

pub >>=_assoc {ℓ κ ν} :
    {A : Type ℓ} {B : Type κ} {C : Type ν} (m : Result A) (f : A → Result B) (g : B → Result C)
    → ((m >>= f) >>= g) ≡ (m >>= λ a. f a >>= g)
>>=_assoc (ok a) f g = refl
>>=_assoc (throw e) f g = refl

abbrev pub elements : Items → List Value
elements nil = []
elements (cons v vs) = v ∷ elements vs

abbrev pub items : List Value → Items
items [] = nil
items (v ∷ vs) = cons v (items vs)

pub elements-items : (vs : List Value) → elements (items vs) ≡ vs
elements-items [] = refl
elements-items (v ∷ vs) = ap (λ (l : List Value). v ∷ l) (elements-items vs)

-- An object with given properties.
abbrev pub fields : List (String × Value) → Fields
fields [] = end
fields ((k, v) ∷ rest) = field k v (fields rest)

-- A missing property reads as `undefined`.
unfoldable pub property : String → Fields → Value
property k end = undefined
property k (field j v fs) = if str_eq j k then v else property k fs

-- `v == null`
abbrev pub is_nullish : Value → Bool
is_nullish undefined = true
is_nullish null = true
is_nullish _ = false

-- `v.k`, for the names `k` that the pages read: none of them is a method of a primitive value.
unfoldable pub get : Value → String → Result Value
unfolding property
get undefined k = throw type_error
get null k = throw type_error
get (obj fs) k = ok (property k fs)
get _ k = ok undefined

pub characters : String → List Value
characters String.[] = []
characters (String.◌∷◌ c s) = str (String.◌∷◌ c String.[]) ∷ characters s

-- What `for (x of v)` goes through; only arrays and texts can be iterated.
unfoldable pub iterate : Value → Result (List Value)
unfolding characters
iterate (arr xs) = ok (elements xs)
iterate (str s) = ok (characters s)
iterate _ = throw type_error

-- In the text of an array a missing element is empty.
abbrev blank : Value → String → String
blank undefined s = ""
blank null s = ""
blank _ s = s

unfoldable mutual
  pub to_text : Value → String
  to_text undefined = "undefined"
  to_text null = "null"
  to_text nan = "NaN"
  to_text (bool true) = "true"
  to_text (bool false) = "false"
  to_text (num n) = show_nat n
  to_text (minus n) = "-" +++ show_nat (suc n)
  to_text (str s) = s
  to_text (arr xs) = join_text xs
  to_text (obj fs) = "[object Object]"

  pub join_text : Items → String
  join_text nil = ""
  join_text (cons v vs) = blank v (to_text v) +++ rest_text vs

  pub rest_text : Items → String
  rest_text nil = ""
  rest_text (cons v vs) = "," +++ (blank v (to_text v) +++ rest_text vs)

abbrev is_space : ℕ → Bool
is_space c =
    leb 9 c && leb c 13
    || c == 32
    || c == 160
    || c == 5760
    || leb 8192 c && leb c 8202
    || c == 8232
    || c == 8233
    || c == 8239
    || c == 8287
    || c == 12288
    || c == 65279

trim_start : List ℕ → List ℕ
trim_start [] = []
trim_start (c ∷ s) = let rest = trim_start s in if is_space c then rest else c ∷ s

read_digits : ℕ → List ℕ → Option ℕ
read_digits n [] = some n
read_digits n (c ∷ s) =
    let more = read_digits (10 * n + (c - b'0')) s in
    if leb b'0' c && leb c b'9' then more else none

-- The number that a text stands for: white space and decimal digits. `none` is NaN; signs, fractions,
-- exponents and other radixes are not read.
unfoldable pub text_number : String → Option ℕ
unfolding trim_start read_digits
text_number s = read_digits 0 (reverse (trim_start (reverse (trim_start (code_points s)))))

abbrev is_number : Option ℕ → ℕ → Bool
is_number none n = false
is_number (some m) n = m == n

abbrev integer : Option ℕ → Option ℤ
integer none = none
integer (some n) = some (pos n)

unfoldable pub to_number : Value → Option ℤ
unfolding text_number to_text
to_number undefined = none
to_number null = some (pos 0)
to_number nan = none
to_number (bool true) = some (pos 1)
to_number (bool false) = some (pos 0)
to_number (num n) = some (pos n)
to_number (minus n) = some (negsuc n)
to_number (str s) = integer (text_number s)
to_number v = integer (text_number (to_text v))

abbrev is_natural : Option ℤ → ℕ → Bool
is_natural none n = false
is_natural (some (pos m)) n = m == n
is_natural (some (negsuc m)) n = false

-- `v == n` for a natural number `n`
unfoldable pub loosely_num : Value → ℕ → Bool
unfolding to_number
loosely_num undefined n = false
loosely_num null n = false
loosely_num v n = is_natural (to_number v) n

-- `v == t` for a text `t`
unfoldable pub loosely_text : Value → String → Bool
unfolding to_number
loosely_text undefined t = false
loosely_text null t = false
loosely_text nan t = false
loosely_text (bool true) t = is_number (text_number t) 1
loosely_text (bool false) t = is_number (text_number t) 0
loosely_text (num n) t = is_number (text_number t) n
loosely_text (minus n) t = false
loosely_text (str s) t = str_eq s t
loosely_text v t = str_eq (to_text v) t

abbrev is_text : Value → Bool
is_text (str s) = true
is_text (arr xs) = true
is_text (obj fs) = true
is_text _ = false

abbrev number : ℤ → Value
number (pos n) = num n
number (negsuc n) = minus n

abbrev add_numbers : Option ℤ → Option ℤ → Value
add_numbers (some a) (some b) = number (a +ℤ b)
add_numbers _ _ = nan

-- `a + b`
unfoldable pub plus : Value → Value → Value
unfolding to_number ◌+ℤ◌
plus a b =
    if is_text a || is_text b
    then str (to_text a +++ to_text b)
    else add_numbers (to_number a) (to_number b)

-- The property of a value that has properties; `undefined` where there is none.
abbrev pub read : Value → String → Value
read (obj fs) k = property k fs
read _ k = undefined

pub get-eq-read : (v : Value) (k : String) → is_nullish v ≡ false → get v k ≡ ok (read v k)
unfolding get
get-eq-read undefined k h = cc
get-eq-read null k h = cc
get-eq-read (obj fs) k h = refl
get-eq-read _ k h = refl

pub get-eq-throw : (v : Value) (k : String) → is_nullish v ≡ true → get v k ≡ throw type_error
unfolding get
get-eq-throw undefined k h = refl
get-eq-throw null k h = refl
get-eq-throw _ k h = cc

loose_tests :
    (loosely_text (num 0) "0" ≡ true)
    × (loosely_num (str " 00 ") 0 ≡ true)
    × (loosely_text undefined "" ≡ false)
    × (plus (num 3) (str "4") ≡ str "34")
    × (plus (num 3) undefined ≡ nan)
    × (to_text (arr (cons (str "a") (cons null (cons (num 12) nil)))) ≡ "a,,12")
unfolding loosely_text loosely_num plus show_nat
loose_tests = (refl, refl, refl, refl, refl, refl)
