-- ===== src/Vhost/Router/Bytes.antt =====
-- The order of byte strings, and their prefixes.
use chml_frp_frp.Prelude.{◌≡◌, refl, true, false, [], ◌∷◌, arith}
use chml_frp_frp.Vhost.Router.{Bytes, bytes_eq, bytes_lt, has_prefix}

pub bytes_eq_refl : (a : Bytes) → bytes_eq a a ≡ true
bytes_eq_refl [] = refl
bytes_eq_refl (x ∷ xs) = ground (arith, bytes_eq_refl xs)

pub bytes_eq-eq : (a b : Bytes) → bytes_eq a b ≡ true → a ≡ b
bytes_eq-eq [] [] h = refl
bytes_eq-eq [] (y ∷ ys) h = cc
bytes_eq-eq (x ∷ xs) [] h = cc
bytes_eq-eq (x ∷ xs) (y ∷ ys) h = ground (arith, bytes_eq-eq xs ys)

pub bytes_eq_swap : (a b : Bytes) → bytes_eq a b ≡ false → bytes_eq b a ≡ false
bytes_eq_swap [] [] h = cc
bytes_eq_swap [] (y ∷ ys) h = refl
bytes_eq_swap (x ∷ xs) [] h = refl
bytes_eq_swap (x ∷ xs) (y ∷ ys) h = ground (arith, bytes_eq_swap xs ys)

pub has_prefix_refl : (a : Bytes) → has_prefix a a ≡ true
has_prefix_refl [] = refl
has_prefix_refl (x ∷ xs) = ground (arith, has_prefix_refl xs)

pub bytes_lt_trans :
    (a b c : Bytes) → bytes_lt a b ≡ true → bytes_lt b c ≡ true → bytes_lt a c ≡ true
bytes_lt_trans a [] [] h k = cc
bytes_lt_trans [] [] (z ∷ zs) h k = refl
bytes_lt_trans (x ∷ xs) [] (z ∷ zs) h k = cc
bytes_lt_trans a (y ∷ ys) [] h k = cc
bytes_lt_trans [] (y ∷ ys) (z ∷ zs) h k = refl
bytes_lt_trans (x ∷ xs) (y ∷ ys) (z ∷ zs) h k = ground (arith, bytes_lt_trans xs ys zs)

pub bytes_lt_irrefl : (a : Bytes) → bytes_lt a a ≡ false
bytes_lt_irrefl [] = refl
bytes_lt_irrefl (x ∷ xs) = ground (arith, bytes_lt_irrefl xs)

pub bytes_lt_asym : (a b : Bytes) → bytes_lt a b ≡ true → bytes_lt b a ≡ false
bytes_lt_asym [] [] h = refl
bytes_lt_asym [] (y ∷ ys) h = refl
bytes_lt_asym (x ∷ xs) [] h = cc
bytes_lt_asym (x ∷ xs) (y ∷ ys) h = ground (arith, bytes_lt_asym xs ys)

pub bytes_lt_total :
    (a b : Bytes) → bytes_lt a b ≡ false → bytes_eq b a ≡ false → bytes_lt b a ≡ true
bytes_lt_total [] [] h k = cc
bytes_lt_total [] (y ∷ ys) h k = cc
bytes_lt_total (x ∷ xs) [] h k = refl
bytes_lt_total (x ∷ xs) (y ∷ ys) h k = ground (arith, bytes_lt_total xs ys)

pub bytes_lt-bytes_eq : (a b : Bytes) → bytes_lt a b ≡ true → bytes_eq a b ≡ false
bytes_lt-bytes_eq [] [] h = cc
bytes_lt-bytes_eq [] (y ∷ ys) h = refl
bytes_lt-bytes_eq (x ∷ xs) [] h = refl
bytes_lt-bytes_eq (x ∷ xs) (y ∷ ys) h = ground (arith, bytes_lt-bytes_eq xs ys)

-- Of two prefixes of a path the smaller one is a prefix of the other.
pub has_prefix-bytes_lt :
    (path a b : Bytes)
    → has_prefix path a ≡ true
    → has_prefix path b ≡ true
    → bytes_lt b a ≡ true
    → has_prefix a b ≡ true
has_prefix-bytes_lt path a [] h k l = refl
has_prefix-bytes_lt path [] (y ∷ ys) h k l = cc
has_prefix-bytes_lt [] (x ∷ xs) (y ∷ ys) h k l = cc
has_prefix-bytes_lt (z ∷ zs) (x ∷ xs) (y ∷ ys) h k l = ground (arith, has_prefix-bytes_lt zs xs ys)

-- A greater location is no prefix.
pub bytes_lt-has_prefix : (a b : Bytes) → bytes_lt a b ≡ true → has_prefix a b ≡ false
bytes_lt-has_prefix [] [] h = cc
bytes_lt-has_prefix (x ∷ xs) [] h = cc
bytes_lt-has_prefix [] (y ∷ ys) h = refl
bytes_lt-has_prefix (x ∷ xs) (y ∷ ys) h = ground (arith, bytes_lt-has_prefix xs ys)
