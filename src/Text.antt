-- ===== src/Text.antt =====
-- C strings as lists of bytes without the closing zero, and the functions of the C library on them
-- that the servers call: `strstr`, `strcmp` by `bytes_eq`, and what `%llu` and `%lu` print.
pub mod Decimal
use Prim.Native.String
use Prim.Native.String.{String}
use Prim.Native.Char.{code}
use hitsz_network_lab.Common.{
  ℕ, zero, suc, ◌+◌, ◌/◌, ◌%◌, Bool, true, false, ◌&&◌, ◌||◌, List, [], ◌∷◌, ◌++◌, ◌==◌, ltb, leb,
  if◌then◌else◌, ◌≡◌, refl,
}

-- The bytes of a literal, which is ASCII.
abbrev pub codes : String → List ℕ
codes String.[] = []
codes (String.◌∷◌ c s) = code c ∷ codes s

unfoldable pub is_prefix : List ℕ → List ℕ → Bool
is_prefix [] text = true
is_prefix (x ∷ xs) [] = false
is_prefix (x ∷ xs) (y ∷ ys) = x == y && is_prefix xs ys

-- Whether `strstr` finds `needle`.
unfoldable pub strstr : List ℕ → List ℕ → Bool
unfolding is_prefix
strstr [] needle = is_prefix needle []
strstr (y ∷ ys) needle = is_prefix needle (y ∷ ys) || strstr ys needle

-- A `char *` reads up to the first zero byte.
unfoldable pub c_string : List ℕ → List ℕ
c_string [] = []
c_string (x ∷ xs) = if x == 0 then [] else x ∷ c_string xs

-- `isspace`
unfoldable pub is_space : ℕ → Bool
is_space c = c == 32 || leb 9 c && leb c 13

unfoldable pub is_digit : ℕ → Bool
is_digit c = leb b'0' c && leb c b'9'

-- The digits of `n`, in front of `acc`. A number has fewer digits than `n + 1`.
unfoldable pub digits_from : ℕ → ℕ → List ℕ → List ℕ
digits_from zero n acc = acc
digits_from (suc fuel) n acc =
    let further = digits_from fuel (n / 10) ((b'0' + n % 10) ∷ acc) in
    if ltb n 10 then (b'0' + n % 10) ∷ acc else further

-- `%llu`
unfoldable pub decimal : ℕ → List ℕ
unfolding digits_from
decimal n = digits_from (suc n) n []

decimal_test : decimal 18446744073709551615 ≡ codes "18446744073709551615"
unfolding decimal
decimal_test = refl

strstr_test : strstr (codes "/a/b.html") (codes ".htm") ≡ true
unfolding strstr
strstr_test = refl
