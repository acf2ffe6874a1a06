-- ===== src/Text/Decimal.antt =====
-- The numbers that `%llu` printed into a text can be read back, with a bound on their length.
use native.Mathlib.Nat.{pow-suc}
use hitsz_network_lab.Common.{
  ℕ, zero, suc, ◌+◌, ◌-◌, ◌*◌, ◌/◌, ◌%◌, ◌^◌, ◌≤◌, ◌<◌, false, List, [], ◌∷◌, ◌++◌, if◌then◌else◌,
  ◌≡◌, refl, length, arith, ◌∙◌, Option, none, some,
}
use hitsz_network_lab.Text.{is_digit, digits_from, decimal}

-- The numbers that stand in a text; a number may have begun before it.
unfoldable pub numbers : Option ℕ → List ℕ → List ℕ
unfolding is_digit
numbers none [] = []
numbers (some n) [] = n ∷ []
numbers none (c ∷ cs) =
    let begun = numbers (some (c - b'0')) cs in
    let further = numbers none cs in if is_digit c then begun else further
numbers (some n) (c ∷ cs) =
    let longer = numbers (some (n * 10 + (c - b'0'))) cs in
    let ended = n ∷ numbers none cs in if is_digit c then longer else ended

digits_from-append :
    (fuel n : ℕ) (acc rest : List ℕ)
    → digits_from fuel n acc ++ rest ≡ digits_from fuel n (acc ++ rest)
unfolding digits_from
digits_from-append zero n acc rest = refl
digits_from-append (suc fuel) n acc rest =
    ground (arith, digits_from-append fuel (n / 10) ((b'0' + n % 10) ∷ acc) rest)

numbers-last_digit :
    (n : ℕ) (acc : List ℕ) → numbers (some (n / 10)) ((b'0' + n % 10) ∷ acc) ≡ numbers (some n) acc
unfolding numbers
numbers-last_digit n acc = ground arith

numbers-first_digit :
    (n : ℕ) (acc : List ℕ) → n < 10 → numbers none ((b'0' + n % 10) ∷ acc) ≡ numbers (some n) acc
unfolding numbers
numbers-first_digit n acc h = ground arith

numbers-digits_from :
    (fuel n : ℕ) (acc : List ℕ)
    → n < fuel
    → numbers none (digits_from fuel n acc) ≡ numbers (some n) acc
unfolding digits_from
numbers-digits_from zero n acc h = absurd (omega arith)
numbers-digits_from (suc fuel) n acc h = ground (
  arith,
  numbers-first_digit n acc,
  numbers-digits_from fuel (n / 10) ((b'0' + n % 10) ∷ acc),
  numbers-last_digit n acc,
)

-- A printed number with something behind it that is no digit is read back.
pub numbers-decimal :
    (n c : ℕ) (rest : List ℕ)
    → is_digit c ≡ false
    → numbers none (decimal n ++ c ∷ rest) ≡ n ∷ numbers none (c ∷ rest)
unfolding decimal numbers
numbers-decimal n c rest h =
    rw (digits_from-append (suc n) n [] (c ∷ rest))
      (numbers-digits_from (suc n) n (c ∷ rest) (omega arith) ∙ ground arith)

length-digits_from :
    (fuel k n : ℕ) (acc : List ℕ)
    → n < 10 ^ suc k
    → length (digits_from fuel n acc) ≤ suc k + length acc
unfolding digits_from
length-digits_from zero k n acc h = omega arith
length-digits_from (suc fuel) zero n acc h = ground (arith)
length-digits_from (suc fuel) (suc k) n acc h =
    ground (arith, length-digits_from fuel k (n / 10) ((b'0' + n % 10) ∷ acc), pow-suc 10 (suc k))

-- A number below 10^(k+1) takes at most k + 1 digits.
pub length-decimal : (k n : ℕ) → n < 10 ^ suc k → length (decimal n) ≤ suc k
unfolding decimal
length-decimal k n h = omega (arith, length-digits_from (suc n) k n [] h)
