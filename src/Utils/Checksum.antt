-- ===== src/Utils/Checksum.antt =====
-- `checksum16` of src/utils.c against the Internet checksum as one's complement arithmetic: the sum
-- of the words modulo 65535, with 65535 in place of 0 for a sum that is not 0.
use hitsz_network_lab.Common.{
  ℕ, suc, ◌+◌, ◌-◌, ◌*◌, ◌/◌, ◌%◌, ◌^◌, ◌≤◌, ◌<◌, ◌≡◌, refl, ap, ◌∙◌, List, [], ◌∷◌, length, ◌==◌,
  if◌then◌else◌, arith,
}
use native.Mathlib.Nat.{zero-add}
use hitsz_network_lab.Common.Bits.{bit_and-mask}
use hitsz_network_lab.Utils.{u32, load16, sum_words, fold_carry, checksum16}

-- Every element is a byte.
abbrev pub IsBytes : List ℕ → Type 0
IsBytes [] = Unit
IsBytes (b ∷ rest) = (b < 256) × IsBytes rest

-- The sum of the little-endian words, a last odd byte by itself, with no wrap-around.
unfoldable pub total : List ℕ → ℕ
total [] = 0
total (last ∷ []) = last
total (low ∷ high ∷ rest) = load16 low high + total rest

-- A number as a 16-bit one's complement sum.
abbrev pub ones_complement : ℕ → ℕ
ones_complement s = if s == 0 then 0 else (s - 1) % 65535 + 1

-- One round of the loop.
round : ℕ → ℕ
round s = s % 65536 + s / 65536

fold_carry-suc :
    (fuel s : ℕ)
    → s < 2 ^ 32
    → fold_carry (suc fuel) s ≡ (if s / 65536 == 0 then s else fold_carry fuel (round s))
unfolding fold_carry round
fold_carry-suc fuel s h =
    rw (bit_and-mask 16 s) (ap (λ r. if s / 65536 == 0 then s else fold_carry fuel r) (omega arith))

round-eq : (s : ℕ) → round s ≡ s % 65536 + s / 65536
unfolding round
round-eq s = refl

ones-round : (s : ℕ) → ones_complement (round s) ≡ ones_complement s
unfolding round
ones-round s = ground arith

-- The `while` loop of `checksum16` ends by its own test within three rounds, for every 32-bit sum,
-- with the one's complement sum; more fuel changes nothing.
pub fold_carry_lem :
    (fuel s : ℕ) → s < 2 ^ 32 → fold_carry (suc (suc (suc fuel))) s ≡ ones_complement s
fold_carry_lem fuel s h = ground (
  arith,
  fold_carry-suc (suc (suc fuel)) s h,
  fold_carry-suc (suc fuel) (round s),
  fold_carry-suc fuel (round (round s)),
  round-eq s,
  round-eq (round s),
  ones-round s,
  ones-round (round s),
)

pub sum_words-eq :
    (sum : ℕ) (bytes : List ℕ)
    → sum + total bytes < 2 ^ 32
    → sum_words sum bytes ≡ sum + total bytes
unfolding sum_words total
sum_words-eq sum [] h = omega arith
sum_words-eq sum (last ∷ []) h = omega arith
sum_words-eq sum (low ∷ high ∷ rest) h =
    omega (arith, sum_words-eq (u32 (sum + load16 low high)) rest (omega arith))

pub total-le : (bytes : List ℕ) → IsBytes bytes → 2 * total bytes ≤ 65535 * (length bytes + 1)
unfolding total
total-le [] b = omega arith
total-le (last ∷ []) b = omega arith
total-le (low ∷ high ∷ rest) b = omega (arith, total-le rest b.1.1)

-- For up to 131070 bytes no sum wraps, and the result is the complement of the one's complement sum
-- of the 16-bit words.
pub checksum16_lem :
    (bytes : List ℕ)
    → IsBytes bytes
    → length bytes ≤ 131070
    → checksum16 bytes ≡ 65535 - ones_complement (total bytes)
unfolding checksum16
checksum16_lem bytes b h =
    rw (folded, bit_and-mask 16 (2 ^ 32 - 1 - ones_complement (total bytes))) (ground arith)
  where
    small : total bytes < 2 ^ 32
    small = omega (arith, total-le bytes b)

    folded : fold_carry 3 (sum_words 0 bytes) ≡ ones_complement (total bytes)
    folded =
        ap (fold_carry 3) (sum_words-eq 0 bytes (omega (arith, small)) ∙ zero-add (total bytes))
        ∙ fold_carry_lem 0 (total bytes) small
