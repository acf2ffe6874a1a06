-- ===== src/Utils/Swap.antt =====
-- `swap16` of include/utils.h exchanges the two bytes of a word.
use hitsz_network_lab.Common.{ℕ, ◌+◌, ◌*◌, ◌/◌, ◌%◌, ◌^◌, ◌<◌, ◌≡◌, arith, [], ◌∷◌}
use hitsz_network_lab.Common.Bits.{bit_or-disjoint, bit_and-mask}
use hitsz_network_lab.Utils.{swap16, store16}

-- As arithmetic, for an argument of any width: the low byte times 256, and the byte above it.
pub swap16-eq : (x : ℕ) → swap16 x ≡ x % 256 * 256 + x / 256 % 256
unfolding swap16
swap16-eq x =
    rw (bit_and-mask 8 x, bit_and-mask 8 (x / 2 ^ 8))
      (bit_or-disjoint 8 (x % 256) (x / 256 % 256) (omega arith))

pub swap16-lt : (x : ℕ) → swap16 x < 65536
swap16-lt x = omega (arith, swap16-eq x)

-- Swapping the bytes of a 16-bit word twice gives the word back.
pub swap16-swap16 : (x : ℕ) → x < 65536 → swap16 (swap16 x) ≡ x
swap16-swap16 x h = omega (arith, swap16-eq x, swap16-eq (swap16 x))

-- A swapped word lies in memory high byte first.
pub store16-swap16 : (x : ℕ) → store16 (swap16 x) ≡ (x / 256 % 256) ∷ (x % 256) ∷ []
store16-swap16 x = ground (arith, swap16-eq x)
