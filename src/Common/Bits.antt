-- ===== src/Common/Bits.antt =====
-- `|` of disjoint fields and `&` with a mask of low bits, as sums and remainders. The native bit
-- operations recur on binary digits with a count of the digits to go, so the facts are proved for
-- every count that is large enough.
use Prim.Native.Nat.{
  ℕ, zero, suc, ◌+◌, ◌-◌, ◌*◌, ◌/◌, ◌%◌, ◌^◌, ◌≤◌, ◌<◌, min, max, digits, bit_and, bit_or,
  bit_and-bitwise, bit_or-bitwise,
}
use mathlib.Core.Path.{◌≡◌, refl, sym, ap, ◌∙◌}
use native.Mathlib.Nat.{pow-suc, le_refl, zero-mod, one-le-pow}
use native.Mathlib.Omega.{arith}

-- One more bit of width doubles the unit of the upper field.
unit-suc : (k q : ℕ) → q * 2 ^ suc k ≡ 2 * (q * 2 ^ k)
unit-suc k q = omega (arith, ap (λ (t : ℕ). q * t) (pow-suc 2 k))

or_count : (count a : ℕ) → a ≤ count → digits (λ b. b) max count a 0 ≡ a
or_count zero zero h = refl
or_count zero (suc a) h = absurd (omega arith)
or_count (suc count) zero h = refl
or_count (suc count) (suc a) h = omega (arith, or_count count (suc a / 2) (omega arith))

or_fields :
    (k count a q r : ℕ)
    → a ≡ q * 2 ^ k
    → a ≤ count
    → r < 2 ^ k
    → digits (λ b. b) max count a r ≡ a + r
or_fields zero count a q zero e h f = omega (arith, or_count count a h)
or_fields zero count a q (suc r) e h f = absurd (omega arith)
or_fields (suc k) zero zero q r e h f = omega arith
or_fields (suc k) zero (suc a) q r e h f = absurd (omega arith)
or_fields (suc k) (suc count) zero q r e h f = omega arith
or_fields (suc k) (suc count) (suc a) q r e h f = omega (
  arith,
  unit-suc k q,
  or_fields k count (suc a / 2) q (r / 2) (omega (arith, unit-suc k q)) (omega arith)
      (omega (arith, pow-suc 2 k)),
)

-- `(q << k) | r` is a sum if `r` fits in `k` bits.
pub bit_or-disjoint : (k q r : ℕ) → r < 2 ^ k → bit_or (q * 2 ^ k) r ≡ q * 2 ^ k + r
bit_or-disjoint k q r h = bit_or-bitwise (q * 2 ^ k) r ∙ or_fields k _ _ q r refl (le_refl _) h

and_count : (count a : ℕ) → digits (λ b. 0) min count a 0 ≡ 0
and_count zero a = refl
and_count (suc count) zero = refl
and_count (suc count) (suc a) = omega (arith, and_count count (suc a / 2))

-- A remainder by an even number, one bit lower.
mod_double : (a m : ℕ) → 0 < m → a % (2 * m) ≡ a / 2 % m * 2 + a % 2
mod_double a m h = grind arith

and_mask : (k count a : ℕ) → a ≤ count → digits (λ b. 0) min count a (2 ^ k - 1) ≡ a % 2 ^ k
and_mask zero count a h = omega (arith, and_count count a)
and_mask (suc k) zero zero h = sym (zero-mod (2 ^ suc k))
and_mask (suc k) zero (suc a) h = absurd (omega arith)
and_mask (suc k) (suc count) zero h = sym (zero-mod (2 ^ suc k))
and_mask (suc k) (suc count) (suc a) h = rw half (
    omega (
      arith,
      and_mask k count (suc a / 2) (omega arith),
      mod_double (suc a) (2 ^ k) (one-le-pow k 2 (omega arith)),
      ap (λ m. suc a % m) double,
      one-le-pow k 2 (omega arith),
      double,
    ))
  where
    double : 2 ^ suc k ≡ 2 * 2 ^ k
    double = omega (arith, pow-suc 2 k)

    half : (2 ^ suc k - 1) / 2 ≡ 2 ^ k - 1
    half = omega (arith, pow-suc 2 k, one-le-pow k 2 (omega arith))

-- `a & (2^k - 1)` is a remainder.
pub bit_and-mask : (k a : ℕ) → bit_and a (2 ^ k - 1) ≡ a % 2 ^ k
bit_and-mask k a = bit_and-bitwise a (2 ^ k - 1) ∙ and_mask k a a (le_refl a)
