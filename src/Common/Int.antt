-- ===== src/Common/Int.antt =====
-- Signed numbers, for `int` variables that the program lets fall below zero.
use Prim.Native.Nat.{ℕ, suc, ◌+◌, ◌-◌, ◌%◌, ◌^◌, ◌<◌}
use mathlib.Core.Path.{◌≡◌, ap, ◌∙◌, sym}
use native.Mathlib.Omega.{arith}
use mathlib.Core.Logic.{inl, inr}
use mathlib.Core.Bool.{Bool}
use hitsz_network_lab.Common.Tests.{Bool-cases, ltb, leb, if◌then◌else◌}

-- `negsuc n` is -(n + 1).
pub data ℤ : Type 0 where
  pos : ℕ → ℤ
  negsuc : ℕ → ℤ

abbrev pub pos_part : ℤ → ℕ
pos_part (pos n) = n
pos_part (negsuc n) = 0

abbrev pub neg_part : ℤ → ℕ
neg_part (pos n) = 0
neg_part (negsuc n) = suc n

-- a - b, as an integer.
abbrev pub sub_ℕ : ℕ → ℕ → ℤ
sub_ℕ a b = if leb b a then pos (a - b) else negsuc (b - a - 1)

infixl 65 ◌+ℤ◌
unfoldable pub ◌+ℤ◌ : ℤ → ℤ → ℤ
a +ℤ b = sub_ℕ (pos_part a + pos_part b) (neg_part a + neg_part b)

abbrev pub ltℤ : ℤ → ℤ → Bool
ltℤ a b = ltb (pos_part a + neg_part b) (pos_part b + neg_part a)

-- A value modulo 2^32.
unfoldable pub residue : ℤ → ℕ
residue (pos n) = n % 2 ^ 32
residue (negsuc n) = 2 ^ 32 - 1 - n % 2 ^ 32

-- The `int` with a residue, and what a value is once it is an `int`: compilers wrap where C leaves
-- open what happens.
unfoldable pub int_of : ℕ → ℤ
int_of r = if ltb r (2 ^ 31) then pos r else negsuc (2 ^ 32 - 1 - r)

abbrev pub to_int : ℤ → ℤ
to_int a = int_of (residue a)

residue-int_of : (r : ℕ) → r < 2 ^ 32 → residue (int_of r) ≡ r
unfolding int_of residue
residue-int_of r h = elim (Bool-cases (ltb r (2 ^ 31))) [
  | inl small ↦ rw small (omega arith)
  | inr large ↦ rw large (omega arith)
]

residue-lt : (a : ℤ) → residue a < 2 ^ 32
unfolding residue
residue-lt (pos n) = omega arith
residue-lt (negsuc n) = omega arith

residue-add : (a b : ℤ) → residue (a +ℤ b) ≡ (residue a + residue b) % 2 ^ 32
unfolding residue ◌+ℤ◌
residue-add (pos a) (pos b) = ground arith
residue-add (pos a) (negsuc b) = ground arith
residue-add (negsuc a) (pos b) = ground arith
residue-add (negsuc a) (negsuc b) = ground arith

-- A sum may be taken of values that have wrapped.
pub to_int-add : (a b : ℤ) → to_int (to_int a +ℤ b) ≡ to_int (a +ℤ b)
to_int-add a b = ap int_of (
    residue-add (to_int a) b
    ∙ ap (λ r. (r + residue b) % 2 ^ 32) (residue-int_of (residue a) (residue-lt a))
    ∙ sym (residue-add a b))
