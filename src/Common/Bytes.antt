-- ===== src/Common/Bytes.antt =====
-- Raw memory: a byte for each address, block reads, and the block writes of `memcpy` and `memset`.
use Prim.Native.Nat.{ℕ, zero, suc, ◌+◌, ◌-◌, ◌≤◌, ◌<◌}
use mathlib.Core.Path.{◌≡◌, refl, sym, ap, ap₂, fun_ext, ◌∙◌}
use mathlib.Core.Logic.{◌⊎◌}
use mathlib.Core.List.{List, [], ◌∷◌, ◌++◌}
use native.Mathlib.Omega.{arith}
use hitsz_network_lab.Common.Tests.{leb, ltb, ◌==◌, if◌then◌else◌}
use hitsz_network_lab.Common.Lists.{
  length, get_or, take, drop, get_or-cons, get_or_outside, drop-append_length, take-append_length,
}
use Prim.Native.Nat.add
use native.Mathlib.Nat.{add-zero}

abbrev pub Memory : Type 0
Memory = ℕ → ℕ

-- The `n` bytes from address `a` on.
unfoldable pub read : Memory → ℕ → ℕ → List ℕ
read m a zero = []
read m a (suc n) = m a ∷ read m (a + 1) n

-- `memcpy (a, bytes, length bytes)`.
unfoldable pub write : Memory → ℕ → List ℕ → Memory
write m a bytes i = if leb a i then get_or bytes (i - a) (m i) else m i

pub length-read : (m : Memory) (a n : ℕ) → length (read m a n) ≡ n
unfolding read
length-read m a zero = refl
length-read m a (suc n) = ap suc (length-read m (a + 1) n)

-- Reads that agree address by address are equal.
pub read_ext :
    (m m' : Memory) (a b n : ℕ)
    → ((i : ℕ) → i < n → m (a + i) ≡ m' (b + i))
    → read m a n ≡ read m' b n
unfolding read
read_ext m m' a b zero h = refl
read_ext m m' a b (suc n) h =
    ap₂ ◌∷◌ first
      (read_ext m m' (a + 1) (b + 1) n λ i p. rw (shift a i, shift b i) (h (suc i) (omega arith)))
  where
    first : m a ≡ m' b
    first = rw (← add-zero a, ← add-zero b) (h 0 (omega arith))

    shift : (c i : ℕ) → c + 1 + i ≡ c + suc i
    shift c i = omega arith

pub read-append : (m : Memory) (a k n : ℕ) → read m a (k + n) ≡ read m a k ++ read m (a + k) n
unfolding read
read-append m a zero n = rw (add.zero, add-zero)
read-append m a (suc k) n = rw (add.suc) (
    ap (◌∷◌ (m a))
      (read-append m (a + 1) k n ∙ ap (λ b. read m (a + 1) k ++ read m b n) (omega arith)))

-- A write elsewhere changes nothing.
pub read-write_disjoint :
    (m : Memory) (a b n : ℕ) (bytes : List ℕ)
    → (b + n ≤ a) ⊎ (a + length bytes ≤ b)
    → read (write m a bytes) b n ≡ read m b n
unfolding write
read-write_disjoint m a b n bytes h =
    read_ext (write m a bytes) m b b n
      λ i p. ground (arith, get_or_outside bytes (b + i - a) (m (b + i)))

-- A write byte by byte.
write-cons :
    (m : Memory) (a : ℕ) (x : ℕ) (xs : List ℕ) (i : ℕ)
    → write m a (x ∷ xs) i ≡ (if i == a then x else write m (a + 1) xs i)
unfolding write
write-cons m a x xs i =
    ground (arith, get_or-cons x xs (i - a) (m i), here (i - a), ap (λ k. get_or xs k (m i)) apart)
  where
    here : (k : ℕ) → k ≡ 0 → get_or (x ∷ xs) k (m i) ≡ x
    here zero e = refl
    here (suc k) e = absurd (omega arith)

    apart : i - a - 1 ≡ i - (a + 1)
    apart = omega arith

-- A write is read back.
pub read-write_self :
    (m : Memory) (a : ℕ) (bytes : List ℕ) → read (write m a bytes) a (length bytes) ≡ bytes
unfolding read
read-write_self m a [] = refl
read-write_self m a (x ∷ xs) = ap₂ ◌∷◌ (ground (arith, write-cons m a x xs a)) (
    read_ext _ (write m (a + 1) xs) (a + 1) (a + 1) (length xs)
      (λ i p. ground (arith, write-cons m a x xs (a + 1 + i)))
    ∙ read-write_self m (a + 1) xs)

-- A read from the middle of a block, and a read of its front.
pub read-drop : (m : Memory) (a k n : ℕ) → n ≤ k → read m (a + n) (k - n) ≡ drop n (read m a k)
read-drop m a k n h = sym (ap (drop n) parts ∙ drop-append_length _ _ n (sym (length-read m a n)))
  where
    parts : read m a k ≡ read m a n ++ read m (a + n) (k - n)
    parts = ap (read m a) (omega arith) ∙ read-append m a n (k - n)

pub read-take : (m : Memory) (a k n : ℕ) → n ≤ k → read m a n ≡ take n (read m a k)
read-take m a k n h = sym (ap (take n) parts ∙ take-append_length _ _ n (sym (length-read m a n)))
  where
    parts : read m a k ≡ read m a n ++ read m (a + n) (k - n)
    parts = ap (read m a) (omega arith) ∙ read-append m a n (k - n)

pub get_or-read :
    (m : Memory) (a n k : ℕ) (d : ℕ) → get_or (read m a n) k d ≡ (if ltb k n then m (a + k) else d)
unfolding read
get_or-read m a zero k d = ground arith
get_or-read m a (suc n) zero d = ground (arith, ap m (add-zero a))
get_or-read m a (suc n) (suc k) d = ground (arith, get_or-read m (a + 1) n k d, ap m shift)
  where
    shift : a + 1 + k ≡ a + suc k
    shift = omega arith

-- Writing back what stood there undoes a write.
pub write_restore :
    (m : Memory) (a : ℕ) (bytes : List ℕ) → write (write m a bytes) a (read m a (length bytes)) ≡ m
unfolding write
write_restore m a bytes = fun_ext λ i. ground (
  arith,
  get_or-read m a (length bytes) (i - a) (write m a bytes i),
  get_or_outside bytes (i - a) (m i),
  ap m (there i),
)
  where
    there : (i : ℕ) → a + (i - a) ≡ (if leb a i then i else a)
    there i = ground arith
