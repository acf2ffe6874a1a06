-- ===== src/Utils/Verify.antt =====
-- What the checksum of src/utils.c is good for: a packet that carries it sums up to zero at the
-- receiver, and it may be computed in either byte order.
use hitsz_network_lab.Common.{
  ℕ, suc, ◌+◌, ◌-◌, ◌*◌, ◌/◌, ◌%◌, ◌≤◌, ◌<◌, ◌≡◌, refl, ap, ◌∙◌, List, [], ◌∷◌, ◌++◌, length, arith,
  length-append,
}
use hitsz_network_lab.Utils.{store16, checksum16, swap16}
use hitsz_network_lab.Utils.Swap.{swap16-eq}
use hitsz_network_lab.Utils.Checksum.{IsBytes, total, ones_complement, checksum16_lem}

-- An even number of bytes.
abbrev pub IsEven : List ℕ → Type 0
IsEven [] = Unit
IsEven (last ∷ []) = ⊥
IsEven (low ∷ high ∷ rest) = IsEven rest

total-append : (xs ys : List ℕ) → IsEven xs → total (xs ++ ys) ≡ total xs + total ys
unfolding total
total-append [] ys e = omega arith
total-append (x ∷ []) ys e = absurd e
total-append (x ∷ x' ∷ xs) ys e = omega (arith, total-append xs ys e)

IsBytes-append : (xs ys : List ℕ) → IsBytes xs → IsBytes ys → IsBytes (xs ++ ys)
IsBytes-append [] ys bx by = by
IsBytes-append (x ∷ xs) ys bx by = (bx.0, IsBytes-append xs ys bx.1 by)

-- A packet with a field for the checksum behind an even number of bytes.
abbrev pub with_field : List ℕ → ℕ → List ℕ → List ℕ
with_field before checksum after = before ++ (store16 checksum ++ after)

total-with_field :
    (before after : List ℕ) (c : ℕ)
    → IsEven before
    → c < 65536
    → total (with_field before c after) ≡ total before + (c + total after)
total-with_field before after c e h =
    total-append before (store16 c ++ after) e
    ∙ ap (◌+◌ (total before)) (unfold total in omega arith)

IsBytes-with_field :
    (before after : List ℕ) (c : ℕ)
    → IsBytes before
    → IsBytes after
    → IsBytes (with_field before c after)
IsBytes-with_field before after c bb ba =
    IsBytes-append before (store16 c ++ after) bb (omega arith, (omega arith, ba))

checksum16-lt : (bytes : List ℕ) → IsBytes bytes → length bytes ≤ 131070 → checksum16 bytes < 65536
checksum16-lt bytes b h = omega (arith, checksum16_lem bytes b h)

-- Filled into a field that was zero, behind an even number of bytes, the checksum makes the whole
-- packet sum up to zero, as a receiver may test; the packet has at most 131070 bytes.
pub checksum16-with_field :
    (before after : List ℕ)
    → IsEven before
    → IsBytes before
    → IsBytes after
    → length before + length after ≤ 131068
    → checksum16 (with_field before (checksum16 (with_field before 0 after)) after) ≡ 0
checksum16-with_field before after e bb ba h =
    checksum16_lem filled (IsBytes-with_field before after c bb ba) (size c)
    ∙ ground (
      arith,
      total-with_field before after c e bound,
      total-with_field before after 0 e (omega arith),
      checksum16_lem blank (IsBytes-with_field before after 0 bb ba) (size 0),
    )
  where
    blank : List ℕ
    blank = with_field before 0 after

    c : ℕ
    c = checksum16 blank

    filled : List ℕ
    filled = with_field before c after

    size : (x : ℕ) → length (with_field before x after) ≤ 131070
    size x = omega (arith, length-append before (store16 x ++ after))

    bound : c < 65536
    bound = checksum16-lt blank (IsBytes-with_field before after 0 bb ba) (size 0)

-- The bytes of each word exchanged.
unfoldable pub swap_words : List ℕ → List ℕ
swap_words [] = []
swap_words (last ∷ []) = last ∷ []
swap_words (low ∷ high ∷ rest) = high ∷ low ∷ swap_words rest

length-swap_words : (bytes : List ℕ) → length (swap_words bytes) ≡ length bytes
unfolding swap_words
length-swap_words [] = refl
length-swap_words (last ∷ []) = refl
length-swap_words (low ∷ high ∷ rest) = ap (λ n. suc (suc n)) (length-swap_words rest)

IsBytes-swap_words : (bytes : List ℕ) → IsBytes bytes → IsBytes (swap_words bytes)
unfolding swap_words
IsBytes-swap_words [] b = tt
IsBytes-swap_words (last ∷ []) b = b
IsBytes-swap_words (low ∷ high ∷ rest) b = (b.1.0, (b.0, IsBytes-swap_words rest b.1.1))

-- Each word w becomes 256 * w up to multiples of 65535, and back.
total-swap_words :
    (bytes : List ℕ)
    → IsEven bytes
    → IsBytes bytes
    → (j : ℕ) × (k : ℕ) × (total (swap_words bytes) + j * 65535 ≡ 256 * total bytes)
      × (total bytes + k * 65535 ≡ 256 * total (swap_words bytes))
unfolding swap_words total
total-swap_words [] e b = (0, 0, refl, refl)
total-swap_words (last ∷ []) e b = absurd e
total-swap_words (low ∷ high ∷ rest) e b =
    let (j, k, p, q) = total-swap_words rest e b.1.1 in
    (j + high, k + low, omega arith, omega arith)

-- Two sums that are 256 times one another, up to multiples of 65535, have swapped complements.
residues :
    (s t j k : ℕ)
    → t + j * 65535 ≡ 256 * s
    → s + k * 65535 ≡ 256 * t
    → let c = 65535 - ones_complement s in 65535 - ones_complement t ≡ c % 256 * 256 + c / 256 % 256
residues s t j k p q = ground arith

-- Summing an even number of up to 131070 bytes in the other byte order gives the swapped checksum: so
-- the program stores the checksum that its host computes, without a swap.
pub checksum16-swap_words :
    (bytes : List ℕ)
    → IsEven bytes
    → IsBytes bytes
    → length bytes ≤ 131070
    → checksum16 (swap_words bytes) ≡ swap16 (checksum16 bytes)
checksum16-swap_words bytes e b h =
    let (j, k, p, q) = total-swap_words bytes e b in
    ground (
      arith,
      checksum16_lem (swap_words bytes) (IsBytes-swap_words bytes b),
      checksum16_lem bytes b h,
      length-swap_words bytes,
      swap16-eq (checksum16 bytes),
      residues (total bytes) (total (swap_words bytes)) j k p q,
    )
