-- ===== src/Utils/Shared.antt =====
-- What `ip_prefix_match` of src/utils.c counts: the leading bits that two addresses share.
use Prim.Native.Nat.{bit_xor, bit_xor-bitwise, digits, differ}
use native.Mathlib.Nat.{le_refl, pow-suc}
use native.Mathlib.Decide.{ℕ_discrete}
use hitsz_network_lab.Common.{
  ℕ, zero, suc, ◌+◌, ◌*◌, ◌/◌, ◌%◌, ◌^◌, ◌≤◌, ◌<◌, ◌≡◌, ◌≢◌, refl, sym, ap, ap₂, ◌∙◌, Bool, true,
  false, not, ◌&&◌, List, [], ◌∷◌, length, ◌==◌, if◌then◌else◌, arith,
}
use hitsz_network_lab.Utils.Prefix.{prefix_bits, prefix_bytes, ip_prefix_match}

-- How many leading bits two numbers of `n` bits share.
unfoldable pub shared_bits : ℕ → ℕ → ℕ → ℕ
shared_bits zero a b = 0
shared_bits (suc n) a b =
    let k = shared_bits n (a / 2) (b / 2) in
    if k == n then if a % 2 == b % 2 then suc n else n else k

-- And two addresses, the first byte in front.
unfoldable pub shared_prefix : List ℕ → List ℕ → ℕ
shared_prefix [] bs = 0
shared_prefix (a ∷ rest) [] = 0
shared_prefix (a ∷ rest) (b ∷ bs) =
    let k = shared_bits 8 a b in let more = shared_prefix rest bs in if k == 8 then 8 + more else k

abbrev pub AreBytes : List ℕ → Type 0
AreBytes [] = Unit
AreBytes (b ∷ bs) = (b < 256) × AreBytes bs

-- The count of the digits to go does not matter if it is large enough.
xor_count :
    (c d a b : ℕ) → a ≤ c → a ≤ d → digits (λ x. x) differ c a b ≡ digits (λ x. x) differ d a b
xor_count zero zero a b h k = refl
xor_count zero (suc d) zero b h k = refl
xor_count zero (suc d) (suc a) b h k = absurd (omega arith)
xor_count (suc c) zero zero b h k = refl
xor_count (suc c) zero (suc a) b h k = absurd (omega arith)
xor_count (suc c) (suc d) zero b h k = refl
xor_count (suc c) (suc d) (suc a) b h k =
    ap (λ t. t * 2 + differ (suc a % 2) (b % 2))
      (xor_count c d (suc a / 2) (b / 2) (omega arith) (omega arith))

differ_bits : (p q : ℕ) → p < 2 → q < 2 → (differ p q < 2) × ((differ p q == 0) ≡ (p == q))
differ_bits zero zero h k = (omega arith, refl)
differ_bits zero (suc zero) h k = (omega arith, refl)
differ_bits (suc zero) zero h k = (omega arith, refl)
differ_bits (suc zero) (suc zero) h k = (omega arith, refl)
differ_bits (suc (suc p)) q h k = absurd (omega arith)
differ_bits zero (suc (suc q)) h k = absurd (omega arith)
differ_bits (suc zero) (suc (suc q)) h k = absurd (omega arith)

low : (b : ℕ) → differ 0 (b % 2) ≡ b % 2
low b = refl

xor_step : (a b : ℕ) → bit_xor a b ≡ bit_xor (a / 2) (b / 2) * 2 + differ (a % 2) (b % 2)
xor_step zero b = bit_xor-bitwise zero b ∙ omega (arith, bit_xor-bitwise 0 (b / 2), low b)
xor_step (suc a) b =
    bit_xor-bitwise (suc a) b
    ∙ ap (λ t. t * 2 + differ (suc a % 2) (b % 2))
        (xor_count a (suc a / 2) (suc a / 2) (b / 2) (omega arith) (le_refl (suc a / 2))
          ∙ sym (bit_xor-bitwise (suc a / 2) (b / 2)))

shared_bits-xor : (n a b : ℕ) → shared_bits n (bit_xor a b) 0 ≡ shared_bits n a b
unfolding shared_bits
shared_bits-xor zero a b = refl
shared_bits-xor (suc n) a b =
    ap₂ (λ k same. if k == n then if same then suc n else n else k)
      (ap (λ x. shared_bits n x 0) half ∙ shared_bits-xor n (a / 2) (b / 2))
      (ap (λ t. t == 0) low ∙ (differ_bits (a % 2) (b % 2) (omega arith) (omega arith)).1)
  where
    half : bit_xor a b / 2 ≡ bit_xor (a / 2) (b / 2)
    half = omega (arith, xor_step a b, differ_bits (a % 2) (b % 2) (omega arith) (omega arith))

    low : bit_xor a b % 2 ≡ differ (a % 2) (b % 2)
    low = omega (arith, xor_step a b, differ_bits (a % 2) (b % 2) (omega arith) (omega arith))

-- The inner loop counts on from where it starts.
prefix_bits_from :
    (r f c : ℕ)
    → c + r < 256
    → prefix_bits r f c ≡ ((prefix_bits r f 0).0, c + (prefix_bits r f 0).1)
unfolding prefix_bits
prefix_bits_from zero f c h = ap (λ n. (false, n)) (omega arith)
prefix_bits_from (suc r) f c h =
    ground (arith, prefix_bits_from r (f * 2 % 256) (c + 1), prefix_bits_from r (f * 2 % 256) 1)

-- All numbers below a bound.
all_below : ℕ → (ℕ → Bool) → Bool
all_below zero p = true
all_below (suc n) p = p n && all_below n p

all_below-get : (n : ℕ) (p : ℕ → Bool) (x : ℕ) → all_below n p ≡ true → x < n → p x ≡ true
unfolding all_below
all_below-get zero p x h k = absurd (omega arith)
all_below-get (suc n) p x h k = elim (ℕ_discrete x n) [
  | yes same ↦ ground arith
  | no other ↦ ground (arith, all_below-get n p x)
]

-- The inner loop on each byte.
counts : ℕ → Bool
counts x =
    (prefix_bits 8 x 0).1 == shared_bits 8 x 0
    && (if (prefix_bits 8 x 0).0 then not (shared_bits 8 x 0 == 8) else shared_bits 8 x 0 == 8)

all_count : all_below 256 counts ≡ true
unfolding all_below counts prefix_bits shared_bits
all_count = refl

xor_lt : (n a b : ℕ) → a < 2 ^ n → b < 2 ^ n → bit_xor a b < 2 ^ n
xor_lt zero a b h k = omega (arith, ap₂ bit_xor (small a h) (small b k), none_set)
  where
    small : (x : ℕ) → x < 2 ^ 0 → x ≡ 0
    small x h = omega arith

    none_set : bit_xor 0 0 ≡ 0
    none_set = refl
xor_lt (suc n) a b h k = omega (
  arith,
  xor_step a b,
  xor_lt n (a / 2) (b / 2) (omega (arith, pow-suc 2 n)) (omega (arith, pow-suc 2 n)),
  differ_bits (a % 2) (b % 2) (omega arith) (omega arith),
  pow-suc 2 n,
)

-- The inner loop on two bytes.
prefix_bits-shared :
    (a b c : ℕ)
    → a < 256
    → b < 256
    → c + 8 < 256
    → prefix_bits 8 (bit_xor a b) c ≡ (not (shared_bits 8 a b == 8), c + shared_bits 8 a b)
prefix_bits-shared a b c h k small =
    prefix_bits_from 8 (bit_xor a b) c small
    ∙ ap₂ (λ r n. (r, c + n)) (returned (bit_xor a b) holds ∙ ap (λ n. not (n == 8)) same)
        (counted (bit_xor a b) holds ∙ same)
  where
    same : shared_bits 8 (bit_xor a b) 0 ≡ shared_bits 8 a b
    same = shared_bits-xor 8 a b

    holds : counts (bit_xor a b) ≡ true
    holds = all_below-get 256 counts (bit_xor a b) all_count (xor_lt 8 a b h k)

    counted : (x : ℕ) → counts x ≡ true → (prefix_bits 8 x 0).1 ≡ shared_bits 8 x 0
    counted x t = unfold counts in ground arith

    returned : (x : ℕ) → counts x ≡ true → (prefix_bits 8 x 0).0 ≡ not (shared_bits 8 x 0 == 8)
    returned x t = unfold counts in ground arith

prefix_bytes-shared :
    (xs ys : List ℕ) (c : ℕ)
    → AreBytes xs
    → AreBytes ys
    → c + 8 * length xs < 256
    → prefix_bytes xs ys c ≡ c + shared_prefix xs ys
unfolding prefix_bytes shared_prefix
prefix_bytes-shared [] ys c bx byt small = omega arith
prefix_bytes-shared (a ∷ xs) [] c bx byt small = omega arith
prefix_bytes-shared (a ∷ xs) (b ∷ ys) c bx byt small = elim (ℕ_discrete (shared_bits 8 a b) 8) [
  | yes all ↦
      rw (prefix_bits-shared a b c bx.0 byt.0 (omega arith), all)
        (prefix_bytes-shared xs ys (c + 8) bx.1 byt.1 (omega arith) ∙ omega arith)
  | no part ↦ rw (prefix_bits-shared a b c bx.0 byt.0 (omega arith), differs part) refl
]
  where
    differs : shared_bits 8 a b ≢ 8 → (shared_bits 8 a b == 8) ≡ false
    differs part = ground arith

-- For two addresses of at most 31 bytes, `ip_prefix_match` is the number of leading bits that they
-- share, all bits of the bytes up to the first that differ and then the leading bits that those share.
pub ip_prefix_match_lem :
    (ipa ipb : List ℕ)
    → AreBytes ipa
    → AreBytes ipb
    → length ipa < 32
    → ip_prefix_match ipa ipb ≡ shared_prefix ipa ipb
unfolding ip_prefix_match
ip_prefix_match_lem ipa ipb a b short =
    prefix_bytes-shared ipa ipb 0 a b (omega arith) ∙ omega arith
