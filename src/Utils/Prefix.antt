-- ===== src/Utils/Prefix.antt =====
-- `ip_prefix_match` of src/utils.c: how many leading bits two addresses share.
use Prim.Native.Nat.{bit_and, bit_xor}
use hitsz_network_lab.Common.{
  ℕ, zero, suc, ◌+◌, ◌*◌, ◌%◌, ◌^◌, Bool, true, false, List, [], ◌∷◌, ◌==◌, if◌then◌else◌,
}

-- The inner loop, with the rounds that are left: whether it returned, and the count.
unfoldable pub prefix_bits : ℕ → ℕ → ℕ → Bool × ℕ
prefix_bits zero flag count = (false, count)
prefix_bits (suc rounds) flag count =
    let further = prefix_bits rounds (flag * 2 % 256) ((count + 1) % 256) in
    if bit_and flag (2 ^ 7) == 0 then further else (true, count)

-- The outer loop over the bytes.
unfoldable pub prefix_bytes : List ℕ → List ℕ → ℕ → ℕ
unfolding prefix_bits
prefix_bytes [] ipb count = count
prefix_bytes (a ∷ ipa) [] count = count
prefix_bytes (a ∷ ipa) (b ∷ ipb) count =
    let (returned, count') = prefix_bits 8 (bit_xor a b) count in
    let further = prefix_bytes ipa ipb count' in if returned then count' else further

unfoldable pub ip_prefix_match : List ℕ → List ℕ → ℕ
unfolding prefix_bytes
ip_prefix_match ipa ipb = prefix_bytes ipa ipb 0
