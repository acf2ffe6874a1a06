-- ===== src/Utils/Tests.antt =====
-- The theorems about src/utils.c at concrete packets.
use hitsz_network_lab.Common.{ℕ, ◌-◌, ◌≡◌, refl, List, [], ◌∷◌, ◌++◌, arith}
use hitsz_network_lab.Buf.{Buf, contents}
use hitsz_network_lab.Utils.{fold_carry, checksum16, transport_checksum}
use hitsz_network_lab.Utils.Prefix.{ip_prefix_match}
use hitsz_network_lab.Utils.Checksum.{
  total, ones_complement, fold_carry_lem, checksum16_lem, IsBytes,
}
use hitsz_network_lab.Utils.Verify.{with_field, checksum16-with_field}
use hitsz_network_lab.Utils.Shared.{shared_prefix, ip_prefix_match_lem}
use hitsz_network_lab.Utils.Transport.{pseudo_header, transport_checksum_lem}

fold_carry_lem_example : fold_carry 3 0x2ffff ≡ ones_complement 0x2ffff
fold_carry_lem_example = fold_carry_lem 0 0x2ffff (omega arith)

abbrev five_bytes : List ℕ
five_bytes = 255 ∷ 255 ∷ 255 ∷ 255 ∷ 7 ∷ []

five_bytes-IsBytes : IsBytes five_bytes
five_bytes-IsBytes = ground arith

checksum16_lem_example : checksum16 five_bytes ≡ 65535 - ones_complement (total five_bytes)
checksum16_lem_example = checksum16_lem five_bytes five_bytes-IsBytes (omega arith)

abbrev four_bytes : List ℕ
four_bytes = 69 ∷ 0 ∷ 255 ∷ 254 ∷ []

four_bytes-IsBytes : IsBytes four_bytes
four_bytes-IsBytes = ground arith

checksum16-with_field_example :
    checksum16 (with_field four_bytes (checksum16 (with_field four_bytes 0 five_bytes)) five_bytes)
    ≡ 0
checksum16-with_field_example =
    checksum16-with_field four_bytes five_bytes tt four_bytes-IsBytes five_bytes-IsBytes
      (omega arith)

abbrev segment : Buf
segment = record { len = 3; off = 65659; payload = λ i. 7 }

transport_checksum_lem_example :
    transport_checksum 17 segment (10 ∷ 0 ∷ 0 ∷ 1 ∷ []) (10 ∷ 0 ∷ 0 ∷ 2 ∷ []) ≡ (
      checksum16
          (pseudo_header (10 ∷ 0 ∷ 0 ∷ 1 ∷ []) (10 ∷ 0 ∷ 0 ∷ 2 ∷ []) 17 3 ++ contents segment),
      segment,
    )
transport_checksum_lem_example =
    transport_checksum_lem 17 segment (10 ∷ 0 ∷ 0 ∷ 1 ∷ []) (10 ∷ 0 ∷ 0 ∷ 2 ∷ []) refl refl
      (omega arith)

-- Two addresses that share 22 bits.
shares_22 : ip_prefix_match (192 ∷ 168 ∷ 160 ∷ 1 ∷ []) (192 ∷ 168 ∷ 163 ∷ 1 ∷ []) ≡ 22
unfolding ip_prefix_match
shares_22 = refl

ip_prefix_match_lem_example :
    ip_prefix_match (192 ∷ 168 ∷ 160 ∷ 1 ∷ []) (192 ∷ 168 ∷ 163 ∷ 1 ∷ [])
    ≡ shared_prefix (192 ∷ 168 ∷ 160 ∷ 1 ∷ []) (192 ∷ 168 ∷ 163 ∷ 1 ∷ [])
ip_prefix_match_lem_example =
    ip_prefix_match_lem (192 ∷ 168 ∷ 160 ∷ 1 ∷ []) (192 ∷ 168 ∷ 163 ∷ 1 ∷ []) (ground arith)
      (ground arith) (omega arith)
