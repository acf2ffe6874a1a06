-- ===== src/Utils.antt =====
-- include/utils.h and src/utils.c: byte order, and the Internet checksum. The host is
-- little-endian, as the program supposes: a 16-bit load from memory reads the low byte first.
-- `uint32_t` sums keep their wrap-around.
pub mod Tests
pub mod Prefix
pub mod Swap
pub mod Words
pub mod Shared
pub mod Checksum
pub mod Verify
pub mod Transport
use Prim.Native.Nat.{bit_and, bit_or}
use hitsz_network_lab.Common.{
  ℕ, zero, suc, ◌+◌, ◌-◌, ◌*◌, ◌/◌, ◌%◌, ◌^◌, List, [], ◌∷◌, ◌++◌, ◌==◌, if◌then◌else◌,
}
use hitsz_network_lab.Buf.{Buf, fetch, put, contents}
use hitsz_network_lab.Buf

-- Shifts of words.
infixl 75 ◌<<<◌ ◌>>>◌
abbrev pub ◌<<<◌ : ℕ → ℕ → ℕ
x <<< k = x * 2 ^ k

abbrev pub ◌>>>◌ : ℕ → ℕ → ℕ
x >>> k = x / 2 ^ k

abbrev pub u32 : ℕ → ℕ
u32 x = x % 2 ^ 32

unfoldable pub swap16 : ℕ → ℕ
swap16 x = bit_or (bit_and x 0xff <<< 8) (bit_and (x >>> 8) 0xff)

unfoldable pub swap32 : ℕ → ℕ
swap32 x =
    bit_or
      (bit_or (bit_or (bit_and x 0xff <<< 24) (bit_and x 0xff00 <<< 8)) (bit_and x 0xff0000 >>> 8))
      (bit_and (x >>> 24) 0xff)

-- A `uint16_t` in memory, and the two bytes that store one.
abbrev pub load16 : ℕ → ℕ → ℕ
load16 low high = low + 256 * high

abbrev pub store16 : ℕ → List ℕ
store16 x = (x % 256) ∷ (x / 256 % 256) ∷ []

-- The `for` loop of `checksum16` over the bytes that are left.
unfoldable pub sum_words : ℕ → List ℕ → ℕ
sum_words sum [] = sum
sum_words sum (last ∷ []) = u32 (sum + last)
sum_words sum (low ∷ high ∷ rest) = sum_words (u32 (sum + load16 low high)) rest

-- The `while` loop, with fuel for its rounds; what is left of a round waits in the `let`.
unfoldable pub fold_carry : ℕ → ℕ → ℕ
fold_carry zero sum = sum
fold_carry (suc fuel) sum =
    let folded = fold_carry fuel (u32 (bit_and sum 0xffff + sum >>> 16)) in
    if sum >>> 16 == 0 then sum else folded

-- The `while` loop is given fuel for three rounds; see Utils/Checksum.
unfoldable pub checksum16 : List ℕ → ℕ
checksum16 bytes = bit_and (2 ^ 32 - 1 - fold_carry 3 (sum_words 0 bytes)) 0xffff

-- sizeof (peso_hdr_t)
abbrev pub peso_hdr_len : ℕ
peso_hdr_len = 12

-- The pseudo header in memory: addresses, a zero byte, the protocol, the length in network order.
abbrev pub peso_hdr : List ℕ → List ℕ → ℕ → ℕ → List ℕ
peso_hdr src_ip dst_ip protocol len = src_ip ++ (dst_ip ++ 0 ∷ protocol ∷ store16 (swap16 len))

-- The checksum, and the buffer afterwards.
unfoldable pub transport_checksum : ℕ → Buf → List ℕ → List ℕ → ℕ × Buf
transport_checksum protocol buf src_ip dst_ip =
    let added = (Buf.add_header buf peso_hdr_len).1 in
    let ip_header_backup = fetch added 0 peso_hdr_len in
    let filled = put added 0 (peso_hdr src_ip dst_ip protocol (added.len - peso_hdr_len)) in
    let checksum = checksum16 (contents filled) in
    let restored = put filled 0 ip_header_backup in
    (checksum, (Buf.remove_header restored peso_hdr_len).1)
