-- ===== src/Ip.antt =====
-- src/ip.c and include/ip.h: constants and the header, which the child modules fill in and read. The
-- host puts the first bit field of a byte in its low bits.
pub mod Tests
pub mod Fragment
pub mod Fragments
pub mod Header
pub mod Reassembly
pub mod Send
pub mod Receive
pub mod Datagram
pub mod Deliver
use Prim.Native.Nat.{bit_and, bit_or}
use hitsz_network_lab.Common.{ℕ, ◌+◌, ◌*◌, ◌/◌, ◌%◌, ◌^◌, List, [], ◌∷◌, replicate, if◌then◌else◌}
use hitsz_network_lab.Buf.{Buf, put, fetch}
use hitsz_network_lab.Buf.Fields.{fetch8, put8, put16}
use hitsz_network_lab.Buf
use hitsz_network_lab.Stack.{Stack}
use hitsz_network_lab.Utils.{swap16, checksum16}

-- sizeof (ip_hdr_t)
abbrev pub hdr_len : ℕ
hdr_len = 20

abbrev pub version_4 : ℕ
version_4 = 4

abbrev pub more_fragment : ℕ
more_fragment = 2 ^ 13

-- IP_FRAG_TIMEOUT_SEC
abbrev pub frag_timeout_sec : ℕ
frag_timeout_sec = 15

abbrev pub loopback_ip : List ℕ
loopback_ip = 127 ∷ 0 ∷ 0 ∷ 1 ∷ []

-- NET_PROTOCOL_ICMP, NET_PROTOCOL_TCP, NET_PROTOCOL_UDP, where all three are built in.
abbrev pub protocol_icmp : ℕ
protocol_icmp = 1

abbrev pub protocol_tcp : ℕ
protocol_tcp = 6

abbrev pub protocol_udp : ℕ
protocol_udp = 17

-- The fields that `ip_fragment_out` and the loopback of `ip_out` fill in, in their order, on a buffer
-- to which the header is added.
unfoldable pub fill_hdr : Stack → Buf → List ℕ → ℕ → ℕ → ℕ → Buf
unfolding put8
fill_hdr s hdr ip protocol id16 flags_fragment16 =
    let versioned = put8 hdr 0 (version_4 * 16 + fetch8 hdr 0 % 16) in
    let measured = put8 versioned 0 (fetch8 versioned 0 / 16 * 16 + hdr_len / 4) in
    let sized = put16 (put8 measured 1 0) 2 (swap16 hdr.len) in
    let identified = put16 (put16 sized 4 id16) 6 flags_fragment16 in
    let typed = put8 (put8 identified 8 64) 9 (protocol % 256) in
    let addressed = put (put typed 12 s.net_if_ip) 16 ip in
    let zeroed = put16 addressed 10 0 in put16 zeroed 10 (checksum16 (fetch zeroed 0 hdr_len))
