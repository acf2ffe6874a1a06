-- ===== src/Udp/Build.antt =====
-- What `udp_out` of src/udp.c hands to `ip_out`.
use hitsz_network_lab.Common.{
  ℕ, ◌+◌, ◌-◌, ◌≤◌, ◌<◌, ◌≡◌, refl, sym, ap, ap₂, ◌∙◌, List, ◌++◌, length, arith, read, Status,
  length-read,
}
use hitsz_network_lab.Buf.{Buf, put, contents}
use hitsz_network_lab.Buf.Fields.{put16}
use hitsz_network_lab.Buf.Contents.{add_header_fits, contents-put_known, contents-added}
use hitsz_network_lab.Buf
use hitsz_network_lab.Stack.{Stack, Outcome, BufPointer, deref, store}
use hitsz_network_lab.Stack.Stats.{count_sent}
use hitsz_network_lab.Utils.{swap16, store16, checksum16, transport_checksum}
use hitsz_network_lab.Utils.Transport.{pseudo_header, transport_checksum_lem}
use hitsz_network_lab.Udp.{udp_out}
use hitsz_network_lab.Udp.RoundTrip.{with_checksum, datagram_checksum, datagram}

module _ (buf : Buf) (src_ip dst_ip : List ℕ) (src_port dst_port : ℕ)
    (addresses : (length src_ip ≡ 4) × (length dst_ip ≡ 4)) (room : 20 ≤ buf.off) where
  abbrev hdr : Buf
  hdr = (Buf.add_header buf 8).1

  grown : (hdr.len ≡ buf.len + 8) × (hdr.off ≡ buf.off - 8)
  grown = (
    ap (λ (q : Status × Buf). q.1.len) (add_header_fits buf 8 (omega arith)),
    ap (λ (q : Status × Buf). q.1.off) (add_header_fits buf 8 (omega arith)),
  )

  measured : hdr.len ≡ length (contents buf) + 8
  measured = omega (arith, grown, length-read buf.payload buf.off buf.len)

  abbrev zeroed : Buf
  zeroed =
      put16 (put16 (put16 (put16 hdr 0 (swap16 src_port)) 2 (swap16 dst_port)) 4 (swap16 hdr.len)) 6
        0

  zeroed-contents : contents zeroed ≡ with_checksum src_port dst_port 0 (contents buf)
  unfolding put16 put read
  zeroed-contents =
      contents-put_known _ 6 2 (store16 0) _
        (contents-put_known _ 4 2 (store16 (swap16 hdr.len)) _
          (contents-put_known _ 2 2 (store16 (swap16 dst_port)) _
            (contents-put_known hdr 0 2 (store16 (swap16 src_port)) _
              (contents-added buf 8 (omega arith)) refl (omega (arith, grown)))
            refl (omega (arith, grown)))
          refl (omega (arith, grown)))
        refl (omega (arith, grown))
      ∙ ap
          (λ n.
            store16 (swap16 src_port)
            ++ (store16 (swap16 dst_port) ++ (store16 (swap16 n) ++ (store16 0 ++ contents buf))))
          measured

  checksum : ℕ
  checksum = datagram_checksum src_ip dst_ip src_port dst_port (contents buf)

  summed : transport_checksum 17 zeroed src_ip dst_ip ≡ (checksum, zeroed)
  unfolding put16 put checksum
  summed =
      transport_checksum_lem 17 zeroed src_ip dst_ip addresses.0 addresses.1 (omega (arith, grown))
      ∙ ap₂ (λ n bytes. (checksum16 (pseudo_header src_ip dst_ip 17 n ++ bytes), zeroed)) measured
          zeroed-contents

  filled-contents :
      contents (put16 zeroed 6 checksum) ≡ datagram src_ip dst_ip src_port dst_port (contents buf)
  unfolding put16 put checksum
  filled-contents =
      contents-put_known zeroed 6 2 (store16 checksum) _ zeroed-contents refl (omega (arith, grown))

-- With IPv4 addresses, 20 bytes of headroom and at most 65527 bytes of data, `udp_out` puts the header
-- of RFC 768 in front of the packet, with its ports and its length, and with the `checksum16` of the
-- pseudo header and the datagram, which is written as it is, also when it is 0; it counts the
-- datagram and hands it to `ip_out`.
pub udp_out-builds :
    (ip_out : Stack → BufPointer → List ℕ → ℕ → Outcome Stack) (s : Stack) (pointer : BufPointer)
    (dst_ip : List ℕ) (src_port dst_port : ℕ)
    → length s.net_if_ip ≡ 4
    → length dst_ip ≡ 4
    → 20 ≤ (deref s pointer).off
    → length (contents (deref s pointer)) < 65528
    → (buf : Buf) × (contents buf
        ≡ datagram s.net_if_ip dst_ip src_port dst_port (contents (deref s pointer)))
      × (udp_out ip_out s pointer src_port dst_ip dst_port ≡ (
          let (s', pointer') =
            store
              (record s { udp_stats = count_sent (length (contents buf)) s.udp_stats })
              pointer
              buf in
          ip_out s' pointer' dst_ip 17))
unfolding udp_out
udp_out-builds ip_out s pointer dst_ip src_port dst_port m n room small = (
  filled,
  filled-contents start s.net_if_ip dst_ip src_port dst_port (m, n) room,
  ap go (summed start s.net_if_ip dst_ip src_port dst_port (m, n) room)
      ∙ ap (λ len. send len filled) (sym (length-read filled.payload filled.off filled.len)),
)
  where
    start : Buf
    start = deref s pointer

    filled : Buf
    filled =
        put16 (zeroed start s.net_if_ip dst_ip src_port dst_port (m, n) room) 6
          (checksum start s.net_if_ip dst_ip src_port dst_port (m, n) room)

    send : ℕ → Buf → Outcome Stack
    send len buf =
        let (s', pointer') =
          store (record s { udp_stats = count_sent len s.udp_stats }) pointer buf in
        ip_out s' pointer' dst_ip 17

    go : ℕ × Buf → Outcome Stack
    go (sum, buf) = send (put16 buf 6 sum).len (put16 buf 6 sum)
