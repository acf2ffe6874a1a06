-- ===== src/Ip/Fragment.antt =====
-- One fragment that `ip_out` of src/ip.c sends, once the address is resolved.
use hitsz_network_lab.Common.{
  ℕ, ◌+◌, ◌-◌, ◌*◌, ◌%◌, ◌^◌, ◌≤◌, ◌<◌, ◌≡◌, refl, sym, ap, ap₂, ◌∙◌, List, ◌∷◌, ◌++◌, length,
  arith, read, Status, Bool, true, false, if◌then◌else◌, lt→leb, some, ok, failed, length-read,
  bytes_Eq,
}
use Prim.Native.Nat.{bit_or}
use hitsz_network_lab.Common.Bits.{bit_or-disjoint}
use hitsz_network_lab.Buf.{Buf, put, contents}
use hitsz_network_lab.Buf.Fields.{put8, put16}
use hitsz_network_lab.Buf.Contents.{add_header_fits, contents-put_all}
use hitsz_network_lab.Buf
use hitsz_network_lab.Map
use hitsz_network_lab.Stack.{
  Stack, Config, Outcome, uninitialised_pointer, done, fault, BufPointer, deref,
}
use hitsz_network_lab.Stack.Stats.{count_sent}
use hitsz_network_lab.Utils.{swap16}
use hitsz_network_lab.Ethernet.Frame.{frame, ethernet_out_lem}
use hitsz_network_lab.Arp.{arp_out}
use hitsz_network_lab.Ip.{fill_hdr}
use hitsz_network_lab.Ip.Header.{ip_header, contents-fill_hdr}
use hitsz_network_lab.Ip.Send.{ip_fragment_out, send_fragment}

-- The interface and the receiver have addresses of the right lengths, and the receiver's hardware
-- address is known.
abbrev pub IsResolved : Stack → List ℕ → List ℕ → Type 0
IsResolved s ip mac =
    (length s.net_if_mac ≡ 6)
    × (length s.net_if_ip ≡ 4)
    × (length ip ≡ 4)
    × (length mac ≡ 6)
    × (Map.lookup s.now s.arp_table ip ≡ some mac)

-- The frame of fragment `i`: the offset counts eight bytes, and 8192 says that more follow.
abbrev pub fragment_frame : Config → ℕ → List ℕ → List ℕ → ℕ → ℕ → List ℕ → Bool → List ℕ
fragment_frame c id ip mac protocol i bytes mf = frame mac c.net_if_mac 0x0800 (
    ip_header (length bytes + 20) (swap16 id) (swap16 ((if mf then 8192 else 0) + i * 185)) protocol
      c.net_if_ip ip
    ++ bytes)

-- The flags and the offset do not overlap.
flags_eq :
    (mf : Bool) (offset : ℕ)
    → offset < 8192
    → bit_or (if mf then 2 ^ 13 else 0) offset ≡ (if mf then 8192 else 0) + offset
flags_eq true offset h = bit_or-disjoint 13 1 offset h
flags_eq false offset h = bit_or-disjoint 13 0 offset h

-- What `arp_out` sends a packet to when the address is known.
arp_out-resolved :
    (s : Stack) (buf : Buf) (ip mac : List ℕ)
    → Map.lookup s.now s.arp_table ip ≡ some mac
    → length mac ≡ 6
    → length s.net_if_mac ≡ 6
    → 14 ≤ buf.off
    → buf.off + 46 < Buf.max_len
    → let bytes = frame mac s.net_if_mac 0x0800 (contents buf) in
      (arp_out s buf ip).0 ≡ record s {
        sent = bytes ∷ s.sent;
        ethernet_stats = count_sent (length bytes) s.ethernet_stats;
      }
unfolding arp_out
arp_out-resolved s buf ip mac found m n head room =
    rw (arp_out, found) (ethernet_out_lem s buf mac 0x0800 m n head room)

fill_hdr-place :
    (s : Stack) (hdr : Buf) (ip : List ℕ) (protocol id16 flags : ℕ)
    → ((fill_hdr s hdr ip protocol id16 flags).off ≡ hdr.off)
      × ((fill_hdr s hdr ip protocol id16 flags).len ≡ hdr.len)
unfolding fill_hdr put16 put8 put
fill_hdr-place s hdr ip protocol id16 flags = (refl, refl)

-- The stack once a fragment is sent.
abbrev pub with_fragment : Stack → List ℕ → List ℕ → ℕ → ℕ → List ℕ → Bool → Stack
with_fragment s ip mac protocol i bytes mf =
    let sent_frame = fragment_frame s.config s.ip_id ip mac protocol i bytes mf in
    record s {
      sent = sent_frame ∷ s.sent;
      ip_stats = count_sent (length bytes + 20) s.ip_stats;
      ethernet_stats = count_sent (length sent_frame) s.ethernet_stats;
    }

-- A fragment that ends in the middle of its payload array, with its headers in front.
ip_fragment_out-resolved :
    (s : Stack) (buf : Buf) (ip mac : List ℕ) (protocol i : ℕ) (mf : Bool)
    → IsResolved s ip mac
    → 34 ≤ buf.off
    → buf.off < 70000
    → i * 185 < 8192
    → ip_fragment_out s buf ip protocol s.ip_id (i * 185) mf
      ≡ with_fragment s ip mac protocol i (contents buf) mf
unfolding ip_fragment_out
ip_fragment_out-resolved s buf ip mac protocol i mf r head low small =
    arp_out-resolved counted filled ip mac r.4 r.3 r.0 (omega (arith, place, grown))
      (omega (arith, place, grown))
    ∙ ap₂
        (λ len bytes.
          let sent_frame = frame mac s.net_if_mac 0x0800 bytes in
          record s {
            sent = sent_frame ∷ s.sent;
            ip_stats = count_sent len s.ip_stats;
            ethernet_stats = count_sent (length sent_frame) s.ethernet_stats;
          })
        measured bytes_eq
  where
    hdr : Buf
    hdr = (Buf.add_header buf 20).1

    flags : ℕ
    flags = swap16 (bit_or (if mf then 2 ^ 13 else 0) (i * 185))

    filled : Buf
    filled = fill_hdr s hdr ip protocol (swap16 s.ip_id) flags

    counted : Stack
    counted = record s { ip_stats = count_sent filled.len s.ip_stats }

    place : (filled.off ≡ hdr.off) × (filled.len ≡ hdr.len)
    place = fill_hdr-place s hdr ip protocol (swap16 s.ip_id) flags

    grown : (hdr.len ≡ buf.len + 20) × (hdr.off ≡ buf.off - 20)
    grown = (
      ap (λ (q : Status × Buf). q.1.len) (add_header_fits buf 20 (omega arith)),
      ap (λ (q : Status × Buf). q.1.off) (add_header_fits buf 20 (omega arith)),
    )

    measured : filled.len ≡ length (contents buf) + 20
    measured = omega (arith, place, grown, length-read buf.payload buf.off buf.len)

    bytes_eq :
        contents filled
        ≡ ip_header
            (length (contents buf) + 20)
            (swap16 s.ip_id)
            (swap16 ((if mf then 8192 else 0) + i * 185))
            protocol
            s.net_if_ip
            ip
          ++ contents buf
    bytes_eq =
        contents-fill_hdr s buf ip protocol (swap16 s.ip_id) flags r.1 r.2 (omega arith)
        ∙ ap₂
            (λ n f.
              ip_header (n + 20) (swap16 s.ip_id) (swap16 f) protocol s.net_if_ip ip
              ++ contents buf)
            (sym (length-read buf.payload buf.off buf.len)) (flags_eq mf (i * 185) small)

init_fits :
    (b : Buf) (n : ℕ) → n < 65662 → Buf.init b n ≡ (ok, record b { len = n; off = 65662 - n })
unfolding Buf.init
init_fits b n h = rw (lt→leb 65662 n h)

-- One round, for a packet wherever it stands.
pub send_fragment-resolved :
    (s : Stack) (buf : BufPointer) (ip mac : List ℕ) (protocol i len : ℕ) (mf : Bool)
    → IsResolved s ip mac
    → len ≤ 1480
    → i * 185 < 8192
    → send_fragment s buf ip protocol i len mf
      ≡ done (
          with_fragment s ip mac protocol i
            (read (deref s buf).payload ((deref s buf).off + i * 1480) len)
            mf)
unfolding send_fragment
send_fragment-resolved s buf ip mac protocol i len mf r short small =
    ap go (init_fits s.garbage len (omega arith))
    ∙ ap done (
        ap (λ o. ip_fragment_out s local ip protocol s.ip_id o mf) no_wrap
        ∙ ip_fragment_out-resolved s local ip mac protocol i mf r (omega (arith, place))
            (omega (arith, place)) small
        ∙ ap (λ b. with_fragment s ip mac protocol i b mf)
            (contents-put_all start bytes
              (length-read (deref s buf).payload ((deref s buf).off + i * 1480) len)))
  where
    bytes : List ℕ
    bytes = read (deref s buf).payload ((deref s buf).off + i * 1480) len

    start : Buf
    start = record { len = len; off = 65662 - len; payload = s.garbage.payload }

    local : Buf
    local = put start 0 bytes

    place : local.off ≡ 65662 - len
    place = unfold put in refl

    go : Status × Buf → Outcome Stack
    go (status, ip_buf) = elim status [
      | failed ↦ fault uninitialised_pointer
      | ok ↦ done (ip_fragment_out s (put ip_buf 0 bytes) ip protocol s.ip_id (i * 185 % 2 ^ 16) mf)
    ]

    no_wrap : i * 185 % 2 ^ 16 ≡ i * 185
    no_wrap = omega arith
