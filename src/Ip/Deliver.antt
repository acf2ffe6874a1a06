-- ===== src/Ip/Deliver.antt =====
-- What `ip_in` of src/ip.c does with a whole datagram.
use hitsz_network_lab.Common.{
  subst, ℕ, ◌+◌, ◌-◌, ◌≤◌, ◌<◌, ◌≡◌, refl, sym, ap, ap₂, ◌∙◌, Bool, true, false, List, ◌++◌, length,
  arith, if◌then◌else◌, ltb, bytes_eq_iff,
}
use hitsz_network_lab.Buf.{Buf, put, fetch, contents}
use hitsz_network_lab.Buf.Fields.{fetch8, fetch16, put16}
use hitsz_network_lab.Buf
use hitsz_network_lab.Stack.{Stack, Outcome, done, ◌>>=◌, BufPointer, rx, tx, own, deref, store}
use hitsz_network_lab.Stack.Stats.{count_received}
use hitsz_network_lab.Utils.{swap16, checksum16}
use hitsz_network_lab.Ip.Receive.{Header, header, is_our_packet, deliver, accept, ip_in}
use hitsz_network_lab.Ip.Datagram.{
  whole_header, accepted, destination, read_header, restored, stripped-contents, backup, trimmed,
}

is_our_packet_for :
    (s : Stack) (buf : Buf) → fetch buf 16 4 ≡ s.net_if_ip → is_our_packet s buf ≡ true
unfolding is_our_packet
is_our_packet_for s buf e = ground (arith, (bytes_eq_iff (fetch buf 16 4) s.net_if_ip).1 e)

-- The end of `ip_in` for a datagram, where no time to live is kept for a ping.
abbrev pub hand_up :
    (Stack → BufPointer → ℕ → List ℕ → Outcome (Bool × Stack))
    → (Stack → BufPointer → List ℕ → ℕ → Outcome Stack)
    → Stack
    → BufPointer
    → Buf
    → ℕ
    → List ℕ
    → ℕ
    → Outcome Stack
hand_up net_in icmp_unreachable s pointer copy protocol src len =
    net_in (record s { ip_stats = count_received len s.ip_stats }) pointer protocol src >>= λ r.
    if r.0 then done r.1 else icmp_unreachable r.1 (own copy) src 2

store-ping : (s : Stack) (pointer : BufPointer) (buf : Buf) → (store s pointer buf).0.ping ≡ s.ping
unfolding store
store-ping s rx buf = refl
store-ping s tx buf = refl
store-ping s (own b) buf = refl

module _ (net_in : Stack → BufPointer → ℕ → List ℕ → Outcome (Bool × Stack))
    (icmp_unreachable : Stack → BufPointer → List ℕ → ℕ → Outcome Stack)
    (set_ping_req_ttl : Stack → ℕ → Buf → Outcome Stack) (malloc : ℕ → Bool) where
  deliver_quiet :
      (s : Stack) (pointer : BufPointer) (copy : Buf) (hdr : Header) (len : ℕ)
      → s.ping ≡ false
      → deliver net_in icmp_unreachable set_ping_req_ttl malloc s pointer copy hdr len
        ≡ hand_up net_in icmp_unreachable s pointer copy hdr.protocol hdr.src_ip len
  unfolding deliver
  deliver_quiet s pointer copy hdr len quiet = ground arith

  ip_in_accepts :
      (s : Stack) (pointer : BufPointer)
      → let buf = deref s pointer in
        let zeroed = put16 buf 10 0 in
        let restored = put16 zeroed 10 (fetch16 buf 10) in
        20 ≤ buf.len
        → fetch8 buf 0 ≡ 0x45
        → swap16 (fetch16 buf 2) ≤ buf.len
        → checksum16 (fetch zeroed 0 20) ≡ fetch16 buf 10
        → is_our_packet s restored ≡ true
        → ip_in net_in icmp_unreachable set_ping_req_ttl malloc s pointer
          ≡ accept net_in icmp_unreachable set_ping_req_ttl malloc s pointer
              (Buf.copy s.garbage buf)
              restored
  unfolding ip_in
  ip_in_accepts s pointer long first fits summed ours = ground arith

  accept_whole :
      (s : Stack) (pointer : BufPointer) (copy buf : Buf) (total_len : ℕ)
      → (header buf).mf ≡ false
      → (header buf).frag_offset ≡ 0
      → (header buf).total_len ≡ total_len
      → fetch8 buf 0 ≡ 0x45
      → let trimmed =
          if ltb total_len buf.len then (Buf.remove_padding buf (buf.len - total_len)).1 else buf in
        let (s', pointer') = store s pointer (Buf.remove_header trimmed 20).1 in
        accept net_in icmp_unreachable set_ping_req_ttl malloc s pointer copy buf
        ≡ deliver net_in icmp_unreachable set_ping_req_ttl malloc s' pointer' copy
            (header buf)
            total_len
  unfolding accept
  accept_whole s pointer copy buf total_len whole first total ihl = rw (ihl, total, whole, first)

  -- A datagram with a header of RFC 791 without options (any type of service, identifier, time to live
  -- and protocol, with DF set or not, but neither MF nor an offset), with its right length and checksum,
  -- of up to 65515 bytes of data from any sender to the address of the interface, both addresses of
  -- four bytes, with or without padding behind it, in a build without PING: `ip_in` counts it and
  -- gives `net_in` exactly its data, with the protocol and the sender's address. If no handler is
  -- registered for the protocol, the sender is told so, with the copy of the packet.
  pub ip_in-delivers :
      (s : Stack) (pointer : BufPointer) (src payload padding : List ℕ) (tos id16 ttl protocol : ℕ)
      (df : Bool)
      → contents (deref s pointer)
        ≡ whole_header tos (length payload + 20) id16 df ttl protocol src s.net_if_ip
          ++ (payload ++ padding)
      → (length src ≡ 4) × (length s.net_if_ip ≡ 4)
      → length payload < 65516
      → s.ping ≡ false
      → (buf : Buf) × (contents buf ≡ payload)
        × (ip_in net_in icmp_unreachable set_ping_req_ttl malloc s pointer ≡ (
            let (s', pointer') = store s pointer buf in
            hand_up net_in icmp_unreachable s' pointer'
              (Buf.copy s.garbage (deref s pointer))
              protocol
              src
              (length payload + 20)))
  ip_in-delivers s pointer src payload padding tos id16 ttl protocol df holds addresses small
        quiet =
      let buf = deref s pointer in
      let zeroed = put16 buf 10 0 in
      let copy = Buf.copy s.garbage buf in
      let total_len = length payload + 20 in
      let same =
        backup buf src s.net_if_ip payload padding tos id16 ttl protocol df holds addresses small in
      let read =
        restored buf src s.net_if_ip payload padding tos id16 ttl protocol df holds addresses
          small in
      let (long, version, fits, summed, version') =
        accepted buf src s.net_if_ip payload padding tos id16 ttl protocol df holds addresses
          small in
      let (protocol_read, src_read, total_read, whole, first) =
        read_header buf src s.net_if_ip payload padding tos id16 ttl protocol df holds addresses
          small in
      let ours = is_our_packet_for s read (
        destination buf src s.net_if_ip payload padding tos id16 ttl protocol df holds addresses
          small) in
      let stripped =
        (Buf.remove_header
          (trimmed buf src s.net_if_ip payload padding tos id16 ttl protocol df holds addresses
            small)
          20).1 in
      let (s', pointer') = store s pointer stripped in
      (
        stripped,
        stripped-contents buf src s.net_if_ip payload padding tos id16 ttl protocol df holds
            addresses small,
        ip_in_accepts s pointer long version fits summed
              (subst (λ c. is_our_packet s (put16 zeroed 10 c) ≡ true) (sym same) ours)
            ∙ ap
                (λ c.
                  accept net_in icmp_unreachable set_ping_req_ttl malloc s pointer copy
                    (put16 zeroed 10 c))
                same
            ∙ accept_whole s pointer copy read total_len whole first total_read version'
            ∙ deliver_quiet s' pointer' copy (header read) total_len
                (store-ping s pointer stripped ∙ quiet)
            ∙ ap₂ (λ p a. hand_up net_in icmp_unreachable s' pointer' copy p a total_len)
                protocol_read src_read,
      )
