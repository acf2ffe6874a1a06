-- ===== src/Udp/RoundTrip.antt =====
-- A datagram from `udp_out` to `udp_in` of src/udp.c.
use hitsz_network_lab.Common.{
  ℕ, ◌+◌, ◌≤◌, ◌<◌, ◌≡◌, refl, sym, ap, ap₂, ◌∙◌, List, ◌++◌, length, arith, drop, get_or, Bool,
  true, false, if◌then◌else◌, ltb, le→ltb, ◌==◌, ==_iff, not, Option, some, none, length-read,
  nat_eq,
}
use hitsz_network_lab.Buf.{Buf, put, contents}
use hitsz_network_lab.Buf.Fields.{fetch16, put16, fetch16-contents}
use hitsz_network_lab.Buf.Contents.{contents-put_known, contents-remove_header}
use hitsz_network_lab.Buf
use hitsz_network_lab.Map
use hitsz_network_lab.Stack.{Stack, Outcome, done, BufPointer, deref, store}
use hitsz_network_lab.Stack.Stats.{count_received, count_error}
use hitsz_network_lab.Utils.{swap16, store16, load16, checksum16, transport_checksum}
use hitsz_network_lab.Utils.Words.{checksum16-lt, load_store_swap}
use hitsz_network_lab.Utils.Transport.{pseudo_header, transport_checksum_lem}
use hitsz_network_lab.Udp.{udp_in, code_port_unreach}

-- A datagram as RFC 768 lays it out, with a given checksum, and with the one over the pseudo header
-- and the datagram.
abbrev pub with_checksum : ℕ → ℕ → ℕ → List ℕ → List ℕ
with_checksum src_port dst_port checksum payload =
    store16 (swap16 src_port)
    ++ (store16 (swap16 dst_port)
        ++ (store16 (swap16 (length payload + 8)) ++ (store16 checksum ++ payload)))

abbrev pub datagram_checksum : List ℕ → List ℕ → ℕ → ℕ → List ℕ → ℕ
datagram_checksum src_ip dst_ip src_port dst_port payload = checksum16 (
    pseudo_header src_ip dst_ip 17 (length payload + 8)
    ++ with_checksum src_port dst_port 0 payload)

abbrev pub datagram : List ℕ → List ℕ → ℕ → ℕ → List ℕ → List ℕ
datagram src_ip dst_ip src_port dst_port payload =
    with_checksum src_port dst_port (datagram_checksum src_ip dst_ip src_port dst_port payload)
      payload

-- A buffer that holds a datagram, and what `udp_in` reads of it.
module _ (buf : Buf) (src_ip dst_ip payload : List ℕ) (src_port dst_port : ℕ)
    (holds : contents buf ≡ datagram src_ip dst_ip src_port dst_port payload)
    (addresses : (length src_ip ≡ 4) × (length dst_ip ≡ 4))
    (ports : (src_port < 65536) × (dst_port < 65536)) (room : 12 ≤ buf.off) where
  abbrev checksum : ℕ
  checksum = datagram_checksum src_ip dst_ip src_port dst_port payload

  measured : buf.len ≡ length payload + 8
  measured = sym (length-read buf.payload buf.off buf.len) ∙ ap length holds ∙ omega arith

  zeroed-contents : contents (put16 buf 6 0) ≡ with_checksum src_port dst_port 0 payload
  unfolding put16
  zeroed-contents = contents-put_known buf 6 2 (store16 0) _ holds refl (omega (arith, measured))

  summed : transport_checksum 17 (put16 buf 6 0) src_ip dst_ip ≡ (checksum, put16 buf 6 0)
  unfolding put16 put
  summed =
      transport_checksum_lem 17 (put16 buf 6 0) src_ip dst_ip addresses.0 addresses.1 room
      ∙ ap₂ (λ n bytes. (checksum16 (pseudo_header src_ip dst_ip 17 n ++ bytes), put16 buf 6 0))
          measured zeroed-contents

  backup : fetch16 buf 6 ≡ checksum
  backup =
      fetch16-contents buf 6 (omega (arith, measured))
      ∙ ap (λ l. load16 (get_or l 6 0) (get_or l 7 0)) holds
      ∙ omega (
        arith,
        checksum16-lt (
            pseudo_header src_ip dst_ip 17 (length payload + 8)
            ++ with_checksum src_port dst_port 0 payload),
      )

  abbrev restored : Buf
  restored = put16 (put16 buf 6 0) 6 checksum

  restored-len : restored.len ≡ length payload + 8
  unfolding put16 put
  restored-len = measured

  restored-contents : contents restored ≡ datagram src_ip dst_ip src_port dst_port payload
  unfolding put16 put
  restored-contents =
      contents-put_known (put16 buf 6 0) 6 2 (store16 checksum) _ zeroed-contents refl
        (omega (arith, measured))

  port_field :
      (i : ℕ)
      → i ≤ 4
      → swap16 (fetch16 restored i) ≡ (
          let l = datagram src_ip dst_ip src_port dst_port payload in
          swap16 (load16 (get_or l i 0) (get_or l (i + 1) 0)))
  port_field i h = ap swap16 (
      fetch16-contents restored i (omega (arith, restored-len))
      ∙ ap (λ l. load16 (get_or l i 0) (get_or l (i + 1) 0)) restored-contents)

  payload_left : contents (Buf.remove_header restored 8).1 ≡ payload
  payload_left =
      contents-remove_header restored 8 (omega (arith, restored-len))
      ∙ ap (drop 8) restored-contents

-- A datagram laid out as in RFC 768 whose checksum field holds the `checksum16` of the pseudo header
-- and the datagram as it is (not 0xFFFF in place of 0, which `udp_in` does not know), of up to 65527
-- bytes of data, from any sender to the address of the interface and to a port with a handler, in a
-- buffer with room for the pseudo header: `udp_in` counts it and gives the handler exactly its bytes, with the sender's address
-- and port, and the buffer then holds the data.
pub udp_in-delivers :
    (icmp_unreachable : Stack → BufPointer → List ℕ → ℕ → Outcome Stack)
    (handle : Stack → ℕ → List ℕ → List ℕ → ℕ → Outcome Stack) (s : Stack) (pointer : BufPointer)
    (src_ip payload : List ℕ) (src_port dst_port handler : ℕ)
    → contents (deref s pointer) ≡ datagram src_ip s.net_if_ip src_port dst_port payload
    → (length src_ip ≡ 4) × (length s.net_if_ip ≡ 4)
    → (src_port < 65536) × (dst_port < 65536)
    → length payload < 65528
    → 12 ≤ (deref s pointer).off
    → Map.lookup s.now s.udp_table dst_port ≡ some handler
    → (buf : Buf) × (contents buf ≡ payload)
      × (udp_in icmp_unreachable handle s pointer src_ip
          ≡ handle
              (store
                (record s { udp_stats = count_received (length payload + 8) s.udp_stats })
                pointer
                buf).0
              handler
              payload
              src_ip
              src_port)
unfolding udp_in
udp_in-delivers icmp_unreachable handle s pointer src_ip payload src_port dst_port handler holds a p
      small room opened =
    (
      stripped,
      payload_left buf src_ip s.net_if_ip payload src_port dst_port holds a p room,
      ap
            (λ (q : ℕ × Buf).
              outcome q.1 (ltb buf.len 8) (q.0 == fetch16 buf 6)
                (Map.lookup s.now s.udp_table (swap16 (fetch16 (put16 q.1 6 q.0) 2)))
                (swap16 (fetch16 (put16 q.1 6 q.0) 4)) (swap16 (fetch16 (put16 q.1 6 q.0) 0))
                (Buf.remove_header (put16 q.1 6 q.0) 8).1 (put16 q.1 6 q.0))
            (summed buf src_ip s.net_if_ip payload src_port dst_port holds a p room)
          ∙ ap₂
              (λ short same.
                outcome zeroed short same (Map.lookup s.now s.udp_table (swap16 (fetch16 full 2)))
                  (swap16 (fetch16 full 4)) (swap16 (fetch16 full 0)) stripped full)
              (le→ltb buf.len 8 (
                omega (
                  arith,
                  measured buf src_ip s.net_if_ip payload src_port dst_port holds a p room,
                )))
              ((==_iff _ _).1
                (sym (backup buf src_ip s.net_if_ip payload src_port dst_port holds a p room)))
          ∙ ap
              (λ found.
                outcome zeroed false true found (swap16 (fetch16 full 4)) (swap16 (fetch16 full 0))
                  stripped full)
              (ap (λ port. Map.lookup s.now s.udp_table port)
                  (field 2 (omega arith) ∙ load_store_swap dst_port p.1)
                ∙ opened)
          ∙ ap₂ (λ count from. outcome zeroed false true (some handler) count from stripped full)
              (field 4 (omega arith) ∙ load_store_swap (length payload + 8) (omega arith))
              (field 0 (omega arith) ∙ load_store_swap src_port p.0)
          ∙ ap
              (λ bytes.
                handle
                  (store (record s { udp_stats = count_received (length payload + 8) s.udp_stats })
                    pointer stripped).0
                  handler bytes src_ip src_port)
              (payload_left buf src_ip s.net_if_ip payload src_port dst_port holds a p room),
    )
  where
    buf : Buf
    buf = deref s pointer

    zeroed : Buf
    zeroed = put16 buf 6 0

    full : Buf
    full = put16 zeroed 6 (datagram_checksum src_ip s.net_if_ip src_port dst_port payload)

    stripped : Buf
    stripped = (Buf.remove_header full 8).1

    field :
        (i : ℕ)
        → i ≤ 4
        → swap16 (fetch16 full i) ≡ (
            let l = datagram src_ip s.net_if_ip src_port dst_port payload in
            swap16 (load16 (get_or l i 0) (get_or l (i + 1) 0)))
    field = port_field buf src_ip s.net_if_ip payload src_port dst_port holds a p room

    outcome : Buf → Bool → Bool → Option ℕ → ℕ → ℕ → Buf → Buf → Outcome Stack
    outcome summed_buf short same found count from rest whole =
        if short
        then done s
        else if not same
        then done (store s pointer summed_buf).0
        else (elim found [
          | none ↦
              let ip_buf = (Buf.add_header whole 20).1 in
              let counted = record s { udp_stats = count_received count s.udp_stats } in
              let failing = record counted { udp_stats = count_error counted.udp_stats } in
              let (s', pointer') = store failing pointer ip_buf in
              icmp_unreachable s' pointer' s.net_if_ip code_port_unreach
          | some h ↦
              handle
                (store (record s { udp_stats = count_received count s.udp_stats }) pointer rest).0 h
                (contents rest) src_ip from
        ])
