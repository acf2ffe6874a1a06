-- ===== src/Udp.antt =====
-- src/udp.c and include/udp.h. `ip_out` of src/ip.c, `icmp_unreachable` of src/icmp.c and what the
-- handlers of the applications do are parameters; a handler is known by a number.
pub mod RoundTrip
pub mod Build
pub mod Tests
use hitsz_network_lab.Common.{ℕ, not, List, ltb, ◌==◌, if◌then◌else◌, none, some, nat_eq, Status}
use hitsz_network_lab.Buf.{Buf, fetch, put, contents}
use hitsz_network_lab.Buf.Fields.{fetch16, put16}
use hitsz_network_lab.Buf
use hitsz_network_lab.Map.{Map, Slot, modify}
use hitsz_network_lab.Map
use hitsz_network_lab.Stack.{Stack, Outcome, done, BufPointer, tx, deref, store}
use hitsz_network_lab.Stack.Stats.{count_sent, count_received, count_error}
use hitsz_network_lab.Stack.Tables.{NetHandler}
use hitsz_network_lab.Utils.{swap16, transport_checksum}
use hitsz_network_lab.Arp.{net_add_protocol}
use hitsz_network_lab.Ip.{protocol_udp}

-- sizeof (udp_hdr_t), ICMP_CODE_PORT_UNREACH
abbrev pub hdr_len : ℕ
hdr_len = 8

abbrev pub code_port_unreach : ℕ
code_port_unreach = 3

module _ (icmp_unreachable : Stack → BufPointer → List ℕ → ℕ → Outcome Stack)
    (handle : Stack → ℕ → List ℕ → List ℕ → ℕ → Outcome Stack) where
  -- The handler is given the bytes of the datagram.
  unfoldable pub udp_in : Stack → BufPointer → List ℕ → Outcome Stack
  udp_in s pointer src_ip =
      let buf = deref s pointer in
      let checksum_backup = fetch16 buf 6 in
      let (checksum, summed) = transport_checksum protocol_udp (put16 buf 6 0) src_ip s.net_if_ip in
      let restored = put16 summed 6 checksum in
      let counted = record s {
        udp_stats = count_received (swap16 (fetch16 restored 4)) s.udp_stats;
      } in
      if ltb buf.len hdr_len
      then done s
      else if not (checksum == checksum_backup)
      then done (store s pointer summed).0
      else (elim (Map.lookup s.now s.udp_table (swap16 (fetch16 restored 2))) [
        | none ↦
            let ip_buf = (Buf.add_header restored 20).1 in
            let failing = record counted { udp_stats = count_error counted.udp_stats } in
            let (s', pointer') = store failing pointer ip_buf in
            icmp_unreachable s' pointer' s.net_if_ip code_port_unreach
        | some handler ↦
            let payload = (Buf.remove_header restored hdr_len).1 in
            handle (store counted pointer payload).0 handler (contents payload) src_ip
              (swap16 (fetch16 restored 0))
      ])

module _ (ip_out : Stack → BufPointer → List ℕ → ℕ → Outcome Stack) where
  unfoldable pub udp_out : Stack → BufPointer → ℕ → List ℕ → ℕ → Outcome Stack
  udp_out s pointer src_port dst_ip dst_port =
      let hdr = (Buf.add_header (deref s pointer) hdr_len).1 in
      let ported = put16 (put16 hdr 0 (swap16 src_port)) 2 (swap16 dst_port) in
      let zeroed = put16 (put16 ported 4 (swap16 hdr.len)) 6 0 in
      let (checksum, summed) = transport_checksum protocol_udp zeroed s.net_if_ip dst_ip in
      let filled = put16 summed 6 checksum in
      let counted = record s { udp_stats = count_sent filled.len s.udp_stats } in
      let (s', pointer') = store counted pointer filled in ip_out s' pointer' dst_ip protocol_udp

  unfoldable pub udp_send : Stack → List ℕ → ℕ → ℕ → List ℕ → ℕ → Outcome Stack
  unfolding udp_out
  udp_send s bytes len src_port dst_ip dst_port =
      udp_out (record s { txbuf = put (Buf.init s.txbuf len).1 0 bytes }) tx src_port dst_ip
        dst_port

-- A pointer to a function has eight bytes; `udp_table` holds `udp_handler_t`.
unfoldable pub udp_init : Stack → Stack
unfolding net_add_protocol
udp_init s =
    net_add_protocol (record s { udp_table = Map.init 2 8 0 0 Map.memcpy 0 0 }) protocol_udp
      NetHandler.udp_in

unfoldable pub udp_open : Stack → ℕ → ℕ → Status × Stack
udp_open s port handler =
    let (status, table) = Map.set s.now s.udp_table port handler in
    (status, record s { udp_table = table })

unfoldable pub udp_close : Stack → ℕ → Stack
udp_close s port = record s { udp_table = Map.delete s.now s.udp_table port }
