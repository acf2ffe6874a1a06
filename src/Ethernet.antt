-- ===== src/Ethernet.antt =====
-- src/ethernet.c and include/ethernet.h, with `driver_recv` and `driver_send` of src/driver.c: what
-- pcap hands over is an argument, and the frames handed to pcap are kept in `sent`. `net_in` of
-- src/net.c is a parameter of the receiving side.
pub mod Tests
pub mod Frame
pub mod Poll
use hitsz_network_lab.Common.{
  ℕ, ◌+◌, ◌-◌, List, [], ◌∷◌, length, ltb, if◌then◌else◌, Option, none, some,
}
use hitsz_network_lab.Buf.{Buf, put, fetch, contents}
use hitsz_network_lab.Buf.Fields.{fetch16, put16}
use hitsz_network_lab.Buf
use hitsz_network_lab.Stack.{Stack, Outcome, done, fault, ◌>>=◌}
use hitsz_network_lab.Stack.Stats.{count_sent, count_received}
use hitsz_network_lab.Utils.{swap16}

-- ETHERNET_MIN_TRANSPORT_UNIT, ETHERNET_MAX_TRANSPORT_UNIT, sizeof (ether_hdr_t)
abbrev pub min_transport_unit : ℕ
min_transport_unit = 46

abbrev pub max_transport_unit : ℕ
max_transport_unit = 1500

abbrev pub hdr_len : ℕ
hdr_len = 14

abbrev pub ether_broadcast_mac : List ℕ
ether_broadcast_mac = 0xff ∷ 0xff ∷ 0xff ∷ 0xff ∷ 0xff ∷ 0xff ∷ []

unfoldable pub driver_send : Stack → Buf → Stack
driver_send s buf = record s { sent = contents buf ∷ s.sent }

-- The stack, and the buffer that the pointer points to afterwards.
unfoldable pub ethernet_out : Stack → Buf → List ℕ → ℕ → Stack × Buf
unfolding driver_send
ethernet_out s buf mac protocol =
    let padded =
      if ltb buf.len min_transport_unit
      then (Buf.add_padding buf (min_transport_unit - buf.len)).1
      else buf in
    let hdr = (Buf.add_header padded hdr_len).1 in
    let filled = put16 (put (put hdr 0 mac) 6 s.net_if_mac) 12 (swap16 protocol) in
    let counted = record s { ethernet_stats = count_sent filled.len s.ethernet_stats } in
    (driver_send counted filled, filled)

unfoldable pub ethernet_init : Stack → Stack
ethernet_init s = record s { rxbuf = (Buf.init s.rxbuf (max_transport_unit + hdr_len)).1 }

-- The frame that pcap returned, if any: it goes where the data pointer of the buffer stands.
unfoldable pub driver_recv : Buf → Option (List ℕ) → ℕ × Buf
driver_recv buf none = (0, buf)
driver_recv buf (some pkt_data) =
    (length pkt_data, record (put buf 0 pkt_data) { len = length pkt_data })

module _ (net_in : Stack → Buf → ℕ → List ℕ → Outcome (Stack × Buf)) where
  unfoldable pub ethernet_in : Stack → Buf → Outcome (Stack × Buf)
  ethernet_in s buf =
      if ltb buf.len hdr_len
      then done (s, buf)
      else (let protocol = swap16 (fetch16 buf 12) in
          let src = fetch buf 6 6 in
          let counted = record s { ethernet_stats = count_received buf.len s.ethernet_stats } in
          net_in counted (Buf.remove_header buf hdr_len).1 protocol src)

  -- `&rxbuf` is handed on; nothing else points to it.
  unfoldable pub ethernet_poll : Stack → Option (List ℕ) → Outcome Stack
  unfolding driver_recv
  ethernet_poll s pkt_data =
      let (received, buf) = driver_recv s.rxbuf pkt_data in
      if ltb 0 received
      then (ethernet_in (record s { rxbuf = buf }) buf >>= λ r. done (record r.0 { rxbuf = r.1 }))
      else done (record s { rxbuf = buf })
