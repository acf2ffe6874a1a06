-- ===== src/Arp.antt =====
-- src/arp.c and include/arp.h: address resolution. `arp_entry_print` and `arp_print` only print.
-- `buf2`, a pointer into `arp_buf`, is the index of its slot; `ethernet_out` changes the buffer that
-- stands there, and the slot is written back before it is deleted.
pub mod Tests
pub mod Packets
pub mod Fields
pub mod Resolve
use hitsz_network_lab.Common.{
  ℕ, ◌+◌, ◌*◌, Bool, true, false, not, ◌&&◌, ◌||◌, List, [], ◌∷◌, ◌++◌, replicate, ltb, ◌==◌,
  if◌then◌else◌, Option, none, some, bytes_eq, bytes_Eq, nat_eq,
}
use hitsz_network_lab.Buf.{Buf, put, fetch}
use hitsz_network_lab.Buf.Fields.{fetch8, fetch16, put16}
use hitsz_network_lab.Buf
use hitsz_network_lab.Map.{Map, modify, value_at}
use hitsz_network_lab.Map
use hitsz_network_lab.Stack.{Stack}
use hitsz_network_lab.Stack.Tables.{NetHandler}
use hitsz_network_lab.Utils.{swap16, store16}
use hitsz_network_lab.Ethernet.{ethernet_out, ether_broadcast_mac}

-- ARP_TIMEOUT_SEC, ARP_MIN_INTERVAL
abbrev pub timeout_sec : ℕ
timeout_sec = 60 * 5

abbrev pub min_interval : ℕ
min_interval = 1

-- ARP_HW_ETHER, ARP_REQUEST, ARP_REPLY, and the protocol numbers of include/net.h.
abbrev pub hw_ether : ℕ
hw_ether = 1

abbrev pub request : ℕ
request = 1

abbrev pub reply : ℕ
reply = 2

abbrev pub protocol_arp : ℕ
protocol_arp = 0x0806

abbrev pub protocol_ip : ℕ
protocol_ip = 0x0800

-- sizeof (arp_pkt_t), and the length of a buf_t: two words of eight bytes and the payload, aligned.
abbrev pub pkt_len : ℕ
pkt_len = 28

abbrev pub buf_len : ℕ
buf_len = 131344

-- The bytes of `arp_init_pkt`; what the initialiser leaves out is zero.
unfoldable pub arp_init_pkt : Stack → List ℕ
arp_init_pkt s =
    store16 (swap16 hw_ether)
    ++ (store16 (swap16 protocol_ip)
        ++ (6 ∷ 4 ∷ 0 ∷ 0 ∷ s.net_if_mac ++ (s.net_if_ip ++ replicate 10 0)))

unfoldable pub arp_req : Stack → List ℕ → Stack
unfolding arp_init_pkt
arp_req s target_ip =
    let pkt = put (Buf.init s.txbuf pkt_len).1 0 (arp_init_pkt s) in
    let filled = put (put16 pkt 6 (swap16 request)) 24 target_ip in
    let (s', buf) = ethernet_out s filled ether_broadcast_mac protocol_arp in
    record s' { txbuf = buf }

unfoldable pub arp_resp : Stack → List ℕ → List ℕ → Stack
unfolding arp_init_pkt
arp_resp s target_ip target_mac =
    let pkt = put (Buf.init s.txbuf pkt_len).1 0 (arp_init_pkt s) in
    let filled = put (put (put16 pkt 6 (swap16 reply)) 24 target_ip) 18 target_mac in
    let (s', buf) = ethernet_out s filled target_mac protocol_arp in record s' { txbuf = buf }

-- The tests on the header of a packet that is long enough.
unfoldable pub is_arp : Buf → Bool
is_arp buf =
    fetch16 buf 0 == swap16 hw_ether
    && fetch16 buf 2 == swap16 protocol_ip
    && fetch8 buf 4 == 6
    && fetch8 buf 5 == 4
    && (fetch16 buf 6 == swap16 request || fetch16 buf 6 == swap16 reply)

-- The packet that waits for `ip`, if any, sent to `mac` and dropped; otherwise `miss`.
unfoldable pub flush : Stack → List ℕ → List ℕ → Stack → Stack
flush s ip mac miss = elim (Map.get s.now s.arp_buf ip) [
  | none ↦ miss
  | some p ↦ (elim (value_at s.arp_buf.slots p) [
    | none ↦ miss
    | some buf2 ↦
        let (s', sent_buf) = ethernet_out s buf2 mac protocol_ip in
        let changed = record s'.arp_buf {
          slots = modify p (λ slot. record slot { value = sent_buf }) s'.arp_buf.slots;
        } in
        record s' { arp_buf = Map.delete s.now changed ip }
  ])
]

-- The buffer is only read. `src_mac` is not used.
unfoldable pub arp_in : Stack → Buf → List ℕ → Stack
unfolding is_arp flush arp_resp
arp_in s buf src_mac =
    if ltb buf.len pkt_len
    then s
    else if is_arp buf
    then (let sender_mac = fetch buf 8 6 in
        let sender_ip = fetch buf 14 4 in
        let learned = record s { arp_table = (Map.set s.now s.arp_table sender_ip sender_mac).1 } in
        flush learned sender_ip sender_mac (
          if fetch16 buf 6 == swap16 request && bytes_eq (fetch buf 24 4) s.net_if_ip
          then arp_resp learned sender_ip sender_mac
          else learned))
    else s

-- The stack, and the buffer that the pointer points to afterwards.
unfoldable pub arp_out : Stack → Buf → List ℕ → Stack × Buf
unfolding arp_req
arp_out s buf ip = elim (Map.lookup s.now s.arp_table ip) [
  | some mac ↦ ethernet_out s buf mac protocol_ip
  | none ↦ (elim (Map.lookup s.now s.arp_buf ip) [
    | some buf2 ↦ (s, buf)
    | none ↦ (arp_req (record s { arp_buf = (Map.set s.now s.arp_buf ip buf).1 }) ip, buf)
  ])
]

-- `net_add_protocol` of src/net.c
unfoldable pub net_add_protocol : Stack → ℕ → NetHandler → Stack
net_add_protocol s protocol handler = record s {
  net_table = (Map.set s.now s.net_table protocol handler).1;
}

unfoldable pub arp_init : Stack → Stack
unfolding arp_req net_add_protocol
arp_init s =
    let tables = record s {
      arp_table = Map.init 4 6 0 timeout_sec Map.memcpy (replicate 4 0) (replicate 6 0);
      arp_buf =
          Map.init 4 buf_len 0 min_interval Buf.copy (replicate 4 0)
            (record { len = 0; off = 0; payload = λ i. 0 });
    } in
    arp_req (net_add_protocol tables protocol_arp NetHandler.arp_in) s.net_if_ip
