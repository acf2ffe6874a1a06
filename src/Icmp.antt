-- ===== src/Icmp.antt =====
-- src/icmp.c and include/icmp.h: echo, and unreachable destinations. `ip_out` of src/ip.c is a
-- parameter. A `NULL` from `map_get` that is written to is a fault. The statistics of a
-- ping are in Ping.
pub mod Echo
pub mod Ping
pub mod Tests
use hitsz_network_lab.Common.{
  ℕ, ◌+◌, ◌-◌, false, List, replicate, ltb, ◌==◌, if◌then◌else◌, none, some, nat_eq,
}
use hitsz_network_lab.Common.Int.{pos}
use hitsz_network_lab.Buf.{Buf, fetch, put, contents}
use hitsz_network_lab.Buf.Fields.{fetch8, fetch16, put8, put16}
use hitsz_network_lab.Buf
use hitsz_network_lab.Map.{Map, Slot, modify}
use hitsz_network_lab.Map
use hitsz_network_lab.Stack.{Stack, Outcome, done, fault, null_pointer, BufPointer, tx, deref}
use hitsz_network_lab.Stack.Stats.{count_sent, count_received}
use hitsz_network_lab.Stack.Tables.{NetHandler, PingReq, TimeVal}
use hitsz_network_lab.Utils.{swap16, checksum16}
use hitsz_network_lab.Arp.{net_add_protocol}
use hitsz_network_lab.Ip.{protocol_icmp}

-- sizeof (icmp_hdr_t), ICMP_TYPE_ECHO_REQUEST, ICMP_TYPE_ECHO_REPLY, ICMP_TYPE_UNREACH,
-- PING_DATA_SIZE
abbrev pub hdr_len : ℕ
hdr_len = 8

abbrev pub type_echo_request : ℕ
type_echo_request = 8

abbrev pub type_echo_reply : ℕ
type_echo_reply = 0

abbrev pub type_unreach : ℕ
type_unreach = 3

abbrev pub ping_data_size : ℕ
ping_data_size = 32

-- The checksum over the whole packet, put into its field.
unfoldable pub seal : Buf → Buf
seal buf = let zeroed = put16 buf 2 0 in put16 zeroed 2 (checksum16 (contents zeroed))

-- The `ping_req_t` behind the pointer that `map_get` returns for `id` changed.
unfoldable pub update_ping_req : Stack → ℕ → (PingReq → PingReq) → Outcome Stack
update_ping_req s id f = elim (Map.get s.now s.map_ping_req id) [
  | none ↦ fault null_pointer
  | some p ↦ done (record s {
    map_ping_req = record s.map_ping_req {
      slots = modify p (λ slot. record slot { value = f slot.value }) s.map_ping_req.slots;
    };
  })
]

-- `ip_in` calls it for every ICMP packet in a build with PING.
unfoldable pub set_ping_req_ttl : Stack → ℕ → Buf → Outcome Stack
unfolding update_ping_req
set_ping_req_ttl s ttl buf =
    if fetch8 buf 0 == type_echo_reply
    then update_ping_req s (swap16 (fetch16 buf 6)) (λ req. record req { ttl = ttl })
    else done s

module _ (ip_out : Stack → BufPointer → List ℕ → ℕ → Outcome Stack) where
  -- The request may stand in `txbuf` itself.
  unfoldable pub icmp_resp : Stack → BufPointer → List ℕ → Outcome Stack
  unfolding put8 seal
  icmp_resp s req_buf src_ip =
      let s' = record s { txbuf = (Buf.init s.txbuf (deref s req_buf).len).1 } in
      let req = deref s' req_buf in
      let copied = put s'.txbuf 0 (contents req) in
      let typed = put8 (put8 copied 0 type_echo_reply) 1 0 in
      let filled = seal (put16 (put16 typed 4 (fetch16 req 4)) 6 (fetch16 req 6)) in
      let counted = record s' {
        txbuf = filled;
        icmp_stats = count_sent filled.len s'.icmp_stats;
      } in
      ip_out counted tx src_ip protocol_icmp

  unfoldable pub icmp_in : Stack → BufPointer → List ℕ → Outcome Stack
  unfolding icmp_resp update_ping_req
  icmp_in s pointer src_ip =
      let buf = deref s pointer in
      let counted = record s { icmp_stats = count_received buf.len s.icmp_stats } in
      if ltb buf.len hdr_len
      then done s
      else if fetch8 buf 0 == type_echo_request
      then icmp_resp counted pointer src_ip
      else if fetch8 buf 0 == type_echo_reply
      then update_ping_req counted (swap16 (fetch16 buf 6)) (λ req. record req {
        receive_time = record { tv_sec = s.now; tv_usec = s.now_usec };
        length = buf.len - hdr_len;
      })
      else done counted

  -- The IP header of the received packet and eight bytes behind it, behind an ICMP header. The
  -- received packet may stand in `txbuf` itself; the two `memcpy` then overlap, and copy as `memmove`.
  unfoldable pub icmp_unreachable : Stack → BufPointer → List ℕ → ℕ → Outcome Stack
  unfolding put8 seal
  icmp_unreachable s recv_buf src_ip code =
      let start = (Buf.init s.txbuf (hdr_len + 20 + 8)).1 in
      let typed = put16 (put16 (put8 (put8 start 0 type_unreach) 1 code) 4 0) 6 0 in
      let headed = put typed hdr_len (fetch (deref (record s { txbuf = typed }) recv_buf) 0 20) in
      let quoted = put headed 28 (fetch (deref (record s { txbuf = headed }) recv_buf) 20 8) in
      let counted = record s { txbuf = seal quoted; icmp_stats = count_sent 36 s.icmp_stats } in
      ip_out counted tx src_ip protocol_icmp

  unfoldable pub icmp_req_out : Stack → List ℕ → ℕ → Outcome Stack
  unfolding put8 seal
  icmp_req_out s dst_ip id =
      let start = put (Buf.init s.txbuf ping_data_size).1 0 (replicate ping_data_size 0) in
      let hdr = (Buf.add_header start hdr_len).1 in
      let typed = put8 (put8 hdr 0 type_echo_request) 1 0 in
      let filled = seal (put16 (put16 typed 4 (swap16 id)) 6 (swap16 id)) in
      let ping_req = record s.garbage_ping_req {
        dst_ip = dst_ip;
        send_time = record { tv_sec = s.now; tv_usec = s.now_usec };
        receive_time = record { tv_sec = 0; tv_usec = 0 };
      } in
      let counted = record s {
        txbuf = filled;
        map_ping_req = (Map.set s.now s.map_ping_req id ping_req).1;
        icmp_stats = count_sent filled.len s.icmp_stats;
      } in
      ip_out counted tx dst_ip protocol_icmp

-- sizeof (ping_req_t) is 48, sizeof (ping_t) is 40.
unfoldable pub icmp_init : Stack → Stack
unfolding net_add_protocol
icmp_init s =
    let zero_time : TimeVal = record { tv_sec = 0; tv_usec = 0 } in
    let tables = record s {
      map_ping_req = Map.init 2 48 0 0 Map.memcpy 0 (record {
        send_time = zero_time;
        receive_time = zero_time;
        dst_ip = replicate 4 0;
        length = 0;
        ttl = 0;
      });
      map_ping = Map.init 4 40 0 0 Map.memcpy (replicate 4 0) (record {
        ping_time = 0;
        last_send = 0;
        success_time = 0;
        shortest_time = pos 0;
        longest_time = pos 0;
        sum_time = pos 0;
        is_finished = false;
      });
    } in
    net_add_protocol tables protocol_icmp NetHandler.icmp_in
