-- ===== src/Tcp.antt =====
-- src/tcp.c and include/tcp.h. A `tcp_conn_t *` is the index of its slot in `tcp_conn_table`, which
-- stays what it points to when the entry is deleted. `ip_out`, `icmp_unreachable`, `rand` and what
-- the handlers of the applications do are parameters; a handler is known by a number.
pub mod Tests
pub mod Input
pub mod Closing
use Prim.Native.Nat.{bit_and, bit_or}
use hitsz_network_lab.Common.{
  ℕ, ◌+◌, ◌-◌, ◌*◌, ◌/◌, ◌%◌, ◌^◌, Bool, true, false, not, ◌&&◌, List, [], ◌∷◌, replicate, ltb,
  ◌==◌, if◌then◌else◌, Option, none, some, nat_eq, Status, get_elem?,
}
use hitsz_network_lab.Buf.{Buf, fetch, put, contents}
use hitsz_network_lab.Buf.Fields.{fetch8, fetch16, put8, put16, put32}
use hitsz_network_lab.Buf
use hitsz_network_lab.Map.{Map, Slot, modify, value_at, foreach, size_add}
use hitsz_network_lab.Map
use hitsz_network_lab.Stack.{
  Stack, Outcome, Fault, done, fault, null_pointer, ◌>>=◌, BufPointer, own, deref, store,
}
use hitsz_network_lab.Stack.Stats.{count_sent}
use hitsz_network_lab.Stack.Tables.{NetHandler, TcpState, TcpConn, TcpKey, tcp_key_Eq}
use hitsz_network_lab.Utils.{swap16, swap32, u32, transport_checksum}
use hitsz_network_lab.Arp.{net_add_protocol}
use hitsz_network_lab.Ip.{protocol_tcp}

-- sizeof (tcp_hdr_t), TCP_MAX_WINDOW_SIZE
abbrev pub hdr_len : ℕ
hdr_len = 20

abbrev pub max_window_size : ℕ
max_window_size = 65535

-- TCP_FLG_ACK, TCP_FLG_RST, TCP_FLG_SYN, TCP_FLG_FIN
abbrev pub flg_ack : ℕ
flg_ack = 16

abbrev pub flg_rst : ℕ
flg_rst = 4

abbrev pub flg_syn : ℕ
flg_syn = 2

abbrev pub flg_fin : ℕ
flg_fin = 1

-- TCP_FLG_ISSET
unfoldable pub is_set : ℕ → ℕ → Bool
is_set x y = not (bit_and (bit_and x 0x3f) y == 0)

unfoldable pub bytes_in_flight : ℕ → ℕ → ℕ
unfolding is_set
bytes_in_flight len flags =
    let res = if is_set flags flg_syn then size_add len 1 else len in
    if is_set flags flg_fin then size_add res 1 else res

-- `tcp_rst` overwrites all of the connection.
abbrev pub reset_conn : TcpConn
reset_conn = record {
  state = TcpState.listen;
  not_send_empty_ack = false;
  port = 0;
  seq = 0;
  ack = 0;
}

-- The connection behind a pointer, and the same changed.
unfoldable pub conn_at : Stack → ℕ → Option TcpConn
conn_at s p = value_at s.tcp_conn_table.slots p

unfoldable pub update_conn : Stack → ℕ → (TcpConn → TcpConn) → Stack
update_conn s p f = record s {
  tcp_conn_table = record s.tcp_conn_table {
    slots = modify p (λ slot. record slot { value = f slot.value }) s.tcp_conn_table.slots;
  };
}

-- The pointer is `none` if there is no connection and none is made.
unfoldable pub tcp_get_connection : Stack → TcpKey → Bool → Stack × Option ℕ
tcp_get_connection s key create_if_missing = elim (Map.get s.now s.tcp_conn_table key) [
  | some p ↦ (s, some p)
  | none ↦
      let conns = (Map.set s.now s.tcp_conn_table key reset_conn).1 in
      if create_if_missing
      then (record s { tcp_conn_table = conns }, Map.get s.now conns key)
      else (s, none)
]

unfoldable pub tcp_close_connection : Stack → TcpKey → Stack
tcp_close_connection s key = record s { tcp_conn_table = Map.delete s.now s.tcp_conn_table key }

module _ (ip_out : Stack → BufPointer → List ℕ → ℕ → Outcome Stack) where
  -- The urgent pointer is not written.
  unfoldable pub tcp_out : Stack → TcpConn → BufPointer → ℕ → List ℕ → ℕ → ℕ → Outcome Stack
  unfolding put8 put32
  tcp_out s conn pointer src_port dst_ip dst_port flags =
      let hdr = (Buf.add_header (deref s pointer) hdr_len).1 in
      let ported = put16 (put16 hdr 0 (swap16 src_port)) 2 (swap16 dst_port) in
      let numbered = put32 (put32 ported 4 (swap32 conn.seq)) 8 (swap32 conn.ack) in
      let flagged = put8 (put8 numbered 12 (hdr_len / 4 * 16)) 13 flags in
      let zeroed = put16 (put16 flagged 14 (swap16 max_window_size)) 16 0 in
      let (checksum, summed) = transport_checksum protocol_tcp zeroed s.net_if_ip dst_ip in
      let filled = put16 summed 16 checksum in
      let counted = record s { tcp_stats = count_sent filled.len s.tcp_stats } in
      let (s', pointer') = store counted pointer filled in ip_out s' pointer' dst_ip protocol_tcp

  -- `tcp_out` for a connection in its slot, of a local buffer of `len` bytes.
  unfoldable pub send_own : Stack → ℕ → List ℕ → ℕ → List ℕ → ℕ → ℕ → ℕ → Outcome Stack
  unfolding tcp_out conn_at
  send_own s p bytes len dst_ip src_port dst_port flags = elim (conn_at s p) [
    | none ↦ fault null_pointer
    | some conn ↦
        tcp_out s conn (own (put (Buf.init s.garbage len).1 0 bytes)) src_port dst_ip dst_port flags
  ]

  -- `len` is a `uint16_t`, and the data are given.
  unfoldable pub tcp_send : Stack → ℕ → List ℕ → ℕ → ℕ → List ℕ → ℕ → Outcome Stack
  unfolding send_own bytes_in_flight update_conn
  tcp_send s p bytes len src_port dst_ip dst_port =
      if ltb max_window_size len
      then done s
      else if len == 0
      then done s
      else (send_own s p bytes len dst_ip src_port dst_port flg_ack >>= λ s'. done (
          update_conn s' p (λ conn. record conn {
            seq = u32 (conn.seq + bytes_in_flight len 0);
            not_send_empty_ack = true;
          })))

-- sizeof (tcp_key_t) is 8, sizeof (tcp_conn_t) is 20.
unfoldable pub tcp_init : Stack → Stack
unfolding net_add_protocol
tcp_init s =
    let tables = record s {
      tcp_handler_table = Map.init 2 8 0 0 Map.memcpy 0 0;
      tcp_conn_table =
          Map.init 8 20 0 0 Map.memcpy
            (record { remote_ip = replicate 4 0; remote_port = 0; host_port = 0 })
            (record reset_conn { state = TcpState.closed });
    } in
    net_add_protocol tables protocol_tcp NetHandler.tcp_in

unfoldable pub tcp_open : Stack → ℕ → ℕ → Status × Stack
tcp_open s port handler =
    let (status, table) = Map.set s.now s.tcp_handler_table port handler in
    (status, record s { tcp_handler_table = table })

-- `close_port_fn` for the slot at index `i`.
unfoldable pub close_port_fn : ℕ → ℕ → ℕ → Map TcpKey TcpConn → Map TcpKey TcpConn
close_port_fn now close_port i conns = elim (get_elem? conns.slots i) [
  | none ↦ conns
  | some slot ↦ if slot.key.host_port == close_port then Map.delete now conns slot.key else conns
]

unfoldable pub tcp_close : Stack → ℕ → Stack
unfolding close_port_fn
tcp_close s port = record s {
  tcp_conn_table = foreach s.now (close_port_fn s.now port) s.tcp_conn_table;
  tcp_handler_table = Map.delete s.now s.tcp_handler_table port;
}
