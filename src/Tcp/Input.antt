-- ===== src/Tcp/Input.antt =====
-- `tcp_in` of src/tcp.c: the switch over the states, which says what becomes of the connection and
-- which flags the answer has, and the steps around it.
pub mod States
pub mod Streams
use Prim.Native.Nat.{bit_or}
use hitsz_network_lab.Common.{
  ℕ, ◌+◌, ◌-◌, ◌*◌, ◌/◌, ◌%◌, ◌^◌, Bool, true, false, not, ◌&&◌, List, [], ◌∷◌, ltb, ◌==◌,
  if◌then◌else◌, Option, none, some, nat_eq,
}
use hitsz_network_lab.Buf.{Buf, contents}
use hitsz_network_lab.Buf.Fields.{fetch8, fetch16, fetch32, put16}
use hitsz_network_lab.Buf
use hitsz_network_lab.Map.{size_sub}
use hitsz_network_lab.Map
use hitsz_network_lab.Stack.{
  Stack, Outcome, Fault, done, fault, null_pointer, assertion, ◌>>=◌, BufPointer, deref, store,
}
use hitsz_network_lab.Stack.Stats.{count_received}
use hitsz_network_lab.Stack.Tables.{TcpState, TcpConn, TcpKey}
use hitsz_network_lab.Utils.{swap16, swap32, u32, transport_checksum}
use hitsz_network_lab.Ip.{protocol_tcp}
use hitsz_network_lab.Tcp.{
  hdr_len, flg_ack, flg_rst, flg_syn, flg_fin, is_set, bytes_in_flight, conn_at, update_conn,
  tcp_get_connection, tcp_close_connection, send_own,
}

-- How the switch ends: a `return`, a duplicate ACK and a `return`, or a `break` with the connection,
-- the flags to send, and whether its entry is deleted.
pub data Verdict : Type 0 where
  ignore duplicate_ack : Verdict
  proceed : TcpConn → ℕ → Bool → Verdict

-- `isn` is what `tcp_generate_initial_seq` returns.
unfoldable pub transition : ℕ → TcpConn → ℕ → ℕ → ℕ → Verdict
unfolding is_set bytes_in_flight
transition isn conn recv_flags remote_seq data_len = elim conn.state [
  | TcpState.listen ↦
      if is_set recv_flags flg_syn
      then proceed
          (record conn { seq = isn; ack = u32 (remote_seq + 1); state = TcpState.syn_received })
          (bit_or flg_syn flg_ack) false
      else ignore
  | TcpState.syn_received ↦
      if is_set recv_flags flg_ack
      then proceed (record conn { state = TcpState.established }) 0 false
      else ignore
  | TcpState.established ↦
      if remote_seq == conn.ack
      then (let acked = record conn {
        ack = u32 (conn.ack + bytes_in_flight data_len recv_flags);
      } in
          let send_flags = if ltb 0 data_len then flg_ack else 0 in
          if is_set recv_flags flg_fin
          then proceed (record acked { state = TcpState.last_ack })
              (bit_or send_flags (bit_or flg_ack flg_fin)) false
          else proceed acked send_flags false)
      else duplicate_ack
  | TcpState.last_ack ↦ if is_set recv_flags flg_ack then proceed conn 0 true else ignore
  | _ ↦ proceed conn 0 false
]

module _ (ip_out : Stack → BufPointer → List ℕ → ℕ → Outcome Stack)
    (icmp_unreachable : Stack → BufPointer → List ℕ → ℕ → Outcome Stack)
    (handle : Stack → ℕ → ℕ → List ℕ → List ℕ → ℕ → Outcome Stack) (rand : Stack → ℕ) where
  -- Step 3: the answer, unless the handler has sent the ACK along.
  unfoldable pub answer : Stack → ℕ → TcpKey → ℕ → Outcome Stack
  unfolding bytes_in_flight conn_at update_conn send_own
  answer s p key send_flags = if send_flags == 0 then done s else (elim (conn_at s p) [
    | none ↦ fault null_pointer
    | some conn ↦
        if bytes_in_flight 0 send_flags == 0 && conn.not_send_empty_ack
        then if is_set send_flags flg_ack
          then done (update_conn s p (λ c. record c { not_send_empty_ack = false }))
          else fault assertion
        else (send_own ip_out s p [] 0 key.remote_ip key.host_port key.remote_port send_flags
            >>= λ s'. done (
                update_conn s' p
                  (λ c. record c { seq = u32 (c.seq + bytes_in_flight 0 send_flags) })))
  ])

  -- Step 2: the data for the handler of the port.
  unfoldable pub deliver : Stack → BufPointer → ℕ → ℕ → TcpKey → ℕ → Outcome Stack
  unfolding answer
  deliver s pointer hdr_sz p key send_flags =
      let buf = deref s pointer in
      if ltb hdr_sz buf.len
      then (elim (Map.lookup s.now s.tcp_handler_table key.host_port) [
        | none ↦
            let (s', pointer') = store s pointer (Buf.add_header buf 20).1 in
            icmp_unreachable s' pointer' key.remote_ip 3
        | some handler ↦
            let payload = (Buf.remove_header buf hdr_sz).1 in
            handle (store s pointer payload).0 handler p (contents payload) key.remote_ip
              key.remote_port
            >>= λ s'. answer s' p key send_flags
      ])
      else answer s p key send_flags

  -- Step 1, with the connection in slot `p`.
  unfoldable pub advance : Stack → BufPointer → ℕ → TcpKey → Outcome Stack
  unfolding deliver transition
  advance s pointer p key =
      let buf = deref s pointer in
      let hdr_sz = fetch8 buf 12 / 16 * 4 in
      elim (conn_at s p) [
        | none ↦ fault null_pointer
        | some conn ↦
            (elim (transition (rand s % (2 ^ 32 - 1)) conn (fetch8 buf 13) (swap32 (fetch32 buf 4))
              (size_sub buf.len hdr_sz)) [
                | ignore ↦ done s
                | duplicate_ack ↦
                    send_own ip_out s p [] 0 key.remote_ip key.host_port key.remote_port flg_ack
                | proceed conn' send_flags closes ↦
                    let updated = update_conn s p (λ c. conn') in
                    let kept = if closes then tcp_close_connection updated key else updated in
                    deliver kept pointer hdr_sz p key send_flags
              ])
      ]

  unfoldable pub tcp_in : Stack → BufPointer → List ℕ → Outcome Stack
  unfolding advance is_set
  tcp_in s pointer src_ip =
      let buf = deref s pointer in
      let counted = record s { tcp_stats = count_received buf.len s.tcp_stats } in
      let (checksum, summed) =
        transport_checksum protocol_tcp (put16 buf 16 0) src_ip s.net_if_ip in
      let (stored, pointer') = store counted pointer summed in
      let key : TcpKey = record {
        remote_ip = src_ip;
        remote_port = swap16 (fetch16 summed 0);
        host_port = swap16 (fetch16 summed 2);
      } in
      let (s', slot) = tcp_get_connection stored key true in
      if ltb buf.len hdr_len
      then done s
      else if not (checksum == fetch16 buf 16)
      then done stored
      else if is_set (fetch8 summed 13) flg_rst
      then done (tcp_close_connection s' key)
      else (elim slot [ none ↦ fault null_pointer | some p ↦ advance s' pointer' p key ])
