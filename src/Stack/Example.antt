-- ===== src/Stack/Example.antt =====
-- A stack with empty tables of two slots each, for tests.
use hitsz_network_lab.Common.{bytes_Eq, nat_eq, ℕ, List, [], ◌∷◌, replicate, false}
use hitsz_network_lab.Common.Int.{pos}
use hitsz_network_lab.Buf.{Buf}
use hitsz_network_lab.Buf
use hitsz_network_lab.Map.{Map, memcpy}
use hitsz_network_lab.Map
use hitsz_network_lab.Stack.{Stack}
use hitsz_network_lab.Stack.Stats.{zero_stats}
use hitsz_network_lab.Stack.Tables.{NetHandler, TcpState, PingReq, TimeVal}

abbrev pub zero_buf : Buf
zero_buf = record { len = 0; off = 65662; payload = λ i. 0 }

abbrev pub zero_time : TimeVal
zero_time = record { tv_sec = 0; tv_usec = 0 }

abbrev pub zero_ping_req : PingReq
zero_ping_req = record {
  send_time = zero_time;
  receive_time = zero_time;
  dst_ip = replicate 4 0;
  length = 0;
  ttl = 0;
}

abbrev pub example_mac : List ℕ
example_mac = 0x11 ∷ 0x22 ∷ 0x33 ∷ 0x44 ∷ 0x55 ∷ 0x66 ∷ []

abbrev pub example_ip : List ℕ
example_ip = 192 ∷ 168 ∷ 163 ∷ 103 ∷ []

abbrev pub example : Stack
example = record {
  config = record { net_if_mac = example_mac; net_if_ip = example_ip; ping = false };
  now = 1000;
  now_usec = 0;
  garbage = zero_buf;
  garbage_ping_req = zero_ping_req;
  rxbuf = zero_buf;
  txbuf = zero_buf;
  net_table = Map.init 2 8 2 0 memcpy 0 NetHandler.arp_in;
  arp_table = Map.init 4 6 2 300 memcpy (replicate 4 0) (replicate 6 0);
  arp_buf = Map.init 4 131344 2 1 Buf.copy (replicate 4 0) zero_buf;
  ip_reassemble_map =
      Map.init 10 2432 2 15 memcpy
        (record { src_ip = replicate 4 0; dst_ip = replicate 4 0; id = 0 })
        (record {
          src_ip = replicate 4 0;
          dst_ip = replicate 4 0;
          id = 0;
          protocol = 0;
          arrival_time = 0;
          total_len = 0;
          has_last_fragment = false;
          fragments = [];
        });
  ip_id = 0;
  map_ping_req = Map.init 2 48 2 0 memcpy 0 zero_ping_req;
  map_ping = Map.init 4 40 2 0 memcpy (replicate 4 0) (record {
    ping_time = 0;
    last_send = 0;
    success_time = 0;
    shortest_time = pos 0;
    longest_time = pos 0;
    sum_time = pos 0;
    is_finished = false;
  });
  udp_table = Map.init 2 8 2 0 memcpy 0 0;
  tcp_handler_table = Map.init 2 8 2 0 memcpy 0 0;
  tcp_conn_table =
      Map.init 8 20 2 0 memcpy
        (record { remote_ip = replicate 4 0; remote_port = 0; host_port = 0 })
        (record {
          state = TcpState.closed;
          not_send_empty_ack = false;
          port = 0;
          seq = 0;
          ack = 0;
        });
  ethernet_stats = zero_stats;
  ip_stats = zero_stats;
  icmp_stats = zero_stats;
  udp_stats = zero_stats;
  tcp_stats = zero_stats;
  sent = [];
}

abbrev pub remote_ip : List ℕ
remote_ip = 192 ∷ 168 ∷ 163 ∷ 1 ∷ []

abbrev pub remote_mac : List ℕ
remote_mac = 1 ∷ 2 ∷ 3 ∷ 4 ∷ 5 ∷ 6 ∷ []

-- The same stack with the remote address resolved, and with a handler for UDP port 80.
abbrev pub resolved : Stack
resolved = record example {
  arp_table =
      (Map.set 1000 (Map.init 4 6 2 300 memcpy (replicate 4 0) (replicate 6 0)) remote_ip
        remote_mac).1;
  udp_table = (Map.set 1000 (Map.init 2 8 2 0 memcpy 0 0) 80 7).1;
}
