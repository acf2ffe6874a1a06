-- ===== src/Stack/Tables.antt =====
-- The entries of the tables: include/net.h, include/tcp.h, include/icmp.h and the reassembly
-- structures of src/ip.c.
use mathlib.Core.Logic.{◌↔◌}
use hitsz_network_lab.Common.Int.{ℤ}
use hitsz_network_lab.Common.{
  ℕ, ◌≡◌, List, Bool, true, ◌&&◌, ◌==◌, Eq, bytes_eq, bytes_eq_iff, arith,
}

-- The receivers that `net_table` holds pointers to.
pub data NetHandler : Type 0 where
  arp_in ip_in icmp_in udp_in tcp_in : NetHandler

-- `ip_fragment_t`; `data` is the malloc'ed copy.
pub record IpFragment : Type 0 where
  pub offset : ℕ
  pub len : ℕ
  pub bytes : List ℕ
  pub is_last : Bool

-- `ip_reassemble_node_t`; the list is `fragments[0 .. fragment_count)`.
pub record ReassembleNode : Type 0 where
  pub src_ip : List ℕ
  pub dst_ip : List ℕ
  pub id : ℕ
  pub protocol : ℕ
  pub arrival_time : ℕ
  pub total_len : ℕ
  pub has_last_fragment : Bool
  pub fragments : List IpFragment

-- `ip_reassemble_key_t`
pub record ReassembleKey : Type 0 where
  pub src_ip : List ℕ
  pub dst_ip : List ℕ
  pub id : ℕ

-- `tcp_key_t`
pub record TcpKey : Type 0 where
  pub remote_ip : List ℕ
  pub remote_port : ℕ
  pub host_port : ℕ

pub data TcpState : Type 0 where
  closed listen syn_sent syn_received established fin_wait1 fin_wait2 closing time_wait close_wait
        last_ack :
      TcpState

-- `tcp_conn_t`
pub record TcpConn : Type 0 where
  pub state : TcpState
  pub not_send_empty_ack : Bool
  pub port : ℕ
  pub seq : ℕ
  pub ack : ℕ

-- `struct timeval`
pub record TimeVal : Type 0 where
  pub tv_sec : ℕ
  pub tv_usec : ℕ

-- `ping_req_t`
pub record PingReq : Type 0 where
  pub send_time : TimeVal
  pub receive_time : TimeVal
  pub dst_ip : List ℕ
  pub length : ℕ
  pub ttl : ℕ

-- `ping_t`
pub record Ping : Type 0 where
  pub ping_time : ℕ
  pub last_send : ℕ
  pub success_time : ℕ
  pub shortest_time : ℤ
  pub longest_time : ℤ
  pub sum_time : ℤ
  pub is_finished : Bool

unfoldable pub reassemble_key_eq : ReassembleKey → ReassembleKey → Bool
reassemble_key_eq a b = bytes_eq a.src_ip b.src_ip && bytes_eq a.dst_ip b.dst_ip && a.id == b.id

pub reassemble_key_eq_iff : (a b : ReassembleKey) → (reassemble_key_eq a b ≡ true) ↔ (a ≡ b)
unfolding reassemble_key_eq
reassemble_key_eq_iff a b =
    ground (arith, bytes_eq_iff a.src_ip b.src_ip, bytes_eq_iff a.dst_ip b.dst_ip)

-- `memcmp` of two keys. The structures have no padding.
instance abbrev pub reassemble_key_Eq : Eq ReassembleKey
reassemble_key_Eq = record { beq = reassemble_key_eq; beq_iff = reassemble_key_eq_iff }

unfoldable pub tcp_key_eq : TcpKey → TcpKey → Bool
tcp_key_eq a b =
    bytes_eq a.remote_ip b.remote_ip && a.remote_port == b.remote_port && a.host_port == b.host_port

pub tcp_key_eq_iff : (a b : TcpKey) → (tcp_key_eq a b ≡ true) ↔ (a ≡ b)
unfolding tcp_key_eq
tcp_key_eq_iff a b = ground (arith, bytes_eq_iff a.remote_ip b.remote_ip)

instance abbrev pub tcp_key_Eq : Eq TcpKey
tcp_key_Eq = record { beq = tcp_key_eq; beq_iff = tcp_key_eq_iff }
