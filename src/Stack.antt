-- ===== src/Stack.antt =====
-- The global state of the network stack: the variables of src/net.c, src/arp.c, src/ip.c, src/icmp.c,
-- src/udp.c, src/tcp.c and src/protocol_stats.c in one record, with the time, the memory that
-- uninitialised locals hold, and the frames given to the driver.
pub mod Example
pub mod Stats
pub mod Json
pub mod Tables
pub mod Tests
use hitsz_network_lab.Common.{ℕ, List, [], ◌∷◌, Memory, Bool, Status}
use hitsz_network_lab.Buf.{Buf}
use hitsz_network_lab.Map.{Map}
use Stats.{ProtocolStats}
use Tables.{NetHandler, ReassembleKey, ReassembleNode, TcpKey, TcpConn, PingReq, Ping}

-- The macros of a build, and the addresses of the interface.
pub record Config : Type 0 where
  pub net_if_mac : List ℕ
  pub net_if_ip : List ℕ
  pub ping : Bool

-- A handler of an application is known by a number; what it does is a parameter of the layers.
pub record Stack : Type 0 where
  pub config : Config
  pub open config use *
  pub now : ℕ
  pub now_usec : ℕ
  -- What an uninitialised `buf_t` and `ping_req_t` on the C stack hold.
  pub garbage : Buf
  pub garbage_ping_req : PingReq
  pub rxbuf : Buf
  pub txbuf : Buf
  pub net_table : Map ℕ NetHandler
  pub arp_table : Map (List ℕ) (List ℕ)
  pub arp_buf : Map (List ℕ) Buf
  pub ip_reassemble_map : Map ReassembleKey ReassembleNode
  pub ip_id : ℕ
  pub map_ping_req : Map ℕ PingReq
  pub map_ping : Map (List ℕ) Ping
  pub udp_table : Map ℕ ℕ
  pub tcp_handler_table : Map ℕ ℕ
  pub tcp_conn_table : Map TcpKey TcpConn
  pub ethernet_stats : ProtocolStats
  pub ip_stats : ProtocolStats
  pub icmp_stats : ProtocolStats
  pub udp_stats : ProtocolStats
  pub tcp_stats : ProtocolStats
  -- The frames given to `driver_send`, the newest first.
  pub sent : List (List ℕ)

-- Why a run of the C code has no defined result, or that the fuel of the model ran out.
pub data Fault : Type 0 where
  null_pointer uninitialised_pointer out_of_bounds assertion out_of_fuel : Fault

pub data Outcome {ℓ} (A : Type ℓ) : Type ℓ where
  done : A → Outcome A
  fault : Fault → Outcome A

infixl 5 ◌>>=◌
abbrev pub ◌>>=◌ {ℓ κ} : {A : Type ℓ} {B : Type κ} → Outcome A → (A → Outcome B) → Outcome B
done a >>= f = f a
fault e >>= f = fault e

-- A `buf_t *`: one of the two global buffers, or a buffer that nothing else points to.
pub data BufPointer : Type 0 where
  rx tx : BufPointer
  own : Buf → BufPointer

unfoldable pub deref : Stack → BufPointer → Buf
deref s rx = s.rxbuf
deref s tx = s.txbuf
deref s (own buf) = buf

-- The stack and the pointer once `buf` is stored where the pointer points to.
unfoldable pub store : Stack → BufPointer → Buf → Stack × BufPointer
store s rx buf = (record s { rxbuf = buf }, rx)
store s tx buf = (record s { txbuf = buf }, tx)
store s (own _) buf = (s, own buf)
