-- ===== src/Echo.antt =====
-- app/tcp_server.c and app/udp_server.c, which send back what they receive on port 60000. What they
-- print is left out.
pub mod Replies
pub mod Tests
use hitsz_network_lab.Common.{ℕ, ◌%◌, ◌^◌, List, length, Status}
use hitsz_network_lab.Stack.{Stack, Outcome, BufPointer}
use hitsz_network_lab.Stack.Tables.{NetHandler}
use hitsz_network_lab.Tcp.{tcp_open, tcp_send}
use hitsz_network_lab.Udp.{udp_open, udp_send}

-- The port of both servers.
abbrev pub echo_port : ℕ
echo_port = 60000

-- The length is handed on as a `uint16_t`.
module _ (ip_out : Stack → BufPointer → List ℕ → ℕ → Outcome Stack) where
  unfoldable pub tcp_handler : Stack → ℕ → List ℕ → List ℕ → ℕ → Outcome Stack
  tcp_handler s tcp_conn bytes src_ip src_port =
      tcp_send ip_out s tcp_conn bytes (length bytes % 2 ^ 16) echo_port src_ip src_port

  unfoldable pub udp_handler : Stack → List ℕ → List ℕ → ℕ → Outcome Stack
  udp_handler s bytes src_ip src_port =
      udp_send ip_out s bytes (length bytes % 2 ^ 16) echo_port src_ip src_port
