-- ===== src/Servers.antt =====
-- The `main` functions of app/*.c: start the stack, register a handler, and poll. `none` is a `main`
-- that returns -1 because the stack could not be started.
pub mod Tests
use hitsz_network_lab.Common.{
  ℕ, Bool, true, false, List, [], ◌∷◌, ◌==◌, Option, none, some, Status, ok, failed,
}
use hitsz_network_lab.Stack.{Stack, Outcome, done, ◌>>=◌, BufPointer}
use hitsz_network_lab.Tcp.{tcp_open}
use hitsz_network_lab.Udp.{udp_open}
use hitsz_network_lab.Ip.Send.{ip_out}
use hitsz_network_lab.Icmp.Ping.{ping_req}
use hitsz_network_lab.Echo.{echo_port, tcp_handler, udp_handler}
use hitsz_network_lab.Http.{listen_port}
use hitsz_network_lab.Net.{Started, Round, ip_input, net_poll, poll_all}

-- The handlers of a build without an application for UDP or for TCP.
abbrev pub UdpHandle : Type 0
UdpHandle =
    (Stack → BufPointer → List ℕ → ℕ → Outcome Stack)
    → Stack
    → ℕ
    → List ℕ
    → List ℕ
    → ℕ
    → Outcome Stack

abbrev pub TcpHandle : Type 0
TcpHandle =
    (Stack → BufPointer → List ℕ → ℕ → Outcome Stack)
    → Stack
    → ℕ
    → ℕ
    → List ℕ
    → List ℕ
    → ℕ
    → Outcome Stack

abbrev pub no_udp : UdpHandle
no_udp ip_out s handler bytes src_ip src_port = done s

abbrev pub no_tcp : TcpHandle
no_tcp ip_out s handler tcp_conn bytes src_ip src_port = done s

-- The handlers are known by the number 1. `fuel` bounds the depth of calls through the loopback.
module _ (rand : Stack → ℕ) (malloc : ℕ → Bool) (fuel : ℕ) where
  unfoldable pub tcp_server : Started → List Round → Outcome (Option Stack)
  unfolding poll_all tcp_open
  tcp_server started rounds = elim started.status [
    | failed ↦ done none
    | ok ↦
        poll_all no_udp (λ ip_out s handler. tcp_handler ip_out s) rand malloc fuel
          (tcp_open started.stack echo_port 1).1 rounds
        >>= λ s. done (some s)
  ]

  unfoldable pub udp_server : Started → List Round → Outcome (Option Stack)
  unfolding poll_all udp_open
  udp_server started rounds = elim started.status [
    | failed ↦ done none
    | ok ↦
        poll_all (λ ip_out s handler. udp_handler ip_out s) no_tcp rand malloc fuel
          (udp_open started.stack echo_port 1).1 rounds
        >>= λ s. done (some s)
  ]

  -- `web_handler` is that of Http for a directory of resources.
  unfoldable pub web_server : TcpHandle → Started → List Round → Outcome (Option Stack)
  unfolding poll_all tcp_open
  web_server web_handler started rounds = elim started.status [
    | failed ↦ done none
    | ok ↦
        poll_all no_udp web_handler rand malloc fuel (tcp_open started.stack listen_port 1).1 rounds
        >>= λ s. done (some s)
  ]

  -- One of the two pings of app/icmp_server.c, and the rounds that are left after it.
  unfoldable pub ping_until_finished : Stack → List ℕ → List Round → Outcome (Stack × List Round)
  unfolding ping_req net_poll
  ping_until_finished s to_ping_ip [] = done (s, [])
  ping_until_finished s to_ping_ip (round ∷ rounds) =
      ping_req (ip_out (ip_input no_udp no_tcp rand malloc fuel)) (record s { now = round.time })
        to_ping_ip
      >>= λ r. elim (r.0 == 1) [
        | true ↦ done (r.1, round ∷ rounds)
        | false ↦ net_poll no_udp no_tcp rand malloc fuel r.1 round.pkt_data >>= λ s'.
            ping_until_finished s' to_ping_ip rounds
      ]

  unfoldable pub icmp_server : Started → List Round → Outcome (Option Stack)
  unfolding ping_until_finished poll_all
  icmp_server started rounds = elim started.status [
    | failed ↦ done none
    | ok ↦ ping_until_finished started.stack (169 ∷ 254 ∷ 176 ∷ 237 ∷ []) rounds >>= λ first.
        ping_until_finished first.0 (127 ∷ 0 ∷ 0 ∷ 1 ∷ []) first.1 >>= λ second.
        poll_all no_udp no_tcp rand malloc fuel second.0 second.1 >>= λ s. done (some s)
  ]
