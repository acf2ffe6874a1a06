-- ===== src/Net.antt =====
-- src/net.c and include/net.h: the dispatch on the protocol, which ties the layers together. A call
-- that comes back through the loopback address goes one round deeper; `fuel` bounds the rounds.
pub mod Tests
use hitsz_network_lab.Common.{
  ℕ, zero, suc, Bool, true, false, List, Option, none, some, nat_eq, [], ◌∷◌, Status, ok, failed,
}
use hitsz_network_lab.Map.{Map}
use hitsz_network_lab.Map
use hitsz_network_lab.Stack.{Stack, Outcome, done, fault, out_of_fuel, ◌>>=◌, BufPointer, rx, deref}
use hitsz_network_lab.Stack.Stats.{zero_stats}
use hitsz_network_lab.Stack.Tables.{NetHandler}
use hitsz_network_lab.Driver.{Pcap, Device, driver_open}
use hitsz_network_lab.Monitor.{Monitor, monitor_server_init}
use hitsz_network_lab.Ethernet.{ethernet_poll, ethernet_init}
use hitsz_network_lab.Arp.{arp_in, arp_init}
use hitsz_network_lab.Ip.Send.{ip_out}
use hitsz_network_lab.Ip.Receive.{ip_in, ip_init}
use hitsz_network_lab.Icmp.{icmp_in, icmp_unreachable, set_ping_req_ttl, icmp_init}
use hitsz_network_lab.Udp.{udp_in, udp_init}
use hitsz_network_lab.Tcp.{tcp_init}
use hitsz_network_lab.Tcp.Input.{tcp_in}

-- One call of `net_poll`: the time, and what `pcap_next_ex` returns.
pub record Round : Type 0 where
  pub time : ℕ
  pub pkt_data : Option (List ℕ)

-- What the applications registered, and what the C library is asked for.
module _
    (udp_handle : (Stack → BufPointer → List ℕ → ℕ → Outcome Stack)
      → Stack
      → ℕ
      → List ℕ
      → List ℕ
      → ℕ
      → Outcome Stack)
    (tcp_handle : (Stack → BufPointer → List ℕ → ℕ → Outcome Stack)
      → Stack
      → ℕ
      → ℕ
      → List ℕ
      → List ℕ
      → ℕ
      → Outcome Stack)
    (rand : Stack → ℕ) (malloc : ℕ → Bool) where
  -- The handler that `net_table` names, given the `net_in` that calls from further up end in.
  unfoldable pub call_handler :
      (Stack → BufPointer → Outcome Stack)
      → NetHandler
      → Stack
      → BufPointer
      → List ℕ
      → Outcome Stack
  unfolding ip_out icmp_in udp_in tcp_in
  call_handler ip_input NetHandler.arp_in s pointer src = done (arp_in s (deref s pointer) src)
  call_handler ip_input NetHandler.ip_in s pointer src = ip_input s pointer
  call_handler ip_input NetHandler.icmp_in s pointer src = icmp_in (ip_out ip_input) s pointer src
  call_handler ip_input NetHandler.udp_in s pointer src =
      udp_in (icmp_unreachable (ip_out ip_input)) (udp_handle (ip_out ip_input)) s pointer src
  call_handler ip_input NetHandler.tcp_in s pointer src =
      tcp_in (ip_out ip_input) (icmp_unreachable (ip_out ip_input)) (tcp_handle (ip_out ip_input))
        rand s pointer src

  -- The result is false if no handler is registered.
  unfoldable pub dispatch :
      (Stack → BufPointer → Outcome Stack)
      → Stack
      → BufPointer
      → ℕ
      → List ℕ
      → Outcome (Bool × Stack)
  unfolding call_handler
  dispatch ip_input s pointer protocol src = elim (Map.lookup s.now s.net_table protocol) [
    | none ↦ done (false, s)
    | some handler ↦ call_handler ip_input handler s pointer src >>= λ s'. done (true, s')
  ]

  -- `ip_in` of src/ip.c, with the calls that it ends in.
  unfoldable pub ip_input : ℕ → Stack → BufPointer → Outcome Stack
  unfolding dispatch
  ip_input zero s pointer = fault out_of_fuel
  ip_input (suc fuel) s pointer =
      ip_in (dispatch (ip_input fuel)) (icmp_unreachable (ip_out (ip_input fuel))) set_ping_req_ttl
        malloc s pointer

  unfoldable pub net_in : ℕ → Stack → BufPointer → ℕ → List ℕ → Outcome (Bool × Stack)
  unfolding ip_input
  net_in fuel s pointer protocol src = dispatch (ip_input fuel) s pointer protocol src

  -- `ethernet_in` gives `net_in` the receive buffer.
  unfoldable pub net_poll : ℕ → Stack → Option (List ℕ) → Outcome Stack
  unfolding net_in
  net_poll fuel s pkt_data =
      ethernet_poll
        (λ t buf protocol src.
          net_in fuel (record t { rxbuf = buf }) rx protocol src >>= λ r. done (r.1, r.1.rxbuf))
        s pkt_data

  -- The endless loop of the servers, for as many rounds as are given.
  unfoldable pub poll_all : ℕ → Stack → List Round → Outcome Stack
  unfolding net_poll
  poll_all fuel s [] = done s
  poll_all fuel s (round ∷ rounds) =
      net_poll fuel (record s { now = round.time }) round.pkt_data >>= λ s'. poll_all fuel s' rounds

-- `protocol_stats_init` of src/protocol_stats.c
unfoldable pub protocol_stats_init : Stack → Stack
protocol_stats_init s = record s {
  ethernet_stats = zero_stats;
  ip_stats = zero_stats;
  icmp_stats = zero_stats;
  udp_stats = zero_stats;
  tcp_stats = zero_stats;
}

-- The layers that `net_init` sets up once the device is open.
unfoldable pub init_layers : Stack → Stack
unfolding protocol_stats_init
init_layers s =
    tcp_init (udp_init (icmp_init (protocol_stats_init (ip_init (arp_init (ethernet_init s))))))

-- What `net_init` returns and leaves behind.
pub record Started : Type 0 where
  pub status : Status
  pub stack : Stack
  pub device : Option Device
  pub monitor : Monitor

-- A pointer to a function has eight bytes. `handler` stands for the zero bytes of a free slot, `mask`
-- for an uninitialised variable; `wsa_started` and `created` are whether the calls of
-- `monitor_server_init` succeed, whose failure goes unnoticed.
unfoldable pub net_init :
    Stack → NetHandler → List ℕ → Pcap → Monitor → Bool → Bool → Outcome Started
unfolding init_layers
net_init s handler mask pcap monitor wsa_started created =
    let tables = record s { net_table = Map.init 2 8 0 0 Map.memcpy 0 handler } in
    driver_open s.config mask pcap >>= λ opened. elim opened.0 [
      | failed ↦
          done (record { status = failed; stack = tables; device = opened.1; monitor = monitor })
      | ok ↦ done (record {
        status = ok;
        stack = init_layers tables;
        device = opened.1;
        monitor = (monitor_server_init monitor wsa_started created).1;
      })
    ]
