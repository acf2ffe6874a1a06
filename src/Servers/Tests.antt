-- ===== src/Servers/Tests.antt =====
-- app/udp_server.c on a frame with a datagram for its port: the frame that it sends.
use hitsz_network_lab.Common.{
  ℕ, ◌≡◌, refl, true, List, [], ◌∷◌, ◌++◌, read, write, some, none, bytes_eq, nat_eq, failed, ok,
  Option,
}
use hitsz_network_lab.Buf
use hitsz_network_lab.Buf.{put, fetch}
use hitsz_network_lab.Buf.Fields.{fetch8, fetch16, put16}
use hitsz_network_lab.Map.{memcpy}
use hitsz_network_lab.Map
use hitsz_network_lab.Stack.{Stack, Outcome, done, fault, deref, store}
use hitsz_network_lab.Stack.Tables.{NetHandler}
use hitsz_network_lab.Stack.Example.{example_mac, example_ip, remote_ip, remote_mac, resolved}
use hitsz_network_lab.Utils.{swap16, checksum16, sum_words, fold_carry, transport_checksum}
use hitsz_network_lab.Ethernet.{ethernet_poll, ethernet_in, ethernet_out}
use hitsz_network_lab.Ethernet.Frame.{frame}
use hitsz_network_lab.Arp.{arp_out}
use hitsz_network_lab.Ip.Header.{ip_header}
use hitsz_network_lab.Ip.Send.{ip_out}
use hitsz_network_lab.Ip.Receive.{ip_in, accept, deliver, is_our_packet, header}
use hitsz_network_lab.Udp.{udp_in, udp_out, udp_send, udp_open}
use hitsz_network_lab.Udp.RoundTrip.{datagram}
use hitsz_network_lab.Net.{Started, net_poll, net_in, dispatch, call_handler}
use hitsz_network_lab.Echo.{echo_port, udp_handler}
use hitsz_network_lab.Monitor.{waiting}
use hitsz_network_lab.Servers.{udp_server}

abbrev with_udp : Stack
with_udp = record resolved {
  net_table =
      (Map.set 1000
        (Map.set 1000 (Map.init 2 8 2 0 memcpy 0 NetHandler.ip_in) 0x0800 NetHandler.ip_in).1 17
        NetHandler.udp_in).1;
  udp_table = Map.init 2 8 2 0 memcpy 0 0;
}

abbrev started : Started
started = record {
  status = ok;
  stack = with_udp;
  device = none;
  monitor = record { clients = []; threads = []; accepting = waiting; actions = [] };
}

abbrev frames : Outcome (Option Stack) → List (List ℕ)
frames (done (some s)) = s.sent
frames (done none) = []
frames (fault e) = []

abbrev three_bytes : List ℕ
three_bytes = 10 ∷ 20 ∷ 30 ∷ []

echoed :
    frames (
      udp_server
        (λ s. 0)
        (λ n. true)
        1
        started
        (record {
          time = 1000;
          pkt_data = some (
              frame example_mac remote_mac 0x0800 (
                ip_header 31 0 0 17 remote_ip example_ip
                ++ datagram remote_ip example_ip 5000 echo_port three_bytes));
        }
          ∷ []))
    ≡ frame remote_mac example_mac 0x0800 (
        ip_header 31 0 0 17 example_ip remote_ip
        ++ datagram example_ip remote_ip echo_port 5000 three_bytes)
      ∷ []
unfolding udp_server net_poll net_in dispatch call_handler ethernet_poll ethernet_out Map.lookup
    Map.set Map.init Map.entry_valid read write swap16 fetch fetch8 fetch16 put put16 deref bytes_eq
    Buf.init Buf.add_header Buf.remove_header Buf.add_padding ethernet_in ip_in accept deliver
    is_our_packet ip_out udp_in udp_handler udp_send udp_out udp_open transport_checksum store
    arp_out header checksum16 sum_words fold_carry Buf.remove_padding Buf.copy
echoed = refl

-- A stack that could not be started.
not_started : udp_server (λ s. 0) (λ n. true) 1 (record started { status = failed }) [] ≡ done none
unfolding udp_server
not_started = refl
