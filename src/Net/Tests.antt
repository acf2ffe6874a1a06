-- ===== src/Net/Tests.antt =====
-- The whole stack of src/net.c on a frame that asks for its hardware address, and on a ping.
use hitsz_network_lab.Common.{
  ℕ, ◌≡◌, refl, List, [], ◌∷◌, ◌++◌, replicate, read, write, some, true, bytes_eq, nat_eq,
}
use hitsz_network_lab.Buf
use hitsz_network_lab.Buf.{put, fetch}
use hitsz_network_lab.Buf.Fields.{fetch8, fetch16, put16}
use hitsz_network_lab.Map.{memcpy}
use hitsz_network_lab.Map
use hitsz_network_lab.Stack.{Stack, Outcome, done, fault, deref, store}
use hitsz_network_lab.Stack.Tables.{NetHandler}
use hitsz_network_lab.Stack.Example.{
  example, example_mac, example_ip, remote_ip, remote_mac, resolved,
}
use hitsz_network_lab.Utils.{swap16, checksum16, sum_words, fold_carry}
use hitsz_network_lab.Ethernet.{ether_broadcast_mac, ethernet_poll, ethernet_in, ethernet_out}
use hitsz_network_lab.Ethernet.Frame.{frame}
use hitsz_network_lab.Arp.{arp_in, arp_out}
use hitsz_network_lab.Ip.Header.{ip_header}
use hitsz_network_lab.Ip.Send.{ip_out}
use hitsz_network_lab.Ip.Receive.{ip_in, accept, deliver, is_our_packet, header}
use hitsz_network_lab.Icmp.{icmp_in, icmp_resp, seal}
use hitsz_network_lab.Icmp.Echo.{sealed}
use hitsz_network_lab.Arp.Packets.{packet}
use hitsz_network_lab.Net.{net_poll, net_in, dispatch, call_handler}

abbrev with_arp : Stack
with_arp = record example {
  net_table =
      (Map.set 1000 (Map.init 2 8 2 0 memcpy 0 NetHandler.ip_in) 0x0806 NetHandler.arp_in).1;
}

-- The handlers of IP and ICMP registered, and the remote address resolved.
abbrev with_icmp : Stack
with_icmp = record resolved {
  net_table =
      (Map.set 1000
        (Map.set 1000 (Map.init 2 8 2 0 memcpy 0 NetHandler.ip_in) 0x0800 NetHandler.ip_in).1 1
        NetHandler.icmp_in).1;
}

abbrev frames : Outcome Stack → List (List ℕ)
frames (done s) = s.sent
frames (fault e) = []

poll_arp_request :
    frames (
      net_poll
        (λ ip_out s h b ip port. done s)
        (λ ip_out s h p b ip port. done s)
        (λ s. 0)
        (λ n. true)
        1
        with_arp
        (some (
          frame ether_broadcast_mac remote_mac 0x0806
            (packet 1 remote_mac remote_ip (replicate 6 0) example_ip))))
    ≡ frame remote_mac example_mac 0x0806 (packet 2 example_mac example_ip remote_mac remote_ip)
      ∷ []
unfolding net_poll net_in dispatch call_handler ethernet_poll ethernet_out arp_in Map.lookup Map.set
    Map.init Map.entry_valid read write swap16 fetch fetch8 fetch16 put put16 deref bytes_eq
    Buf.init Buf.add_header Buf.remove_header Buf.add_padding ethernet_in
poll_arp_request = refl

-- A ping with two bytes of data, and what it carries behind type, code and checksum.
abbrev ping_rest : List ℕ
ping_rest = 0 ∷ 7 ∷ 0 ∷ 1 ∷ 97 ∷ 98 ∷ []

abbrev ping_packet : List ℕ
ping_packet = ip_header 30 0 0 1 remote_ip example_ip ++ sealed 8 0 ping_rest

poll_ping :
    frames (
      net_poll
        (λ ip_out s h b ip port. done s)
        (λ ip_out s h p b ip port. done s)
        (λ s. 0)
        (λ n. true)
        1
        with_icmp
        (some (frame example_mac remote_mac 0x0800 ping_packet)))
    ≡ frame remote_mac example_mac 0x0800
        (ip_header 30 0 0 1 example_ip remote_ip ++ sealed 0 0 ping_rest)
      ∷ []
unfolding net_poll net_in dispatch call_handler ethernet_poll ethernet_out Map.lookup Map.set
    Map.init Map.entry_valid read write swap16 fetch fetch8 fetch16 put put16 deref bytes_eq
    Buf.init Buf.add_header Buf.remove_header Buf.add_padding ethernet_in ip_in accept deliver
    is_our_packet ip_out icmp_in icmp_resp store arp_out seal header checksum16 sum_words fold_carry
    Buf.remove_padding Buf.copy
poll_ping = refl
