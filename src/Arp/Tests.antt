-- ===== src/Arp/Tests.antt =====
-- The theorems about src/arp.c at a packet for an address that is not known.
use hitsz_network_lab.Common.{
  ℕ, ◌≡◌, refl, inr, List, [], ◌∷◌, ◌++◌, length, replicate, read, write, arith, ok, none, bytes_Eq,
}
use hitsz_network_lab.Buf.{Buf, contents}
use hitsz_network_lab.Buf
use hitsz_network_lab.Map.{capacity}
use hitsz_network_lab.Map
use hitsz_network_lab.Map.Invariant.{init-IsValid}
use hitsz_network_lab.Stack.Stats.{count_sent}
use hitsz_network_lab.Stack.Example.{
  example, example_mac, example_ip, zero_buf, remote_ip, remote_mac,
}
use hitsz_network_lab.Ethernet.{ether_broadcast_mac}
use hitsz_network_lab.Ethernet.Frame.{frame}
use hitsz_network_lab.Arp.{arp_req, arp_out, arp_in}
use hitsz_network_lab.Arp.Packets.{packet, arp_req-sends}
use hitsz_network_lab.Arp.Fields.{Carries}
use hitsz_network_lab.Arp.Resolve.{IsArpBuf, request_frame, at, arp_resolves}

arp_req-sends_example : arp_req example remote_ip ≡ record example {
  sent =
      frame ether_broadcast_mac example_mac 0x0806
        (packet 1 example_mac example_ip (replicate 6 0) remote_ip)
      ∷ [];
  ethernet_stats =
      count_sent
        (length (
          frame ether_broadcast_mac example_mac 0x0806
            (packet 1 example_mac example_ip (replicate 6 0) remote_ip)))
        example.ethernet_stats;
  txbuf = (arp_req example remote_ip).txbuf;
}
arp_req-sends_example = arp_req-sends example remote_ip (refl, refl) refl

abbrev waiting_packet : Buf
waiting_packet = record { len = 21; off = 65641; payload = λ i. 8 }

-- The answer as it lies in the receive buffer.
abbrev answer_bytes : List ℕ
answer_bytes = packet 2 remote_mac remote_ip example_mac example_ip ++ replicate 18 0

abbrev answer : Buf
answer = record { len = 46; off = 65662; payload = write (λ i. 0) 65662 answer_bytes }

answer-Carries : Carries answer 2 remote_mac remote_ip example_mac example_ip (replicate 18 0)
unfolding read write
answer-Carries = (refl, inr refl, refl, refl, refl, refl)

example-IsArpBuf : IsArpBuf 1000 example.arp_buf
unfolding Map.init capacity
example-IsArpBuf =
    (init-IsValid 1000 4 131344 2 1 Buf.copy (replicate 4 0) zero_buf (omega arith), refl, refl)

nothing_known :
    (Map.lookup 1000 example.arp_table remote_ip ≡ none)
    × (Map.lookup 1000 example.arp_buf remote_ip ≡ none)
unfolding Map.lookup Map.init Map.entry_valid
nothing_known = (refl, refl)

room : (Map.set 1000 example.arp_buf remote_ip waiting_packet).0 ≡ ok
unfolding Map.set Map.init Map.entry_valid
room = refl

arp_resolves_example :
    let requesting = (arp_out example waiting_packet remote_ip).0 in
    (requesting.sent ≡ request_frame example remote_ip ∷ [])
    × ((arp_in (at 1001 requesting) answer []).sent
        ≡ frame remote_mac example_mac 0x0800 (contents waiting_packet)
          ∷ request_frame example remote_ip
          ∷ [])
arp_resolves_example =
    arp_resolves example waiting_packet answer 1001 2 remote_ip remote_mac example_mac example_ip
      (replicate 18 0) [] (refl, refl) nothing_known example-IsArpBuf room (omega arith)
      (omega arith) (omega arith) refl (omega arith) (omega arith) answer-Carries
