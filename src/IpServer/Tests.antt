-- ===== src/IpServer/Tests.antt =====
-- A frame of app/ip_server.c, and the two fragments that its first test hands over.
use hitsz_network_lab.Common.{
  ℕ, ◌+◌, ◌≡◌, refl, true, List, [], ◌∷◌, ◌++◌, replicate, read, write, take,
}
use hitsz_network_lab.Buf
use hitsz_network_lab.Buf.{Buf, put, fetch, contents}
use hitsz_network_lab.Buf.Fields.{fetch8, fetch16, put16}
use hitsz_network_lab.Stack.{Stack, Outcome, done, fault}
use hitsz_network_lab.Stack.Example.{example, example_mac, example_ip}
use hitsz_network_lab.Utils.{swap16, checksum16, sum_words, fold_carry}
use hitsz_network_lab.Ip.{loopback_ip}
use hitsz_network_lab.Ip.Header.{ip_header}
use hitsz_network_lab.Ethernet.{ether_broadcast_mac, ethernet_in}
use hitsz_network_lab.IpServer.{Run, fragment_frame, send_fragment, test_out_of_order_fragments}

abbrev eight_bytes : List ℕ
eight_bytes = replicate 40 7

-- The offset is counted in units of eight bytes, behind the flag for more fragments.
one_frame :
    contents
      (fragment_frame example example.garbage loopback_ip example_ip 1001 1480 eight_bytes 40 true)
    ≡ ether_broadcast_mac
      ++ (example_mac
          ++ (8 ∷ 0 ∷ [])
          ++ (ip_header 60 (swap16 1001) (swap16 (0x2000 + 185)) 253 loopback_ip example_ip
              ++ eight_bytes))
unfolding fragment_frame read write swap16 fetch fetch8 fetch16 put put16 Buf.init checksum16
    sum_words fold_carry
one_frame = refl

-- A `net_in` that keeps the first bytes of the packets.
abbrev keep : Stack → Buf → ℕ → List ℕ → Outcome (Stack × Buf)
keep s buf protocol src = done (record s { sent = take 12 (contents buf) ∷ s.sent }, buf)

abbrev beginnings : Outcome Run → List (List ℕ)
beginnings (done run) = run.stack.sent
beginnings (fault e) = []

-- The first test hands over the second fragment and then the first one; the headers up to the flags.
out_of_order :
    beginnings
      (test_out_of_order_fragments keep (record { stack = example; fragments_received = 0 }))
    ≡ take 12 (ip_header 1500 (swap16 1001) (swap16 0x2000) 253 loopback_ip example_ip)
      ∷ take 12 (ip_header 540 (swap16 1001) (swap16 185) 253 loopback_ip example_ip)
      ∷ []
unfolding test_out_of_order_fragments send_fragment fragment_frame read write swap16 fetch fetch8
    fetch16 put put16 Buf.init Buf.remove_header checksum16 sum_words fold_carry ethernet_in
out_of_order = refl
