-- ===== src/Ethernet/Tests.antt =====
-- The theorems about src/ethernet.c at a short packet and two frames.
use hitsz_network_lab.Common.{ℕ, ◌+◌, ◌*◌, ◌≤◌, ◌≡◌, refl, List, [], ◌∷◌, length, replicate, arith}
use hitsz_network_lab.Buf.{Buf, contents}
use hitsz_network_lab.Stack.{Stack, Outcome, done}
use hitsz_network_lab.Stack.Stats.{count_sent}
use hitsz_network_lab.Stack.Example.{example, example_mac}
use hitsz_network_lab.Ethernet.{ethernet_out, ether_broadcast_mac}
use hitsz_network_lab.Ethernet.Frame.{frame, ethernet_out_lem}
use hitsz_network_lab.Ethernet.Poll.{KeepsPlace, polls, polls_drift}
use hitsz_network_lab.Net.{net_in}
use hitsz_network_lab.Map
use hitsz_network_lab.Buf
use hitsz_network_lab.Buf.{put, fetch}
use hitsz_network_lab.Buf.Fields.{fetch16}
use hitsz_network_lab.Utils.{swap16}
use hitsz_network_lab.Stack.{◌>>=◌, rx}
use hitsz_network_lab.Common.{true, nat_eq}

abbrev four_bytes : Buf
four_bytes = record { len = 4; off = 65658; payload = λ i. 9 }

ethernet_out_lem_example :
    (ethernet_out example four_bytes ether_broadcast_mac 0x0800).0 ≡ record example {
      sent = frame ether_broadcast_mac example_mac 0x0800 (contents four_bytes) ∷ [];
      ethernet_stats =
          count_sent
            (length (frame ether_broadcast_mac example_mac 0x0800 (contents four_bytes)))
            example.ethernet_stats;
    }
ethernet_out_lem_example =
    ethernet_out_lem example four_bytes ether_broadcast_mac 0x0800 refl refl (omega arith)
      (omega arith)

-- The program's `net_in`, without applications.
abbrev program_net_in : Stack → Buf → ℕ → List ℕ → Outcome (Stack × Buf)
program_net_in t buf protocol src =
    net_in (λ ip_out s h bytes ip port. done s) (λ ip_out s h p bytes ip port. done s) (λ s. 0)
      (λ size. true) 1 (record t { rxbuf = buf }) rx protocol src
    >>= λ r. done (r.1, r.1.rxbuf)

-- Two frames of protocols that nobody takes.
abbrev two_frames : List (List ℕ)
two_frames = replicate 60 1 ∷ replicate 60 2 ∷ []

frames-KeepsPlace : KeepsPlace program_net_in example two_frames
unfolding net_in Map.lookup Map.init Map.entry_valid put swap16 Buf.remove_header fetch fetch16
frames-KeepsPlace = (_, refl, omega arith, (_, refl, omega arith, tt))

polls_drift_example :
    (s' : Stack) × (polls program_net_in example two_frames ≡ done s')
    × (example.rxbuf.off + 14 * length two_frames ≤ s'.rxbuf.off)
polls_drift_example =
    polls_drift program_net_in example two_frames frames-KeepsPlace (omega arith, (omega arith, tt))
