-- ===== src/Icmp/Tests.antt =====
-- The theorems about src/icmp.c at an echo request with two bytes of data, and at a ping.
use hitsz_network_lab.Common.{ℕ, ◌≡◌, refl, List, [], ◌∷◌, read, write, arith, nat_eq, bytes_Eq}
use hitsz_network_lab.Common.Int.{pos}
use hitsz_network_lab.Map
use hitsz_network_lab.Buf.{contents}
use hitsz_network_lab.Stack.{Stack, Outcome, done, BufPointer, own, tx, deref}
use hitsz_network_lab.Stack.Stats.{count_sent, count_received}
use hitsz_network_lab.Stack.Example.{example, remote_ip, zero_ping_req}
use hitsz_network_lab.Stack.Tables.{Ping, PingReq}
use hitsz_network_lab.Icmp.{icmp_in}
use hitsz_network_lab.Icmp.Ping.{time_interval, count_reply, new_ping, ping_req}
use hitsz_network_lab.Icmp.Ping.Progress.{Progress}
use hitsz_network_lab.Ip.Send.{ip_out}
use hitsz_network_lab.Buf
use hitsz_network_lab.Common.Int.{int_of, residue}
use hitsz_network_lab.Icmp.Echo.{request, sealed, icmp_in-echoes}

abbrev ping : BufPointer
ping = own (record {
  len = 10;
  off = 34;
  payload = write (λ i. 0) 34 (request 0 1 2 0 7 0 1 (97 ∷ 98 ∷ []));
})

contents-ping : contents (deref example ping) ≡ request 0 1 2 0 7 0 1 (97 ∷ 98 ∷ [])
unfolding deref read write
contents-ping = refl

abbrev sent_nowhere : Stack → BufPointer → List ℕ → ℕ → Outcome Stack
sent_nowhere s pointer ip protocol = done s

icmp_in-echoes_example :
    (t : Stack) × (icmp_in sent_nowhere example ping remote_ip ≡ sent_nowhere t tx remote_ip 1)
    × (contents t.txbuf ≡ sealed 0 0 (0 ∷ 7 ∷ 0 ∷ 1 ∷ 97 ∷ 98 ∷ []))
    × (t ≡ record example {
      txbuf = t.txbuf;
      icmp_stats =
          count_sent t.txbuf.len (count_received (deref example ping).len example.icmp_stats);
    })
icmp_in-echoes_example =
    icmp_in-echoes sent_nowhere example ping 0 1 2 0 7 0 1 (97 ∷ 98 ∷ []) remote_ip contents-ping
      (omega arith, omega arith, omega arith, omega arith) (unfold deref in omega arith) tt

-- A request that was answered after a second and a half.
abbrev answered : PingReq
answered = record zero_ping_req {
  send_time = record { tv_sec = 990; tv_usec = 900000 };
  receive_time = record { tv_sec = 992; tv_usec = 400000 };
}

abbrev first_sent : Ping
first_sent = record (new_ping 990) { ping_time = 1 }

-- One ping is going on, and its request is in the table.
abbrev pinging : Stack
pinging = record example {
  map_ping_req = (Map.set 990 example.map_ping_req 1 answered).1;
  map_ping = (Map.set 990 example.map_ping remote_ip first_sent).1;
}

-- A reply that takes longer than a second is not shown as the shortest.
slow_reply : (count_reply answered first_sent).shortest_time ≡ pos 1000
unfolding count_reply time_interval new_ping int_of residue
slow_reply = refl

-- The program's `ip_out`; the address is not resolved, so an ARP request is sent.
abbrev program_ip_out : Stack → BufPointer → List ℕ → ℕ → Outcome Stack
program_ip_out = ip_out (λ s pointer. done s)

-- The first call makes the entry, and the next one in the same second waits.
first_call :
    ping_req sent_nowhere example remote_ip
    ≡ done (
      0,
      record example { map_ping = (Map.set 1000 example.map_ping remote_ip (new_ping 1000)).1 },
    )
unfolding ping_req Map.get Map.init Map.entry_valid
first_call = refl
