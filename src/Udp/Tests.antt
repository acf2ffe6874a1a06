-- ===== src/Udp/Tests.antt =====
-- The theorems about src/udp.c at a datagram of three bytes.
use hitsz_network_lab.Common.{
  ℕ, ◌+◌, ◌≡◌, refl, List, [], ◌∷◌, length, read, write, arith, some, nat_eq,
}
use hitsz_network_lab.Buf.{Buf, contents}
use hitsz_network_lab.Map
use hitsz_network_lab.Stack.{Stack, Outcome, done, BufPointer, own, deref, store}
use hitsz_network_lab.Stack.Stats.{count_sent, count_received}
use hitsz_network_lab.Stack.Example.{example, example_ip, remote_ip, resolved}
use hitsz_network_lab.Udp.{udp_in, udp_out}
use hitsz_network_lab.Udp.RoundTrip.{datagram, udp_in-delivers}
use hitsz_network_lab.Udp.Build.{udp_out-builds}

abbrev three_bytes : List ℕ
three_bytes = 10 ∷ 20 ∷ 30 ∷ []

-- The datagram as it lies in a buffer.
abbrev received : BufPointer
received = own (record {
  len = 11;
  off = 20;
  payload = write (λ i. 0) 20 (datagram remote_ip example_ip 5000 80 three_bytes);
})

contents-received :
    contents (deref resolved received) ≡ datagram remote_ip example_ip 5000 80 three_bytes
unfolding deref read write
contents-received = refl

port_open : Map.lookup 1000 resolved.udp_table 80 ≡ some 7
unfolding Map.lookup Map.set Map.init Map.entry_valid
port_open = refl

abbrev no_answer : Stack → BufPointer → List ℕ → ℕ → Outcome Stack
no_answer s pointer ip code = done s

-- A handler that drops the datagram.
abbrev drop_handler : Stack → ℕ → List ℕ → List ℕ → ℕ → Outcome Stack
drop_handler s handler bytes ip port = done s

udp_in-delivers_example :
    (buf : Buf) × (contents buf ≡ three_bytes)
    × (udp_in no_answer drop_handler resolved received remote_ip
        ≡ drop_handler
            (store
              (record resolved {
                udp_stats = count_received (length three_bytes + 8) resolved.udp_stats;
              })
              received
              buf).0
            7
            three_bytes
            remote_ip
            5000)
udp_in-delivers_example =
    udp_in-delivers no_answer drop_handler resolved received remote_ip three_bytes 5000 80 7
      contents-received (refl, refl) (omega arith, omega arith) (omega arith)
      (unfold deref in omega arith) port_open

abbrev payload_packet : BufPointer
payload_packet = own (record { len = 3; off = 65659; payload = λ i. 9 })

udp_out-builds_example :
    (buf : Buf) × (contents buf
      ≡ datagram example_ip remote_ip 80 5000 (contents (deref example payload_packet)))
    × (udp_out no_answer example payload_packet 80 remote_ip 5000 ≡ (
        let (s', pointer') =
          store
            (record example { udp_stats = count_sent (length (contents buf)) example.udp_stats })
            payload_packet
            buf in
        no_answer s' pointer' remote_ip 17))
udp_out-builds_example =
    udp_out-builds no_answer example payload_packet remote_ip 80 5000 refl refl
      (unfold deref in omega arith) (unfold deref read in ground arith)
