-- ===== src/Echo/Tests.antt =====
-- The theorem about app/udp_server.c at a datagram of three bytes, and a run of `tcp_handler`.
use hitsz_network_lab.Common.{ℕ, ◌≡◌, refl, arith, List, [], ◌∷◌, read, write, some, nat_eq}
use hitsz_network_lab.Buf.{contents}
use hitsz_network_lab.Map
use hitsz_network_lab.Stack.{Stack, Outcome, done, BufPointer, tx, own, deref}
use hitsz_network_lab.Stack.Example.{example, example_ip, remote_ip}
use hitsz_network_lab.Udp.{udp_in, udp_open}
use hitsz_network_lab.Udp.RoundTrip.{datagram}
use hitsz_network_lab.Tcp.{tcp_send}
use hitsz_network_lab.Echo.{echo_port, tcp_handler, udp_handler}
use hitsz_network_lab.Echo.Replies.{udp_in-udp_handler}

abbrev three_bytes : List ℕ
three_bytes = 10 ∷ 20 ∷ 30 ∷ []

abbrev request : BufPointer
request = own (record {
  len = 11;
  off = 20;
  payload = write (λ i. 0) 20 (datagram remote_ip example_ip 5000 echo_port three_bytes);
})

abbrev serving : Stack
serving = (udp_open example echo_port 7).1

contents-request :
    contents (deref serving request) ≡ datagram remote_ip example_ip 5000 echo_port three_bytes
unfolding deref read write
contents-request = refl

port_open : Map.lookup 1000 serving.udp_table echo_port ≡ some 7
unfolding Map.lookup Map.set Map.init Map.entry_valid udp_open
port_open = refl

abbrev no_answer : Stack → BufPointer → List ℕ → ℕ → Outcome Stack
no_answer s pointer ip code = done s

udp_in-udp_handler_example :
    (s' : Stack) × (udp_in no_answer (λ t h. udp_handler no_answer t) serving request remote_ip
      ≡ no_answer s' tx remote_ip 17)
    × (contents s'.txbuf ≡ datagram example_ip remote_ip echo_port 5000 three_bytes)
unfolding udp_open
udp_in-udp_handler_example =
    udp_in-udp_handler no_answer no_answer serving request remote_ip three_bytes 5000 7
      contents-request (refl, refl) (omega arith) (omega arith) (unfold deref in omega arith)
      port_open

-- A connection that is not there.
nothing_to_send : tcp_handler no_answer example 0 [] remote_ip 5000 ≡ done example
unfolding tcp_handler tcp_send
nothing_to_send = refl
