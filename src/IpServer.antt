-- ===== src/IpServer.antt =====
-- app/ip_server.c: a program that hands fragments of its own making to `ethernet_in`, in the orders
-- that the reassembly of src/ip.c is to cope with. What it prints and the pauses are left out.
pub mod Tests
use Prim.Native.Nat.{bit_or}
use hitsz_network_lab.Common.{
  ℕ, suc, ◌+◌, ◌*◌, ◌/◌, ◌%◌, ◌^◌, Bool, true, false, List, [], ◌∷◌, length, replicate,
  if◌then◌else◌,
}
use hitsz_network_lab.Buf.{Buf, put, fetch}
use hitsz_network_lab.Buf.Fields.{fetch8, put8, put16}
use hitsz_network_lab.Buf
use hitsz_network_lab.Stack.{Stack, Outcome, done, ◌>>=◌, BufPointer, own}
use hitsz_network_lab.Utils.{swap16, checksum16}
use hitsz_network_lab.Ip.{version_4, more_fragment, loopback_ip}
use hitsz_network_lab.Ethernet.{ether_broadcast_mac, ethernet_in}

-- TEST_PROTOCOL, and the sizes of the headers.
abbrev pub test_protocol : ℕ
test_protocol = 253

abbrev pub ip_hdr_len : ℕ
ip_hdr_len = 20

abbrev pub ether_hdr_len : ℕ
ether_hdr_len = 14

-- The frame that is built in the local buffer, which held `garbage`.
unfoldable pub fragment_frame : Stack → Buf → List ℕ → List ℕ → ℕ → ℕ → List ℕ → ℕ → Bool → Buf
unfolding put8
fragment_frame s garbage src_ip dst_ip id offset bytes data_len mf =
    let ip_packet_len = (ip_hdr_len + data_len) % 2 ^ 16 in
    let total_len = (ether_hdr_len + ip_packet_len) % 2 ^ 16 in
    let start = (Buf.init garbage total_len).1 in
    let ether = put16 (put (put start 0 ether_broadcast_mac) 6 s.net_if_mac) 12 (swap16 0x0800) in
    let versioned = put8 ether 14 (version_4 * 16 + fetch8 ether 14 % 16) in
    let measured = put8 versioned 14 (fetch8 versioned 14 / 16 * 16 + ip_hdr_len / 4) in
    let sized = put16 (put8 measured 15 0) 16 (swap16 ip_packet_len) in
    let flags = bit_or (if mf then more_fragment else 0) (offset / 8) in
    let identified = put16 (put16 sized 18 (swap16 id)) 20 (swap16 flags) in
    let typed = put8 (put8 identified 22 64) 23 test_protocol in
    let addressed = put (put typed 26 src_ip) 30 dst_ip in
    let zeroed = put16 addressed 24 0 in
    let summed = put16 zeroed 24 (checksum16 (fetch zeroed 14 ip_hdr_len)) in
    record (put summed 34 bytes) { len = total_len }

-- The stack, and how many fragments were made.
pub record Run : Type 0 where
  pub stack : Stack
  pub fragments_received : ℕ

module _ (net_in : Stack → Buf → ℕ → List ℕ → Outcome (Stack × Buf)) where
  -- `data_len` bytes of the same value; `mf` is whether more fragments follow.
  unfoldable pub send_fragment : List ℕ → List ℕ → ℕ → ℕ → List ℕ → Bool → Run → Outcome Run
  unfolding fragment_frame
  send_fragment src_ip dst_ip id offset bytes mf run =
      let frag_buf =
        fragment_frame run.stack run.stack.garbage src_ip dst_ip id offset bytes (length bytes)
          mf in
      ethernet_in net_in run.stack frag_buf >>= λ r.
      done (record { stack = r.0; fragments_received = run.fragments_received + 1 })

  unfoldable pub test_out_of_order_fragments : Run → Outcome Run
  test_out_of_order_fragments run =
      let net_if_ip = run.stack.net_if_ip in
      send_fragment loopback_ip net_if_ip 1001 1480 (replicate 520 0xbb) false run
      >>= send_fragment loopback_ip net_if_ip 1001 0 (replicate 1480 0xaa) true

  unfoldable pub test_interleaved_fragments : Run → Outcome Run
  test_interleaved_fragments run =
      let net_if_ip = run.stack.net_if_ip in
      send_fragment loopback_ip net_if_ip 1002 0 (replicate 1480 0xcc) true run
      >>= send_fragment loopback_ip net_if_ip 1003 0 (replicate 1480 0xee) true
      >>= send_fragment loopback_ip net_if_ip 1002 1480 (replicate 320 0xdd) false
      >>= send_fragment loopback_ip net_if_ip 1003 1480 (replicate 720 0xff) false

  unfoldable pub test_duplicate_fragments : Run → Outcome Run
  test_duplicate_fragments run =
      let net_if_ip = run.stack.net_if_ip in
      send_fragment loopback_ip net_if_ip 1004 0 (replicate 1480 0x11) true run
      >>= send_fragment loopback_ip net_if_ip 1004 0 (replicate 1480 0x11) true
      >>= send_fragment loopback_ip net_if_ip 1004 1480 (replicate 300 0x22) false

  unfoldable pub test_unequal_length_fragments : Run → Outcome Run
  test_unequal_length_fragments run =
      let net_if_ip = run.stack.net_if_ip in
      send_fragment loopback_ip net_if_ip 1005 1200 (replicate 800 0x44) true run
      >>= send_fragment loopback_ip net_if_ip 1005 0 (replicate 1200 0x33) true
      >>= send_fragment loopback_ip net_if_ip 1005 2000 (replicate 1000 0x55) false

  -- `main` once `net_init` has succeeded; a second passes between the tests.
  unfoldable pub run_tests : Stack → Outcome Run
  run_tests s =
      let pause =
        λ (run : Run). record run { stack = record run.stack { now = run.stack.now + 1 } } in
      test_out_of_order_fragments (record { stack = s; fragments_received = 0 })
      >>= (λ run. test_interleaved_fragments (pause run))
      >>= (λ run. test_duplicate_fragments (pause run))
      >>= (λ run. test_unequal_length_fragments (pause run))
