-- ===== src/Echo/Replies.antt =====
-- What app/udp_server.c answers: the way up through `udp_in` and down again through `udp_out`.
use hitsz_network_lab.Common.{
  ℕ, ◌+◌, ◌-◌, ◌^◌, ◌≡◌, ◌≤◌, ◌<◌, List, length, refl, ap, ◌∙◌, arith, some, nat_eq, lt→leb,
}
use native.Mathlib.Nat.{mod-eq_of_lt}
use hitsz_network_lab.Buf.{Buf, contents, put}
use hitsz_network_lab.Buf.Contents.{contents-put_all}
use hitsz_network_lab.Buf
use hitsz_network_lab.Map
use hitsz_network_lab.Stack.{Stack, Outcome, BufPointer, rx, tx, own, deref, store, Config}
use hitsz_network_lab.Stack.Stats.{count_sent, count_received}
use hitsz_network_lab.Udp.{udp_in, udp_send}
use hitsz_network_lab.Udp.RoundTrip.{datagram, udp_in-delivers}
use hitsz_network_lab.Udp.Build.{udp_out-builds}
use hitsz_network_lab.Echo.{echo_port, udp_handler}

-- What `udp_send` puts into the transmission buffer.
init_fits :
    (b : Buf) (bytes : List ℕ)
    → length bytes < 65528
    → let start = put (Buf.init b (length bytes)).1 0 bytes in
      (contents start ≡ bytes) × (20 ≤ start.off)
unfolding Buf.init put
init_fits b bytes small = rw (lt→leb 65662 (length bytes) (omega arith)) (
  contents-put_all (record b { len = length bytes; off = 65662 - length bytes }) bytes refl,
  omega arith,
)

-- One packet in `txbuf`, with the data as they were.
udp_handler-sends :
    (ip_out : Stack → BufPointer → List ℕ → ℕ → Outcome Stack) (s : Stack) (payload src_ip : List ℕ)
    (src_port : ℕ)
    → length s.net_if_ip ≡ 4
    → length src_ip ≡ 4
    → length payload < 65528
    → (s' : Stack) × (udp_handler ip_out s payload src_ip src_port ≡ ip_out s' tx src_ip 17)
      × (contents s'.txbuf ≡ datagram s.net_if_ip src_ip echo_port src_port payload)
unfolding udp_handler udp_send store deref
udp_handler-sends ip_out s payload src_ip src_port m n small =
    let (held, room) = init_fits s.txbuf payload small in
    let start = record s { txbuf = put (Buf.init s.txbuf (length payload)).1 0 payload } in
    let (buf, built, sent) =
      udp_out-builds ip_out start tx src_ip echo_port src_port m n room
        (omega (arith, ap length held, small)) in
    (
      (store (record start { udp_stats = count_sent (length (contents buf)) start.udp_stats }) tx
          buf).0,
      rw (mod-eq_of_lt {n = length payload} {m = 2 ^ 16} (omega arith)) sent,
      built ∙ ap (datagram s.net_if_ip src_ip echo_port src_port) held,
    )

store-config :
    (s : Stack) (pointer : BufPointer) (buf : Buf) → (store s pointer buf).0.config ≡ s.config
unfolding store
store-config s rx buf = refl
store-config s tx buf = refl
store-config s (own b) buf = refl

-- A datagram with the checksum that `checksum16` gives, with up to 65527 bytes of data and from any sender, that
-- arrives for the port of the server is answered: one packet goes to `ip_out`, in the transmission
-- buffer, a datagram with the same data from that port to the port and the address of the sender.
pub udp_in-udp_handler :
    (icmp_unreachable ip_out : Stack → BufPointer → List ℕ → ℕ → Outcome Stack) (s : Stack)
    (pointer : BufPointer) (src_ip payload : List ℕ) (src_port handler : ℕ)
    → contents (deref s pointer) ≡ datagram src_ip s.net_if_ip src_port echo_port payload
    → (length src_ip ≡ 4) × (length s.net_if_ip ≡ 4)
    → src_port < 65536
    → length payload < 65528
    → 12 ≤ (deref s pointer).off
    → Map.lookup s.now s.udp_table echo_port ≡ some handler
    → (s' : Stack) × (udp_in icmp_unreachable (λ t h. udp_handler ip_out t) s pointer src_ip
        ≡ ip_out s' tx src_ip 17)
      × (contents s'.txbuf ≡ datagram s.net_if_ip src_ip echo_port src_port payload)
udp_in-udp_handler icmp_unreachable ip_out s pointer src_ip payload src_port handler holds a p small
      room opened =
    let handle = λ (t : Stack) (h : ℕ). udp_handler ip_out t in
    let (rest, _, delivered) =
      udp_in-delivers icmp_unreachable handle s pointer src_ip payload src_port echo_port handler
        holds a (p, omega arith) small room opened in
    let counted = record s { udp_stats = count_received (length payload + 8) s.udp_stats } in
    let t = (store counted pointer rest).0 in
    let same = ap (λ (c : Config). c.net_if_ip) (store-config counted pointer rest) in
    let (s', sent, built) =
      udp_handler-sends ip_out t payload src_ip src_port (ap length same ∙ a.1) a.0 small in
    (s', delivered ∙ sent, built ∙ ap (λ ip. datagram ip src_ip echo_port src_port payload) same)
