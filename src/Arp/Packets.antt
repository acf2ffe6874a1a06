-- ===== src/Arp/Packets.antt =====
-- The packets that `arp_req` and `arp_resp` of src/arp.c send.
use hitsz_network_lab.Common.{
  ℕ, ◌+◌, ◌≡◌, refl, ap, ap₂, ◌∙◌, List, [], ◌∷◌, ◌++◌, length, arith, take, drop, take-append,
  drop-append, replicate, append-nil, length-append, append_assoc,
}
use hitsz_network_lab.Buf.{Buf, put, contents}
use hitsz_network_lab.Buf.Fields.{put16}
use hitsz_network_lab.Buf.Contents.{contents-put_all, contents-put_at}
use hitsz_network_lab.Buf
use hitsz_network_lab.Stack.{Stack}
use hitsz_network_lab.Stack.Stats.{count_sent}
use hitsz_network_lab.Utils.{swap16, store16}
use hitsz_network_lab.Ethernet.{ether_broadcast_mac}
use hitsz_network_lab.Ethernet.Frame.{frame, ethernet_out_lem}
use hitsz_network_lab.Arp.{arp_init_pkt, arp_req, arp_resp, pkt_len}

-- An ARP packet for IPv4 over Ethernet, as RFC 826 lays it out.
abbrev pub packet : ℕ → List ℕ → List ℕ → List ℕ → List ℕ → List ℕ
packet opcode sender_mac sender_ip target_mac target_ip =
    0 ∷ 1 ∷ 8 ∷ 0 ∷ 6 ∷ 4 ∷ 0 ∷ opcode ∷ sender_mac ++ (sender_ip ++ (target_mac ++ target_ip))

-- The interface has addresses of the right lengths.
abbrev pub IsInterface : Stack → Type 0
IsInterface s = (length s.net_if_mac ≡ 6) × (length s.net_if_ip ≡ 4)

-- The first eight bytes, and what stands behind them in `arp_init_pkt`.
abbrev head : ℕ → List ℕ → List ℕ
head opcode rest = 0 ∷ 1 ∷ 8 ∷ 0 ∷ 6 ∷ 4 ∷ 0 ∷ opcode ∷ rest

abbrev body : Stack → List ℕ
body s = s.net_if_mac ++ (s.net_if_ip ++ replicate 10 0)

length-body : (s : Stack) → IsInterface s → length (body s) ≡ 20
length-body s i = omega (
  arith,
  length-append s.net_if_mac (s.net_if_ip ++ replicate 10 0),
  length-append s.net_if_ip (replicate 10 0),
)

-- The buffer with the first eight bytes and the sender filled in.
abbrev prepared : ℕ → Stack → Buf
prepared opcode s = put16 (put (Buf.init s.txbuf pkt_len).1 0 (arp_init_pkt s)) 6 (swap16 opcode)

init_pkt_eq : (s : Stack) → arp_init_pkt s ≡ head 0 (body s)
unfolding arp_init_pkt swap16
init_pkt_eq s = refl

contents-prepared :
    (opcode : ℕ) (s : Stack)
    → IsInterface s
    → store16 (swap16 opcode) ≡ 0 ∷ opcode ∷ []
    → contents (prepared opcode s) ≡ head opcode (body s)
unfolding put16 Buf.init put
contents-prepared opcode s i fields =
    contents-put_at whole 6 (store16 (swap16 opcode)) (omega arith)
    ∙ ap₂ (λ c f. take 6 c ++ (f ++ drop 8 c)) filled fields
  where
    start : Buf
    start = (Buf.init s.txbuf pkt_len).1

    whole : Buf
    whole = put start 0 (arp_init_pkt s)

    filled : contents whole ≡ head 0 (body s)
    filled =
        contents-put_all start (arp_init_pkt s)
          (ap length (init_pkt_eq s) ∙ omega (arith, length-body s i))
        ∙ init_pkt_eq s

-- The body once the target's protocol address is filled in.
take-body :
    (s : Stack) → IsInterface s → take 16 (body s) ≡ s.net_if_mac ++ (s.net_if_ip ++ replicate 6 0)
take-body s i =
    take-append s.net_if_mac (s.net_if_ip ++ replicate 10 0) 16 10 (omega arith)
    ∙ ap (◌++◌ s.net_if_mac) (take-append s.net_if_ip (replicate 10 0) 10 6 (omega arith))

drop-body : (s : Stack) → IsInterface s → drop 20 (body s) ≡ []
drop-body s i =
    drop-append s.net_if_mac (s.net_if_ip ++ replicate 10 0) 20 14 (omega arith)
    ∙ drop-append s.net_if_ip (replicate 10 0) 14 10 (omega arith)

-- With the target's protocol address filled in.
contents-targeted :
    (opcode : ℕ) (s : Stack) (target_ip : List ℕ)
    → IsInterface s
    → length target_ip ≡ 4
    → store16 (swap16 opcode) ≡ 0 ∷ opcode ∷ []
    → contents (put (prepared opcode s) 24 target_ip)
      ≡ packet opcode s.net_if_mac s.net_if_ip (replicate 6 0) target_ip
unfolding put16 Buf.init put
contents-targeted opcode s target_ip i t fields =
    contents-put_at (prepared opcode s) 24 target_ip (omega arith)
    ∙ ap₂ (λ c n. take 24 c ++ (target_ip ++ drop (24 + n) c)) (contents-prepared opcode s i fields)
        t
    ∙ ap₂ (λ front back. head opcode (front ++ (target_ip ++ back))) (take-body s i) (drop-body s i)
    ∙ ap (head opcode) (
        append_assoc s.net_if_mac (s.net_if_ip ++ replicate 6 0) (target_ip ++ [])
        ∙ ap (◌++◌ s.net_if_mac) (
            append_assoc s.net_if_ip (replicate 6 0) (target_ip ++ [])
            ∙ ap (λ l. s.net_if_ip ++ (replicate 6 0 ++ l)) (append-nil target_ip)))

length-packet :
    (opcode : ℕ) (sm si tm ti : List ℕ)
    → length sm ≡ 6
    → length si ≡ 4
    → length tm ≡ 6
    → length ti ≡ 4
    → length (packet opcode sm si tm ti) ≡ 28
length-packet opcode sm si tm ti a b c d =
    omega
      (arith, length-append sm (si ++ (tm ++ ti)), length-append si (tm ++ ti), length-append tm ti)

-- With addresses of the right lengths, `arp_req` broadcasts one ARP request for the target, as RFC 826
-- lays it out, and changes nothing but the Ethernet statistics and the transmission buffer.
pub arp_req-sends :
    (s : Stack) (target_ip : List ℕ)
    → IsInterface s
    → length target_ip ≡ 4
    → let bytes =
        frame ether_broadcast_mac s.net_if_mac 0x0806
          (packet 1 s.net_if_mac s.net_if_ip (replicate 6 0) target_ip) in
      let s' = arp_req s target_ip in
      s' ≡ record s {
        sent = bytes ∷ s.sent;
        ethernet_stats = count_sent (length bytes) s.ethernet_stats;
        txbuf = s'.txbuf;
      }
unfolding arp_req
arp_req-sends s target_ip i t =
    ap (λ (r : Stack). record r { txbuf = (arp_req s target_ip).txbuf })
      (ethernet_out_lem s filled ether_broadcast_mac 0x0806 refl i.0
          (unfold put16 Buf.init put in omega arith) (unfold put16 Buf.init put in omega arith)
        ∙ ap
            (λ c.
              let bytes = frame ether_broadcast_mac s.net_if_mac 0x0806 c in
              record s {
                sent = bytes ∷ s.sent;
                ethernet_stats = count_sent (length bytes) s.ethernet_stats;
              })
            (contents-targeted 1 s target_ip i t (unfold swap16 in refl)))
  where
    filled : Buf
    filled = put (prepared 1 s) 24 target_ip

-- With the target's hardware address filled in as well.
contents-answered :
    (opcode : ℕ) (s : Stack) (target_ip target_mac : List ℕ)
    → IsInterface s
    → length target_ip ≡ 4
    → length target_mac ≡ 6
    → store16 (swap16 opcode) ≡ 0 ∷ opcode ∷ []
    → contents (put (put (prepared opcode s) 24 target_ip) 18 target_mac)
      ≡ packet opcode s.net_if_mac s.net_if_ip target_mac target_ip
unfolding put16 Buf.init put
contents-answered opcode s target_ip target_mac i t m fields =
    contents-put_at (put (prepared opcode s) 24 target_ip) 18 target_mac (omega arith)
    ∙ ap₂ (λ c n. take 18 c ++ (target_mac ++ drop (18 + n) c))
        (contents-targeted opcode s target_ip i t fields) m
    ∙ ap₂ (λ front back. head opcode (front ++ (target_mac ++ back))) front back
    ∙ ap (head opcode) (
        append_assoc s.net_if_mac (s.net_if_ip ++ []) (target_mac ++ target_ip)
        ∙ ap (λ l. s.net_if_mac ++ (l ++ (target_mac ++ target_ip))) (append-nil s.net_if_ip))
  where
    behind : List ℕ
    behind = replicate 6 0 ++ target_ip

    front : take 10 (s.net_if_mac ++ (s.net_if_ip ++ behind)) ≡ s.net_if_mac ++ (s.net_if_ip ++ [])
    front =
        take-append s.net_if_mac (s.net_if_ip ++ behind) 10 4 (omega arith)
        ∙ ap (◌++◌ s.net_if_mac) (take-append s.net_if_ip behind 4 0 (omega arith))

    back : drop 16 (s.net_if_mac ++ (s.net_if_ip ++ behind)) ≡ target_ip
    back =
        drop-append s.net_if_mac (s.net_if_ip ++ behind) 16 10 (omega arith)
        ∙ drop-append s.net_if_ip behind 10 6 (omega arith)

-- With addresses of the right lengths, `arp_resp` sends one ARP reply to the target, as RFC 826 lays
-- it out, and changes nothing but the Ethernet statistics and the transmission buffer.
pub arp_resp-sends :
    (s : Stack) (target_ip target_mac : List ℕ)
    → IsInterface s
    → length target_ip ≡ 4
    → length target_mac ≡ 6
    → let bytes =
        frame target_mac s.net_if_mac 0x0806
          (packet 2 s.net_if_mac s.net_if_ip target_mac target_ip) in
      let s' = arp_resp s target_ip target_mac in
      s' ≡ record s {
        sent = bytes ∷ s.sent;
        ethernet_stats = count_sent (length bytes) s.ethernet_stats;
        txbuf = s'.txbuf;
      }
unfolding arp_resp
arp_resp-sends s target_ip target_mac i t m =
    ap (λ (r : Stack). record r { txbuf = (arp_resp s target_ip target_mac).txbuf })
      (ethernet_out_lem s filled target_mac 0x0806 m i.0 (unfold put16 Buf.init put in omega arith)
          (unfold put16 Buf.init put in omega arith)
        ∙ ap
            (λ c.
              let bytes = frame target_mac s.net_if_mac 0x0806 c in
              record s {
                sent = bytes ∷ s.sent;
                ethernet_stats = count_sent (length bytes) s.ethernet_stats;
              })
            (contents-answered 2 s target_ip target_mac i t m (unfold swap16 in refl)))
  where
    filled : Buf
    filled = put (put (prepared 2 s) 24 target_ip) 18 target_mac
