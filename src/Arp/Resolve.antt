-- ===== src/Arp/Resolve.antt =====
-- Address resolution in src/arp.c, from the packet that `arp_out` is given to the frame that leaves
-- once the answer is there.
use hitsz_network_lab.Common.{
  ℕ, ◌+◌, ◌-◌, ◌≤◌, ◌<◌, ◌≡◌, refl, sym, ap, ap₂, ◌∙◌, List, ◌∷◌, length, arith, replicate, none,
  some, Option-cases, inl, inr, Bool, true, false, ok, bytes_Eq, if◌then◌else◌, le→ltb, ◌==◌, ◌&&◌,
  ◌||◌, leb, bytes_eq,
}
use hitsz_network_lab.Buf.{Buf, put, contents, fetch}
use hitsz_network_lab.Buf.Fields.{fetch16}
use hitsz_network_lab.Buf.Copy.{IsAnchored, copy_fits, contents-copy}
use hitsz_network_lab.Buf
use hitsz_network_lab.Map.{Map, value_at}
use hitsz_network_lab.Map
use hitsz_network_lab.Map.Invariant.{IsValid}
use hitsz_network_lab.Map.Lifetime.{lookup-set_later}
use hitsz_network_lab.Stack.{Stack}
use hitsz_network_lab.Stack.Stats.{count_sent}
use hitsz_network_lab.Utils.{swap16}
use hitsz_network_lab.Ethernet.{ether_broadcast_mac}
use hitsz_network_lab.Ethernet.Frame.{frame, ethernet_out_lem}
use hitsz_network_lab.Arp.{arp_req, arp_in, arp_out, arp_resp, flush}
use hitsz_network_lab.Arp.Packets.{packet, IsInterface, arp_req-sends}
use hitsz_network_lab.Arp.Fields.{
  Carries, carries-len, carries-opcode, carries-is_arp, carries-sender_mac, carries-sender_ip,
  carries-target_ip,
}

-- A packet that waits is sent, and the frame that carries it is the newest one.
flush-some :
    (s : Stack) (ip mac : List ℕ) (miss : Stack) (waiting : Buf)
    → Map.lookup s.now s.arp_buf ip ≡ some waiting
    → length mac ≡ 6
    → length s.net_if_mac ≡ 6
    → 14 ≤ waiting.off
    → waiting.off + 46 < Buf.max_len
    → (flush s ip mac miss).sent ≡ frame mac s.net_if_mac 0x0800 (contents waiting) ∷ s.sent
unfolding flush Map.lookup
flush-some s ip mac miss waiting there m n head room =
    elim (Option-cases (Map.get s.now s.arp_buf ip)) [
      | inl absent ↦ cc
      | inr (p, hit) ↦
          rw (flush, hit, at_slot p hit)
            (ap (λ (r : Stack). r.sent) (ethernet_out_lem s waiting mac 0x0800 m n head room))
    ]
  where
    at_slot :
        (p : ℕ) → Map.get s.now s.arp_buf ip ≡ some p → value_at s.arp_buf.slots p ≡ some waiting
    at_slot p hit = ground (arith, hit, there)

flush-none :
    (s : Stack) (ip mac : List ℕ) (miss : Stack)
    → Map.lookup s.now s.arp_buf ip ≡ none
    → flush s ip mac miss ≡ miss
unfolding flush Map.lookup
flush-none s ip mac miss absent = elim (Option-cases (Map.get s.now s.arp_buf ip)) [
  | inl free ↦ rw (flush, free) refl
  | inr (p, hit) ↦ rw (flush, hit, at_slot p hit) refl
]
  where
    at_slot : (p : ℕ) → Map.get s.now s.arp_buf ip ≡ some p → value_at s.arp_buf.slots p ≡ none
    at_slot p hit = ground (arith, hit, absent)

-- What `arp_in` does with an ARP packet.
abbrev pub learned : Stack → List ℕ → List ℕ → Stack
learned s ip mac = record s { arp_table = (Map.set s.now s.arp_table ip mac).1 }

arp_in-Carries :
    (s : Stack) (buf : Buf) (opcode : ℕ) (sm si tm ti padding src_mac : List ℕ)
    → Carries buf opcode sm si tm ti padding
    → arp_in s buf src_mac
      ≡ flush (learned s si sm) si sm (
          if opcode == 1 && bytes_eq ti s.net_if_ip
          then arp_resp (learned s si sm) si sm
          else learned s si sm)
unfolding arp_in
arp_in-Carries s buf opcode sm si tm ti padding src_mac c =
    ap₂ (λ short valid. branch short valid (fetch buf 8 6) (fetch buf 14 4) wanted)
      (le→ltb buf.len 28 (omega (arith, carries-len buf opcode sm si tm ti padding c)))
      (carries-is_arp buf opcode sm si tm ti padding c)
    ∙ ap₂ (λ mac ip. branch false true mac ip wanted)
        (carries-sender_mac buf opcode sm si tm ti padding c)
        (carries-sender_ip buf opcode sm si tm ti padding c)
    ∙ ap₂ (λ request target. branch false true sm si (request && bytes_eq target s.net_if_ip)) asked
        (carries-target_ip buf opcode sm si tm ti padding c)
  where
    branch : Bool → Bool → List ℕ → List ℕ → Bool → Stack
    branch short valid mac ip answer =
        if short
        then s
        else if valid
        then flush (learned s ip mac) ip mac
            (if answer then arp_resp (learned s ip mac) ip mac else learned s ip mac)
        else s

    wanted : Bool
    wanted = fetch16 buf 6 == swap16 1 && bytes_eq (fetch buf 24 4) s.net_if_ip

    asked : (fetch16 buf 6 == swap16 1) ≡ (opcode == 1)
    asked = unfold swap16 in ground (arith, carries-opcode buf opcode sm si tm ti padding c, c.1)

-- The stack at another time.
abbrev pub at : ℕ → Stack → Stack
at later s = record s { now = later }

-- `arp_buf` as `arp_init` sets it up, and some time later.
abbrev pub IsArpBuf : ℕ → Map (List ℕ) Buf → Type 0
IsArpBuf now m = IsValid now m × (m.timeout ≡ 1) × (m.value_constructor ≡ Buf.copy)

-- A packet for `ip` finds neither the address known nor another packet that waits.
abbrev pub IsUnresolved : Stack → List ℕ → Type 0
IsUnresolved s ip =
    (Map.lookup s.now s.arp_table ip ≡ none) × (Map.lookup s.now s.arp_buf ip ≡ none)

abbrev waiting : Stack → Buf → List ℕ → Stack
waiting s buf ip = record s { arp_buf = (Map.set s.now s.arp_buf ip buf).1 }

abbrev pub request_frame : Stack → List ℕ → List ℕ
request_frame s ip =
    frame ether_broadcast_mac s.net_if_mac 0x0806
      (packet 1 s.net_if_mac s.net_if_ip (replicate 6 0) ip)

arp_out-unresolved :
    (s : Stack) (buf : Buf) (ip : List ℕ)
    → IsUnresolved s ip
    → arp_out s buf ip ≡ (arp_req (waiting s buf ip) ip, buf)
unfolding arp_out
arp_out-unresolved s buf ip u = rw (arp_out, u.0, u.1) refl

-- The stack once the request is sent.
abbrev requested : Stack → Buf → List ℕ → Stack
requested s buf ip = record (waiting s buf ip) {
  sent = request_frame s ip ∷ s.sent;
  ethernet_stats = count_sent (length (request_frame s ip)) s.ethernet_stats;
  txbuf = (arp_req (waiting s buf ip) ip).txbuf;
}

arp_out-requested :
    (s : Stack) (buf : Buf) (ip : List ℕ)
    → IsInterface s
    → length ip ≡ 4
    → IsUnresolved s ip
    → (arp_out s buf ip).0 ≡ requested s buf ip
arp_out-requested s buf ip i four u =
    ap (λ (r : Stack × Buf). r.0) (arp_out-unresolved s buf ip u)
    ∙ arp_req-sends (waiting s buf ip) ip i four

-- The buffer that waits in `arp_buf`.
abbrev stored : Buf → Buf
stored buf = record { len = buf.len; off = 65662 - buf.len; payload = buf.payload }

stored-lookup :
    (s : Stack) (buf : Buf) (ip : List ℕ) (later : ℕ)
    → 0 < s.now
    → s.now ≤ later
    → later ≤ s.now + 1
    → buf.len < 65662
    → IsArpBuf s.now s.arp_buf
    → (Map.set s.now s.arp_buf ip buf).0 ≡ ok
    → Map.lookup later (Map.set s.now s.arp_buf ip buf).1 ip ≡ some (stored buf)
stored-lookup s buf ip later pos le soon fits a room =
    lookup-set_later s.now later s.arp_buf ip buf (stored buf) pos le
      (λ d. rw a.2 (copy_fits d buf fits)) a.0 room
    ∙ ap (λ b. if b then some (stored buf) else none) lives
  where
    lives : (s.arp_buf.timeout == 0 || leb later (s.now + s.arp_buf.timeout)) ≡ true
    lives = rw a.1 (ground arith)

-- A packet that `arp_out` is given for an address that is not known, while no other packet waits for
-- it, sends an ARP request and waits; an ARP packet that comes from the address up to a second later
-- sends it, with the same bytes, to the hardware address that the ARP packet carries. The interface
-- and the ARP packet have addresses of the right lengths, the packet is not empty, ends in the middle
-- of its payload array and has 14 bytes of headroom, and `arp_buf`, set up as by `arp_init`, takes it.
pub arp_resolves :
    (s : Stack) (buf reply : Buf) (later opcode : ℕ)
    (ip mac target_mac target_ip padding src_mac : List ℕ)
    → IsInterface s
    → IsUnresolved s ip
    → IsArpBuf s.now s.arp_buf
    → (Map.set s.now s.arp_buf ip buf).0 ≡ ok
    → 0 < s.now
    → s.now ≤ later
    → later ≤ s.now + 1
    → IsAnchored buf
    → 14 ≤ buf.off
    → 0 < buf.len
    → Carries reply opcode mac ip target_mac target_ip padding
    → let requesting = (arp_out s buf ip).0 in
      (requesting.sent ≡ request_frame s ip ∷ s.sent)
      × ((arp_in (at later requesting) reply src_mac).sent
          ≡ frame mac s.net_if_mac 0x0800 (contents buf) ∷ request_frame s ip ∷ s.sent)
arp_resolves s buf reply later opcode ip mac target_mac target_ip padding src_mac i u a room pos le
      soon anchored head some_bytes c =
    (
      ap (λ (r : Stack). r.sent) first,
      ap (λ r. (arp_in (at later r) reply src_mac).sent) first
          ∙ ap (λ (r : Stack). r.sent)
              (arp_in-Carries answered reply opcode mac ip target_mac target_ip padding src_mac c)
          ∙ flush-some (learned answered ip mac) ip mac _ (stored buf)
              (stored-lookup s buf ip later pos le soon (omega arith) a room) c.2 i.0 (omega arith)
              (omega arith)
          ∙ ap (λ bytes. frame mac s.net_if_mac 0x0800 bytes ∷ request_frame s ip ∷ s.sent)
              (ap contents (sym (copy_fits buf buf (omega arith)))
                ∙ contents-copy buf buf (omega arith) anchored),
    )
  where
    first : (arp_out s buf ip).0 ≡ requested s buf ip
    first = arp_out-requested s buf ip i c.3 u

    answered : Stack
    answered = at later (requested s buf ip)
