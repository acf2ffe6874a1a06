-- ===== src/Arp/Fields.antt =====
-- What `arp_in` of src/arp.c reads from an ARP packet.
use hitsz_network_lab.Common.{
  ℕ, ◌+◌, ◌≤◌, ◌≡◌, ◌⊎◌, sym, ap, ◌∙◌, List, ◌++◌, length, arith, take, drop, drop-append,
  take-append_length, drop-append_length, ◌*◌, append_assoc, length-append, length-read, true,
  bytes_Eq, get_or,
}
use hitsz_network_lab.Buf.{Buf, contents, fetch}
use hitsz_network_lab.Buf.Fields.{
  fetch8, fetch16, fetch-contents, fetch8-contents, fetch16-contents,
}
use hitsz_network_lab.Utils.{swap16, load16}
use hitsz_network_lab.Arp.{is_arp}
use hitsz_network_lab.Arp.Packets.{packet}

-- The packet in `buf` is an ARP packet, perhaps with padding behind it.
abbrev pub Carries : Buf → ℕ → List ℕ → List ℕ → List ℕ → List ℕ → List ℕ → Type 0
Carries buf opcode sender_mac sender_ip target_mac target_ip padding =
    (contents buf ≡ packet opcode sender_mac sender_ip target_mac target_ip ++ padding)
    × ((opcode ≡ 1) ⊎ (opcode ≡ 2))
    × (length sender_mac ≡ 6)
    × (length sender_ip ≡ 4)
    × (length target_mac ≡ 6)
    × (length target_ip ≡ 4)

module _ (buf : Buf) (opcode : ℕ) (sm si tm ti padding : List ℕ)
    (c : Carries buf opcode sm si tm ti padding) where
  pub carries-len : buf.len ≡ 28 + length padding
  carries-len =
      sym (length-read buf.payload buf.off buf.len)
      ∙ ap length c.0
      ∙ omega (
        arith,
        length-append (sm ++ (si ++ (tm ++ ti))) padding,
        length-append sm (si ++ (tm ++ ti)),
        length-append si (tm ++ ti),
        length-append tm ti,
        c.2,
      )

  -- A field of the fixed part, and one of the addresses.
  field16 :
      (i : ℕ)
      → i ≤ 6
      → fetch16 buf i
        ≡ load16
            (get_or (packet opcode sm si tm ti ++ padding) i 0)
            (get_or (packet opcode sm si tm ti ++ padding) (i + 1) 0)
  field16 i h =
      fetch16-contents buf i (omega (arith, carries-len))
      ∙ ap (λ l. load16 (get_or l i 0) (get_or l (i + 1) 0)) c.0

  field8 : (i : ℕ) → i ≤ 5 → fetch8 buf i ≡ get_or (packet opcode sm si tm ti ++ padding) i 0
  field8 i h = fetch8-contents buf i (omega (arith, carries-len)) ∙ ap (λ l. get_or l i 0) c.0

  pub carries-opcode : fetch16 buf 6 ≡ 256 * opcode
  carries-opcode = field16 6 (omega arith) ∙ omega arith

  pub carries-is_arp : is_arp buf ≡ true
  unfolding is_arp swap16
  carries-is_arp = ground (
    arith,
    field16 0 (omega arith),
    field16 2 (omega arith),
    field8 4 (omega arith),
    field8 5 (omega arith),
    carries-opcode,
    c.1,
  )

  abbrev addresses : List ℕ
  addresses = sm ++ (si ++ ((tm ++ ti) ++ padding))

  regroup : sm ++ (si ++ (tm ++ ti)) ++ padding ≡ addresses
  regroup =
      append_assoc sm (si ++ (tm ++ ti)) padding ∙ ap (◌++◌ sm) (append_assoc si (tm ++ ti) padding)

  pub carries-sender_mac : fetch buf 8 6 ≡ sm
  carries-sender_mac =
      fetch-contents buf 8 6 (omega (arith, carries-len))
      ∙ ap (λ l. take 6 (drop 8 l)) c.0
      ∙ ap (take 6) regroup
      ∙ take-append_length sm (si ++ ((tm ++ ti) ++ padding)) 6 (omega (arith, c.2))

  pub carries-sender_ip : fetch buf 14 4 ≡ si
  carries-sender_ip =
      fetch-contents buf 14 4 (omega (arith, carries-len))
      ∙ ap (λ l. take 4 (drop 14 l)) c.0
      ∙ ap (λ l. take 4 (drop 6 l)) regroup
      ∙ ap (take 4) (drop-append_length sm (si ++ ((tm ++ ti) ++ padding)) 6 (omega (arith, c.2)))
      ∙ take-append_length si ((tm ++ ti) ++ padding) 4 (omega (arith, c.3))

  pub carries-target_ip : fetch buf 24 4 ≡ ti
  carries-target_ip =
      fetch-contents buf 24 4 (omega (arith, carries-len))
      ∙ ap (λ l. take 4 (drop 24 l)) c.0
      ∙ ap (λ l. take 4 (drop 16 l))
          (regroup ∙ ap (λ l. sm ++ (si ++ l)) (append_assoc tm ti padding))
      ∙ ap (take 4) (
          drop-append sm (si ++ (tm ++ (ti ++ padding))) 16 10 (omega (arith, c.2))
          ∙ drop-append si (tm ++ (ti ++ padding)) 10 6 (omega (arith, c.3))
          ∙ drop-append_length tm (ti ++ padding) 6 (omega (arith, c.4)))
      ∙ take-append_length ti padding 4 (omega (arith, c.5))
