-- ===== src/Ethernet/Frame.antt =====
-- The frames that `ethernet_out` of src/ethernet.c hands to the driver.
use mathlib.Core.List.{append_assoc}
use hitsz_network_lab.Common.{
  ℕ, ◌+◌, ◌-◌, ◌≤◌, ◌<◌, ◌≡◌, sym, ap, ap₂, ◌∙◌, List, ◌∷◌, ◌++◌, length, length-append, ltb,
  if◌then◌else◌, arith, replicate, length-read, inl, inr, Bool-cases, false, ltb→lt, append-nil,
}
use hitsz_network_lab.Buf.{Buf, put, contents}
use hitsz_network_lab.Buf.Fields.{put16, put-append}
use hitsz_network_lab.Buf.Contents.{contents-add_header, contents-add_padding}
use hitsz_network_lab.Buf
use hitsz_network_lab.Stack.{Stack}
use hitsz_network_lab.Stack.Stats.{count_sent}
use hitsz_network_lab.Utils.{swap16, store16}
use hitsz_network_lab.Ethernet.{ethernet_out, driver_send}

-- An Ethernet II frame: the two addresses, the type with its high byte first, and the payload,
-- filled up with zeros to 46 bytes.
abbrev pub frame : List ℕ → List ℕ → ℕ → List ℕ → List ℕ
frame dst src protocol payload =
    dst ++ (src ++ (store16 (swap16 protocol) ++ (payload ++ replicate (46 - length payload) 0)))

-- The buffer once it is long enough.
abbrev pub padded : Buf → Buf
padded buf = if ltb buf.len 46 then (Buf.add_padding buf (46 - buf.len)).1 else buf

-- What `ethernet_out` leaves in the buffer.
filled_eq :
    (s : Stack) (buf : Buf) (mac : List ℕ) (protocol : ℕ)
    → length mac ≡ 6
    → length s.net_if_mac ≡ 6
    → (ethernet_out s buf mac protocol).1
      ≡ put
          (Buf.add_header (padded buf) 14).1
          0
          (mac ++ (s.net_if_mac ++ store16 (swap16 protocol)))
unfolding ethernet_out put16
filled_eq s buf mac protocol m n =
    ap (λ b. put b 12 (store16 (swap16 protocol))) (put-append _ 0 6 mac s.net_if_mac (omega arith))
    ∙ put-append _ 0 12 (mac ++ s.net_if_mac) (store16 (swap16 protocol))
        (omega (arith, length-append mac s.net_if_mac))
    ∙ ap (put _ 0) (append_assoc mac s.net_if_mac (store16 (swap16 protocol)))

padded-off : (buf : Buf) → (padded buf).off ≡ buf.off
unfolding Buf.add_padding
padded-off buf = ground arith

-- Padding makes the payload up to 46 bytes with zeros.
contents-padded :
    (buf : Buf)
    → buf.off + 46 < Buf.max_len
    → contents (padded buf) ≡ contents buf ++ replicate (46 - length (contents buf)) 0
contents-padded buf room = elim (Bool-cases (ltb buf.len 46)) [
  | inl short ↦
      ap (λ b. contents (if b then (Buf.add_padding buf (46 - buf.len)).1 else buf)) short
      ∙ contents-add_padding buf (46 - buf.len) (omega (arith, ltb→lt buf.len 46 short))
      ∙ ap (λ n. contents buf ++ replicate (46 - n) 0)
          (sym (length-read buf.payload buf.off buf.len))
  | inr long ↦
      ap (λ b. contents (if b then (Buf.add_padding buf (46 - buf.len)).1 else buf)) long
      ∙ sym (ap (λ n. contents buf ++ replicate n 0) (enough long) ∙ append-nil (contents buf))
]
  where
    enough : ltb buf.len 46 ≡ false → 46 - length (contents buf) ≡ 0
    enough long = ground (arith, length-read buf.payload buf.off buf.len)

header : List ℕ → List ℕ → ℕ → List ℕ
header dst src protocol = dst ++ (src ++ store16 (swap16 protocol))

length-header :
    (dst src : List ℕ) (protocol : ℕ)
    → length dst ≡ 6
    → length src ≡ 6
    → length (header dst src protocol) ≡ 14
unfolding header
length-header dst src protocol d r = omega (
  arith,
  length-append dst (src ++ store16 (swap16 protocol)),
  length-append src (store16 (swap16 protocol)),
)

frame-header :
    (dst src : List ℕ) (protocol : ℕ) (payload : List ℕ)
    → header dst src protocol ++ (payload ++ replicate (46 - length payload) 0)
      ≡ frame dst src protocol payload
unfolding header
frame-header dst src protocol payload = append_assoc dst _ _ ∙ ap (◌++◌ dst) (append_assoc src _ _)

contents-filled :
    (s : Stack) (buf : Buf) (mac : List ℕ) (protocol : ℕ)
    → length mac ≡ 6
    → length s.net_if_mac ≡ 6
    → 14 ≤ buf.off
    → buf.off + 46 < Buf.max_len
    → contents (ethernet_out s buf mac protocol).1 ≡ frame mac s.net_if_mac protocol (contents buf)
unfolding header
contents-filled s buf mac protocol m n head room =
    ap contents (filled_eq s buf mac protocol m n)
    ∙ ap
        (λ k. contents (put (Buf.add_header (padded buf) k).1 0 (header mac s.net_if_mac protocol)))
        (sym (length-header mac s.net_if_mac protocol m n))
    ∙ contents-add_header (padded buf) (header mac s.net_if_mac protocol)
        (omega (arith, length-header mac s.net_if_mac protocol m n, padded-off buf))
    ∙ ap (◌++◌ (header mac s.net_if_mac protocol)) (contents-padded buf room)
    ∙ frame-header mac s.net_if_mac protocol (contents buf)

-- With addresses of six bytes, 14 bytes of headroom and room for the padding, `ethernet_out` hands one
-- frame to the driver, made of the two addresses, the type and the packet, filled up with zeros to 46
-- bytes, and counts it with its length; nothing else in the stack changes.
pub ethernet_out_lem :
    (s : Stack) (buf : Buf) (mac : List ℕ) (protocol : ℕ)
    → length mac ≡ 6
    → length s.net_if_mac ≡ 6
    → 14 ≤ buf.off
    → buf.off + 46 < Buf.max_len
    → let bytes = frame mac s.net_if_mac protocol (contents buf) in
      (ethernet_out s buf mac protocol).0 ≡ record s {
        sent = bytes ∷ s.sent;
        ethernet_stats = count_sent (length bytes) s.ethernet_stats;
      }
unfolding ethernet_out driver_send
ethernet_out_lem s buf mac protocol m n head room =
    ap₂
      (λ bytes len. record s {
        sent = bytes ∷ s.sent;
        ethernet_stats = count_sent len s.ethernet_stats;
      })
      (contents-filled s buf mac protocol m n head room)
      (sym (length-read filled.payload filled.off filled.len)
        ∙ ap length (contents-filled s buf mac protocol m n head room))
  where
    filled : Buf
    filled = (ethernet_out s buf mac protocol).1
