-- ===== src/Utils/Transport.antt =====
-- `transport_checksum` of src/utils.c: what it sums, and that it gives the packet back.
use hitsz_network_lab.Common.{
  ℕ, ◌+◌, ◌-◌, ◌/◌, ◌%◌, [], ◌≤◌, ◌≡◌, sym, subst, ap, ap₂, Status, ◌∷◌, ◌∙◌, List, ◌++◌, length,
  length-append, arith, write_restore, read, write,
}
use hitsz_network_lab.Buf.{Buf, add_header, remove_header, fetch, put, contents}
use hitsz_network_lab.Buf.Contents.{add_header_fits, remove_header_fits, contents-add_header}
use hitsz_network_lab.Utils.{
  swap16, store16, checksum16, peso_hdr, peso_hdr_len, transport_checksum,
}
use hitsz_network_lab.Utils.Swap.{store16-swap16}

Buf_ext : (b c : Buf) → b.len ≡ c.len → b.off ≡ c.off → b.payload ≡ c.payload → b ≡ c
Buf_ext b c p q r = λ i. record { len = p i; off = q i; payload = r i }

-- The buffer with the pseudo header added.
abbrev added : Buf → Buf
added buf = record buf { len = buf.len + peso_hdr_len; off = buf.off - peso_hdr_len }

fills :
    (buf : Buf) (hdr : List ℕ)
    → length hdr ≡ peso_hdr_len
    → peso_hdr_len ≤ buf.off
    → contents (put (added buf) 0 hdr) ≡ hdr ++ contents buf
fills buf hdr e h =
    ap (λ (r : Status × Buf). contents (put r.1 0 hdr)) (sym (add_header_fits buf peso_hdr_len h))
    ∙ subst (λ n. contents (put (add_header buf n).1 0 hdr) ≡ hdr ++ contents buf) e
        (contents-add_header buf hdr (omega arith))

removes :
    (buf : Buf) (hdr : List ℕ)
    → length hdr ≡ peso_hdr_len
    → peso_hdr_len ≤ buf.off
    → (remove_header
        (put (put (added buf) 0 hdr) 0 (fetch (added buf) 0 peso_hdr_len))
        peso_hdr_len).1
      ≡ buf
unfolding put fetch
removes buf hdr e h =
    rw
      (remove_header_fits (put (put (added buf) 0 hdr) 0 (fetch (added buf) 0 peso_hdr_len))
        peso_hdr_len (omega arith))
      (Buf_ext _ buf (omega arith) (omega arith) restored)
  where
    start : ℕ
    start = buf.off - peso_hdr_len + 0

    restored :
        write (write buf.payload start hdr) start (read buf.payload start peso_hdr_len)
        ≡ buf.payload
    restored =
        subst
          (λ n. write (write buf.payload start hdr) start (read buf.payload start n) ≡ buf.payload)
          e (write_restore buf.payload start hdr)

-- The pseudo header of RFC 768 and RFC 793, byte by byte.
abbrev pub pseudo_header : List ℕ → List ℕ → ℕ → ℕ → List ℕ
pseudo_header src_ip dst_ip protocol len =
    src_ip ++ (dst_ip ++ (0 ∷ protocol ∷ len / 256 % 256 ∷ len % 256 ∷ []))

peso_hdr_lem :
    (src_ip dst_ip : List ℕ) (protocol len : ℕ)
    → peso_hdr src_ip dst_ip protocol len ≡ pseudo_header src_ip dst_ip protocol len
peso_hdr_lem src_ip dst_ip protocol len =
    ap (λ l. src_ip ++ (dst_ip ++ 0 ∷ protocol ∷ l)) (store16-swap16 len)

-- With IPv4 addresses and room for the pseudo header in front of the packet, the result is the
-- `checksum16` of the pseudo header (the addresses, a zero, the protocol and the low 16 bits of the
-- packet's length with the high byte first) and the packet behind it, and the buffer is byte for byte
-- as it was.
pub transport_checksum_lem :
    (protocol : ℕ) (buf : Buf) (src_ip dst_ip : List ℕ)
    → length src_ip ≡ 4
    → length dst_ip ≡ 4
    → peso_hdr_len ≤ buf.off
    → transport_checksum protocol buf src_ip dst_ip
      ≡ (checksum16 (pseudo_header src_ip dst_ip protocol buf.len ++ contents buf), buf)
unfolding transport_checksum
transport_checksum_lem protocol buf src_ip dst_ip s d h =
    rw (add_header_fits buf peso_hdr_len h, back)
      (ap₂ (λ a b. (a, b)) (ap checksum16 filled)
          (removes buf (peso_hdr src_ip dst_ip protocol buf.len) size h)
        ∙ ap (λ l. (checksum16 (l ++ contents buf), buf))
            (peso_hdr_lem src_ip dst_ip protocol buf.len))
  where
    back : buf.len + peso_hdr_len - peso_hdr_len ≡ buf.len
    back = omega arith

    size : length (peso_hdr src_ip dst_ip protocol buf.len) ≡ peso_hdr_len
    size = omega (
      arith,
      length-append src_ip (dst_ip ++ 0 ∷ protocol ∷ store16 (swap16 buf.len)),
      length-append dst_ip (0 ∷ protocol ∷ store16 (swap16 buf.len)),
    )

    filled :
        contents (put (added buf) 0 (peso_hdr src_ip dst_ip protocol buf.len))
        ≡ peso_hdr src_ip dst_ip protocol buf.len ++ contents buf
    filled = fills buf (peso_hdr src_ip dst_ip protocol buf.len) size h
