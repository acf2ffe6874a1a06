-- ===== src/Ip/Datagram.antt =====
-- A whole datagram without options as RFC 791 lays it out, and what `ip_in` reads of it.
use Prim.Native.Nat.{bit_and}
use hitsz_network_lab.Ip.Reassembly.{u16}
use hitsz_network_lab.Common.{
  ◌^◌, length-append, take-append, take-of_length_le, Bool-cases, inl, inr, ℕ, ◌+◌, ◌-◌, ◌*◌, ◌≤◌,
  ◌<◌, ◌≡◌, refl, sym, ap, ◌∙◌, Bool, true, ◌∷◌, [], false, not, List, ◌++◌, length, arith, take,
  drop, get_or, if◌then◌else◌, ltb, ◌==◌, append_assoc, take-append_length, drop-append_length,
  length-read,
}
use hitsz_network_lab.Buf.{Buf, put, fetch, contents}
use hitsz_network_lab.Buf.Fields.{
  fetch8, fetch16, put16, fetch8-contents, fetch16-contents, fetch-contents,
}
use hitsz_network_lab.Buf.Contents.{
  contents-put_known, contents-remove_header, contents-remove_padding,
}
use hitsz_network_lab.Buf
use hitsz_network_lab.Utils.{swap16, store16, load16, checksum16}
use hitsz_network_lab.Utils.Words.{checksum16-lt, load_store_swap}
use hitsz_network_lab.Utils.Verify.{with_field}
use hitsz_network_lab.Ip.Receive.{header}

-- The ten bytes before the checksum in the header of a whole datagram without options: the type of
-- service, the length, the identifier, whether it may be fragmented, the time to live, the protocol.
abbrev pub whole_before : ℕ → ℕ → ℕ → Bool → ℕ → ℕ → List ℕ
whole_before tos total_len id16 df ttl protocol =
    0x45 ∷ tos ∷ store16 (swap16 total_len)
    ++ (store16 id16 ++ ((if df then 0x40 else 0) ∷ 0 ∷ ttl ∷ protocol ∷ []))

-- The header with its checksum.
abbrev pub whole_header : ℕ → ℕ → ℕ → Bool → ℕ → ℕ → List ℕ → List ℕ → List ℕ
whole_header tos total_len id16 df ttl protocol src dst =
    let before = whole_before tos total_len id16 df ttl protocol in
    with_field before (checksum16 (with_field before 0 (src ++ dst))) (src ++ dst)

-- Neither value of the flag makes it a fragment.
not_fragment :
    (df : Bool)
    → let word = swap16 (load16 (if df then 0x40 else 0) 0) in
      (not (bit_and word (2 ^ 13) == 0) ≡ false) × (u16 (bit_and word 0x1fff * 8) ≡ 0)
unfolding swap16
not_fragment true = (refl, refl)
not_fragment false = (refl, refl)

-- A buffer that holds a datagram, and what `ip_in` reads of it.
module _ (buf : Buf) (src dst payload padding : List ℕ) (tos id16 ttl protocol : ℕ) (df : Bool)
    (holds : contents buf
      ≡ whole_header tos (length payload + 20) id16 df ttl protocol src dst ++ (payload ++ padding))
    (addresses : (length src ≡ 4) × (length dst ≡ 4)) (small : length payload < 65516) where
  abbrev before : List ℕ
  before = whole_before tos (length payload + 20) id16 df ttl protocol

  abbrev checksum : ℕ
  checksum = checksum16 (with_field before 0 (src ++ dst))

  measured : buf.len ≡ 20 + (length payload + length padding)
  measured =
      sym (length-read buf.payload buf.off buf.len)
      ∙ ap length holds
      ∙ omega (
        arith,
        length-append {0} (src ++ dst) (payload ++ padding),
        length-append {0} src dst,
        length-append {0} payload padding,
      )

  zeroed-contents :
      contents (put16 buf 10 0) ≡ with_field before 0 (src ++ dst) ++ (payload ++ padding)
  unfolding put16
  zeroed-contents = contents-put_known buf 10 2 (store16 0) _ holds refl (omega (arith, measured))

  abbrev pub restored : Buf
  restored = put16 (put16 buf 10 0) 10 checksum

  restored-contents :
      contents restored ≡ with_field before checksum (src ++ dst) ++ (payload ++ padding)
  unfolding put16 put
  restored-contents =
      contents-put_known (put16 buf 10 0) 10 2 (store16 checksum) _ zeroed-contents refl
        (omega (arith, measured))

  restored-len : restored.len ≡ 20 + (length payload + length padding)
  unfolding put16 put
  restored-len = measured

  pub backup : fetch16 buf 10 ≡ checksum
  backup =
      fetch16-contents buf 10 (omega (arith, measured))
      ∙ ap (λ l. load16 (get_or l 10 0) (get_or l 11 0)) holds
      ∙ omega (arith, checksum16-lt (with_field before 0 (src ++ dst)))

  zeroed_header : fetch (put16 buf 10 0) 0 20 ≡ with_field before 0 (src ++ dst)
  unfolding put16 put
  zeroed_header =
      fetch-contents (put16 buf 10 0) 0 20 (omega (arith, measured))
      ∙ ap (take 20) zeroed-contents
      ∙ take-append_length (with_field before 0 (src ++ dst)) (payload ++ padding) 20
          (omega (arith, length-append {0} src dst))

  header-checksum : checksum16 (fetch (put16 buf 10 0) 0 20) ≡ checksum
  header-checksum = ap checksum16 zeroed_header

  version_byte : fetch8 buf 0 ≡ 0x45
  version_byte = fetch8-contents buf 0 (omega (arith, measured)) ∙ ap (λ l. get_or l 0 0) holds

  total : swap16 (fetch16 buf 2) ≡ length payload + 20
  total =
      ap swap16 (
        fetch16-contents buf 2 (omega (arith, measured))
        ∙ ap (λ l. load16 (get_or l 2 0) (get_or l 3 0)) holds)
      ∙ load_store_swap (length payload + 20) (omega arith)

  source : fetch restored 12 4 ≡ src
  source =
      fetch-contents restored 12 4 (omega (arith, restored-len))
      ∙ ap (λ l. take 4 (drop 12 l)) restored-contents
      ∙ ap (take 4) (append_assoc src dst (payload ++ padding))
      ∙ take-append_length src (dst ++ (payload ++ padding)) 4 (sym addresses.0)

  pub destination : fetch restored 16 4 ≡ dst
  destination =
      fetch-contents restored 16 4 (omega (arith, restored-len))
      ∙ ap (λ l. take 4 (drop 16 l)) restored-contents
      ∙ ap (λ l. take 4 (drop 4 l)) (append_assoc src dst (payload ++ padding))
      ∙ ap (take 4) (drop-append_length src (dst ++ (payload ++ padding)) 4 (sym addresses.0))
      ∙ take-append_length dst (payload ++ padding) 4 (sym addresses.1)

  field :
      (i : ℕ)
      → i ≤ 10
      → fetch8 restored i
        ≡ get_or (with_field before checksum (src ++ dst) ++ (payload ++ padding)) i 0
  field i h =
      fetch8-contents restored i (omega (arith, restored-len))
      ∙ ap (λ l. get_or l i 0) restored-contents

  word :
      (i : ℕ)
      → i ≤ 10
      → fetch16 restored i ≡ (
          let l = with_field before checksum (src ++ dst) ++ (payload ++ padding) in
          load16 (get_or l i 0) (get_or l (i + 1) 0))
  word i h =
      fetch16-contents restored i (omega (arith, restored-len))
      ∙ ap (λ l. load16 (get_or l i 0) (get_or l (i + 1) 0)) restored-contents

  -- The fields that decide what happens.
  pub read_header :
      let hdr = header restored in
      (hdr.protocol ≡ protocol)
      × (hdr.src_ip ≡ src)
      × (hdr.total_len ≡ length payload + 20)
      × (hdr.mf ≡ false)
      × (hdr.frag_offset ≡ 0)
  unfolding header swap16
  read_header = (
    field 9 (omega arith) ∙ omega arith,
    source,
    ap swap16 (word 2 (omega arith)) ∙ load_store_swap (length payload + 20) (omega arith),
    ap (λ w. not (bit_and (swap16 w) (2 ^ 13) == 0)) (word 6 (omega arith)) ∙ (not_fragment df).0,
    ap (λ w. u16 (bit_and (swap16 w) 0x1fff * 8)) (word 6 (omega arith)) ∙ (not_fragment df).1,
  )

  -- The buffer without what follows the datagram, and without the header.
  abbrev pub trimmed : Buf
  trimmed =
      if ltb (length payload + 20) restored.len
      then (Buf.remove_padding restored (restored.len - (length payload + 20))).1
      else restored

  abbrev datagram : List ℕ
  datagram = with_field before checksum (src ++ dst) ++ payload

  taken : take (length payload + 20) (contents restored) ≡ datagram
  taken =
      ap (take (length payload + 20)) restored-contents
      ∙ take-append (with_field before checksum (src ++ dst)) (payload ++ padding)
          (length payload + 20) (length payload) (omega (arith, length-append {0} src dst))
      ∙ ap (◌++◌ (with_field before checksum (src ++ dst)))
          (take-append_length payload padding (length payload) refl)

  trimmed-contents : contents trimmed ≡ datagram
  trimmed-contents = elim (Bool-cases (ltb (length payload + 20) restored.len)) [
    | inl longer ↦ rw longer (
        contents-remove_padding restored (restored.len - (length payload + 20)) (omega arith)
        ∙ ap (λ n. take n (contents restored)) (ground arith)
        ∙ taken)
    | inr same ↦ rw same (
        sym (
          take-of_length_le (length payload + 20) (contents restored)
            (ground (arith, length-read restored.payload restored.off restored.len)))
        ∙ taken)
  ]

  trimmed-len : trimmed.len ≡ length payload + 20
  trimmed-len =
      sym (length-read trimmed.payload trimmed.off trimmed.len)
      ∙ ap length trimmed-contents
      ∙ omega (arith, length-append {0} (src ++ dst) payload, length-append {0} src dst)

  pub stripped-contents : contents (Buf.remove_header trimmed 20).1 ≡ payload
  stripped-contents =
      contents-remove_header trimmed 20 (omega (arith, trimmed-len))
      ∙ ap (drop 20) trimmed-contents
      ∙ drop-append_length (with_field before checksum (src ++ dst)) payload 20
          (omega (arith, length-append {0} src dst))

  -- All that decides in `ip_in`, before the checksum is put back and afterwards.
  pub accepted :
      (20 ≤ buf.len)
      × (fetch8 buf 0 ≡ 0x45)
      × (swap16 (fetch16 buf 2) ≤ buf.len)
      × (checksum16 (fetch (put16 buf 10 0) 0 20) ≡ fetch16 buf 10)
      × (fetch8 restored 0 ≡ 0x45)
  accepted = (
    omega (arith, measured),
    version_byte,
    omega (arith, measured, total),
    header-checksum ∙ sym backup,
    field 0 (omega arith),
  )
