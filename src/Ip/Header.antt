-- ===== src/Ip/Header.antt =====
-- The header that src/ip.c puts in front of a packet, as RFC 791 lays it out.
use hitsz_network_lab.Common.{
  ℕ, ◌+◌, ◌-◌, ◌*◌, ◌/◌, ◌%◌, ◌≤◌, ◌≡◌, refl, ap, ◌∙◌, List, [], ◌∷◌, ◌++◌, length, arith, take,
  drop, read, get_or, Status, if◌then◌else◌, ◌==◌,
}
use hitsz_network_lab.Buf.{Buf, put, fetch, contents}
use hitsz_network_lab.Buf.Fields.{fetch8, put8, put16, fetch8-contents, fetch-contents}
use hitsz_network_lab.Buf.Contents.{add_header_fits, contents-put_known, contents-added}
use hitsz_network_lab.Buf
use hitsz_network_lab.Stack.{Stack}
use hitsz_network_lab.Utils.{swap16, store16, checksum16}
use hitsz_network_lab.Utils.Verify.{with_field}
use hitsz_network_lab.Ip.{hdr_len, version_4, fill_hdr}

-- The ten bytes before the checksum: version 4 with five words of header, the length, the
-- identifier, the flags with the offset, a time to live of 64, and the protocol.
abbrev pub before_checksum : ℕ → ℕ → ℕ → ℕ → List ℕ
before_checksum total_len id16 flags_fragment16 protocol =
    0x45 ∷ 0 ∷ store16 (swap16 total_len)
    ++ (store16 id16 ++ (store16 flags_fragment16 ++ (64 ∷ (protocol % 256) ∷ [])))

-- The header with its checksum.
abbrev pub ip_header : ℕ → ℕ → ℕ → ℕ → List ℕ → List ℕ → List ℕ
ip_header total_len id16 flags_fragment16 protocol src dst =
    let before = before_checksum total_len id16 flags_fragment16 protocol in
    with_field before (checksum16 (with_field before 0 (src ++ dst))) (src ++ dst)

-- `fill_hdr` with the sender's address as an argument.
fill : List ℕ → Buf → List ℕ → ℕ → ℕ → ℕ → Buf
unfolding put8
fill src hdr ip protocol id16 flags_fragment16 =
    let versioned = put8 hdr 0 (version_4 * 16 + fetch8 hdr 0 % 16) in
    let measured = put8 versioned 0 (fetch8 versioned 0 / 16 * 16 + hdr_len / 4) in
    let sized = put16 (put8 measured 1 0) 2 (swap16 hdr.len) in
    let identified = put16 (put16 sized 4 id16) 6 flags_fragment16 in
    let typed = put8 (put8 identified 8 64) 9 (protocol % 256) in
    let addressed = put (put typed 12 src) 16 ip in
    let zeroed = put16 addressed 10 0 in put16 zeroed 10 (checksum16 (fetch zeroed 0 hdr_len))

fill_hdr-eq :
    (s : Stack) (hdr : Buf) (ip : List ℕ) (protocol id16 flags_fragment16 : ℕ)
    → fill_hdr s hdr ip protocol id16 flags_fragment16
      ≡ fill s.net_if_ip hdr ip protocol id16 flags_fragment16
unfolding fill_hdr fill
fill_hdr-eq s hdr ip protocol id16 flags_fragment16 = refl

-- Twenty bytes and what follows.
abbrev twenty : (ℕ → ℕ) → List ℕ → List ℕ
twenty x rest =
    x 0
    ∷ x 1
    ∷ x 2
    ∷ x 3
    ∷ x 4
    ∷ x 5
    ∷ x 6
    ∷ x 7
    ∷ x 8
    ∷ x 9
    ∷ x 10
    ∷ x 11
    ∷ x 12
    ∷ x 13
    ∷ x 14
    ∷ x 15
    ∷ x 16
    ∷ x 17
    ∷ x 18
    ∷ x 19
    ∷ rest

first_byte : (x : ℕ) → (4 * 16 + x % 16) / 16 * 16 + 20 / 4 ≡ 0x45
first_byte x = omega arith

-- The fields in front of the checksum and behind it, once they are filled in.
module _ (hdr : Buf) (x : ℕ → ℕ) (rest : List ℕ)
    (a b c d e f g h protocol id16 flags_fragment16 : ℕ) (known : contents hdr ≡ twenty x rest)
    (long : 20 ≤ hdr.len) where
  abbrev src : List ℕ
  src = a ∷ b ∷ c ∷ d ∷ []

  abbrev dst : List ℕ
  dst = e ∷ f ∷ g ∷ h ∷ []

  abbrev versioned : Buf
  versioned = put8 hdr 0 (4 * 16 + fetch8 hdr 0 % 16)

  abbrev measured : Buf
  measured = put8 versioned 0 (fetch8 versioned 0 / 16 * 16 + 20 / 4)

  contents-versioned :
      contents versioned ≡ twenty (λ i. if i == 0 then 4 * 16 + fetch8 hdr 0 % 16 else x i) rest
  unfolding put8
  contents-versioned =
      contents-put_known hdr 0 1 ((4 * 16 + fetch8 hdr 0 % 16) ∷ []) (twenty x rest) known refl
        (omega (arith, long))

  contents-measured : contents measured ≡ twenty (λ i. if i == 0 then 0x45 else x i) rest
  unfolding put8 put
  contents-measured =
      contents-put_known versioned 0 1 ((fetch8 versioned 0 / 16 * 16 + 20 / 4) ∷ []) _
        contents-versioned refl (omega (arith, long))
      ∙ ap (λ n. twenty (λ i. if i == 0 then n else x i) rest)
          (ap (λ n. n / 16 * 16 + 20 / 4)
              (fetch8-contents versioned 0 (omega (arith, long))
                ∙ ap (λ l. get_or l 0 0) contents-versioned)
            ∙ first_byte (fetch8 hdr 0))

  abbrev typed : Buf
  typed =
      put8
        (put8
          (put16 (put16 (put16 (put8 measured 1 0) 2 (swap16 hdr.len)) 4 id16) 6 flags_fragment16) 8
          64)
        9 (protocol % 256)

  abbrev zeroed : Buf
  zeroed = put16 (put (put typed 12 src) 16 dst) 10 0

  contents-typed :
      contents typed
      ≡ before_checksum hdr.len id16 flags_fragment16 protocol ++ drop 10 (twenty x rest)
  unfolding put8 put16 put
  contents-typed =
      contents-put_known _ 9 1 _ _
        (contents-put_known _ 8 1 _ _
          (contents-put_known _ 6 2 _ _
            (contents-put_known _ 4 2 _ _
              (contents-put_known _ 2 2 _ _
                (contents-put_known _ 1 1 _ _ contents-measured refl (omega (arith, long))) refl
                (omega (arith, long)))
              refl (omega (arith, long)))
            refl (omega (arith, long)))
          refl (omega (arith, long)))
        refl (omega (arith, long))

  contents-zeroed :
      contents zeroed
      ≡ with_field (before_checksum hdr.len id16 flags_fragment16 protocol) 0 (src ++ dst) ++ rest
  unfolding put8 put16 put
  contents-zeroed =
      contents-put_known _ 10 2 _ _
        (contents-put_known _ 16 4 _ _
          (contents-put_known _ 12 4 _ _ contents-typed refl (omega (arith, long))) refl
          (omega (arith, long)))
        refl (omega (arith, long))

  contents-fill :
      contents (fill src hdr dst protocol id16 flags_fragment16)
      ≡ ip_header hdr.len id16 flags_fragment16 protocol src dst ++ rest
  unfolding fill put8 put16 put
  contents-fill =
      contents-put_known zeroed 10 2 (store16 (checksum16 (fetch zeroed 0 20))) _ contents-zeroed
        refl (omega (arith, long))
      ∙ ap
          (λ n.
            with_field (before_checksum hdr.len id16 flags_fragment16 protocol) n (src ++ dst)
            ++ rest)
          (ap checksum16 (
            fetch-contents zeroed 0 20 (omega (arith, long))
            ∙ ap (λ l. take 20 (drop 0 l)) contents-zeroed))

of_length_4 :
    (xs : List ℕ)
    → length xs ≡ 4
    → xs ≡ get_or xs 0 0 ∷ get_or xs 1 0 ∷ get_or xs 2 0 ∷ get_or xs 3 0 ∷ []
of_length_4 [] l = absurd (omega arith)
of_length_4 (a ∷ []) l = absurd (omega arith)
of_length_4 (a ∷ b ∷ []) l = absurd (omega arith)
of_length_4 (a ∷ b ∷ c ∷ []) l = absurd (omega arith)
of_length_4 (a ∷ b ∷ c ∷ d ∷ []) l = refl
of_length_4 (a ∷ b ∷ c ∷ d ∷ e ∷ rest) l = absurd (omega arith)

added-known :
    (buf : Buf)
    → 20 ≤ buf.off
    → contents (Buf.add_header buf 20).1
      ≡ twenty (λ i. get_or (read buf.payload (buf.off - 20) 20) i 0) (contents buf)
unfolding read
added-known buf room = contents-added buf 20 room

-- In front of a packet with 20 bytes of headroom, and with addresses of four bytes, `fill_hdr` puts the
-- header that RFC 791 asks for, with the checksum over the header in which the field is zero.
pub contents-fill_hdr :
    (s : Stack) (buf : Buf) (ip : List ℕ) (protocol id16 flags_fragment16 : ℕ)
    → length s.net_if_ip ≡ 4
    → length ip ≡ 4
    → 20 ≤ buf.off
    → contents (fill_hdr s (Buf.add_header buf 20).1 ip protocol id16 flags_fragment16)
      ≡ ip_header (buf.len + 20) id16 flags_fragment16 protocol s.net_if_ip ip ++ contents buf
contents-fill_hdr s buf ip protocol id16 flags_fragment16 m n room =
    ap contents (fill_hdr-eq s hdr ip protocol id16 flags_fragment16)
    ∙ filled
    ∙ ap (λ k. ip_header k id16 flags_fragment16 protocol s.net_if_ip ip ++ contents buf) grown
  where
    hdr : Buf
    hdr = (Buf.add_header buf 20).1

    grown : hdr.len ≡ buf.len + 20
    grown = ap (λ (r : Status × Buf). r.1.len) (add_header_fits buf 20 room)

    filled :
        contents (fill s.net_if_ip hdr ip protocol id16 flags_fragment16)
        ≡ ip_header hdr.len id16 flags_fragment16 protocol s.net_if_ip ip ++ contents buf
    filled =
        rw (of_length_4 s.net_if_ip m, of_length_4 ip n)
          (contents-fill hdr (λ i. get_or (read buf.payload (buf.off - 20) 20) i 0) (contents buf) _
            _ _ _ _ _ _ _ protocol id16 flags_fragment16 (added-known buf room)
            (omega (arith, grown)))
