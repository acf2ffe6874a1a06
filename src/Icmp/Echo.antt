-- ===== src/Icmp/Echo.antt =====
-- The answer to an echo request in src/icmp.c.
use hitsz_network_lab.Common.{
  ℕ, ◌+◌, ◌-◌, ◌≤◌, ◌<◌, ◌≡◌, refl, sym, ap, ap₂, ◌∙◌, List, [], ◌∷◌, ◌++◌, length, arith,
  length-read, get_or, Bool, if◌then◌else◌, le→ltb, ◌==◌,
}
use hitsz_network_lab.Buf.{Buf, put, contents}
use hitsz_network_lab.Buf.Fields.{fetch8, fetch16, put8, put16, fetch8-contents, fetch16-contents}
use hitsz_network_lab.Buf.Contents.{contents-put_known, contents-put_all}
use hitsz_network_lab.Buf.Bounds.{init_room}
use hitsz_network_lab.Buf
use hitsz_network_lab.Stack.{Stack, Outcome, BufPointer, rx, tx, own, deref, done}
use hitsz_network_lab.Stack.Stats.{ProtocolStats, count_sent, count_received}
use hitsz_network_lab.Utils.{load16, store16, checksum16, swap16}
use hitsz_network_lab.Icmp.{icmp_in, icmp_resp, seal, update_ping_req}

-- An ICMP message as RFC 792 lays it out: type, code, checksum, and the rest with the identifier and
-- the sequence number in front.
abbrev pub message : ℕ → ℕ → ℕ → List ℕ → List ℕ
message type code checksum rest = type ∷ code ∷ store16 checksum ++ rest

abbrev pub sealed : ℕ → ℕ → List ℕ → List ℕ
sealed type code rest = message type code (checksum16 (message type code 0 rest)) rest

-- A pointer to another buffer than `txbuf`.
abbrev pub IsElsewhere : BufPointer → Type 0
IsElsewhere rx = Unit
IsElsewhere tx = ⊥
IsElsewhere (own b) = Unit

deref_elsewhere :
    (s : Stack) (pointer : BufPointer) (b : Buf)
    → IsElsewhere pointer
    → deref (record s { txbuf = b }) pointer ≡ deref s pointer
unfolding deref
deref_elsewhere s rx b e = refl
deref_elsewhere s tx b e = absurd e
deref_elsewhere s (own c) b e = refl

deref_stats :
    (s : Stack) (pointer : BufPointer) (n : ProtocolStats)
    → deref (record s { icmp_stats = n }) pointer ≡ deref s pointer
unfolding deref
deref_stats s rx n = refl
deref_stats s tx n = refl
deref_stats s (own c) n = refl

-- The identifier and the sequence number, as they lie in memory.
abbrev pub request : ℕ → ℕ → ℕ → ℕ → ℕ → ℕ → ℕ → List ℕ → List ℕ
request code c0 c1 i0 i1 q0 q1 bytes = 8 ∷ code ∷ c0 ∷ c1 ∷ i0 ∷ i1 ∷ q0 ∷ q1 ∷ bytes

module _ (req start : Buf) (code c0 c1 i0 i1 q0 q1 : ℕ) (bytes : List ℕ)
    (holds : contents req ≡ request code c0 c1 i0 i1 q0 q1 bytes)
    (small : (i0 < 256) × (i1 < 256) × (q0 < 256) × (q1 < 256)) (sized : start.len ≡ req.len) where
  measured : req.len ≡ length bytes + 8
  measured = sym (length-read req.payload req.off req.len) ∙ ap length holds ∙ omega arith

  abbrev rest : List ℕ
  rest = i0 ∷ i1 ∷ q0 ∷ q1 ∷ bytes

  copied-contents : contents (put start 0 (contents req)) ≡ request code c0 c1 i0 i1 q0 q1 bytes
  copied-contents =
      contents-put_all start (contents req)
        (omega (arith, length-read req.payload req.off req.len, sized))
      ∙ holds

  field :
      (i : ℕ)
      → i ≤ 6
      → fetch16 req i
        ≡ load16
            (get_or (request code c0 c1 i0 i1 q0 q1 bytes) i 0)
            (get_or (request code c0 c1 i0 i1 q0 q1 bytes) (i + 1) 0)
  field i h =
      fetch16-contents req i (omega (arith, measured))
      ∙ ap (λ l. load16 (get_or l i 0) (get_or l (i + 1) 0)) holds

  store_load : (a b : ℕ) → a < 256 → b < 256 → store16 (load16 a b) ≡ a ∷ b ∷ []
  store_load a b p q = ap₂ (λ x y. x ∷ y ∷ []) (omega arith) (omega arith)

  abbrev typed : Buf
  typed =
      put16 (put16 (put8 (put8 (put start 0 (contents req)) 0 0) 1 0) 4 (fetch16 req 4)) 6
        (fetch16 req 6)

  typed-contents : contents typed ≡ 0 ∷ 0 ∷ c0 ∷ c1 ∷ rest
  unfolding put8 put16 put
  typed-contents =
      contents-put_known _ 6 2 (store16 (fetch16 req 6)) _
        (contents-put_known _ 4 2 (store16 (fetch16 req 4)) _
          (contents-put_known _ 1 1 (0 ∷ []) _
            (contents-put_known _ 0 1 (0 ∷ []) _ copied-contents refl
              (omega (arith, measured, sized)))
            refl (omega (arith, measured, sized)))
          refl (omega (arith, measured, sized)))
        refl (omega (arith, measured, sized))
      ∙ ap₂ (λ id seq. 0 ∷ 0 ∷ c0 ∷ c1 ∷ id ++ (seq ++ bytes))
          (ap store16 (field 4 (omega arith)) ∙ store_load i0 i1 small.0 small.1)
          (ap store16 (field 6 (omega arith)) ∙ store_load q0 q1 small.2 small.3)

  seal-contents : contents (seal typed) ≡ sealed 0 0 rest
  unfolding seal put8 put16 put
  seal-contents =
      contents-put_known (put16 typed 2 0) 2 2 (store16 (checksum16 (contents (put16 typed 2 0)))) _
        zeroed refl (omega (arith, measured, sized))
      ∙ ap (λ l. message 0 0 (checksum16 l) rest) zeroed
    where
      zeroed : contents (put16 typed 2 0) ≡ message 0 0 0 rest
      zeroed =
          contents-put_known typed 2 2 (store16 0) _ typed-contents refl
            (omega (arith, measured, sized))

-- An echo request of fewer than 65662 bytes, in another buffer than `txbuf`, is answered: `icmp_in`
-- hands to `ip_out`, for the sender, an echo reply in `txbuf` with the identifier, the sequence number
-- and the data of the request and the right checksum, and has changed nothing else but the ICMP
-- statistics. Identifier and sequence number are made of bytes.
pub icmp_in-echoes :
    (ip_out : Stack → BufPointer → List ℕ → ℕ → Outcome Stack) (s : Stack) (pointer : BufPointer)
    (code c0 c1 i0 i1 q0 q1 : ℕ) (bytes src_ip : List ℕ)
    → contents (deref s pointer) ≡ request code c0 c1 i0 i1 q0 q1 bytes
    → (i0 < 256) × (i1 < 256) × (q0 < 256) × (q1 < 256)
    → (deref s pointer).len < 65662
    → IsElsewhere pointer
    → (t : Stack) × (icmp_in ip_out s pointer src_ip ≡ ip_out t tx src_ip 1)
      × (contents t.txbuf ≡ sealed 0 0 (i0 ∷ i1 ∷ q0 ∷ q1 ∷ bytes))
      × (t ≡ record s {
        txbuf = t.txbuf;
        icmp_stats = count_sent t.txbuf.len (count_received (deref s pointer).len s.icmp_stats);
      })
unfolding icmp_in icmp_resp
icmp_in-echoes ip_out s pointer code c0 c1 i0 i1 q0 q1 bytes src_ip holds small fits away = (
  answered req req,
  ap₂ branch (le→ltb req.len 8 (omega (arith, length_req))) (
        ap (λ n. n == 8)
          (fetch8-contents req 0 (omega (arith, length_req)) ∙ ap (λ l. get_or l 0 0) holds))
      ∙ ap (λ b. ip_out (answered (deref counted pointer) b) tx src_ip 1)
          (deref_elsewhere counted pointer (Buf.init s.txbuf (deref counted pointer).len).1 away)
      ∙ ap (λ b. ip_out (answered b b) tx src_ip 1)
          (deref_stats s pointer (count_received req.len s.icmp_stats)),
  seal-contents req start code c0 c1 i0 i1 q0 q1 bytes holds small started,
  refl,
)
  where
    req : Buf
    req = deref s pointer

    start : Buf
    start = (Buf.init s.txbuf req.len).1

    started : start.len ≡ req.len
    started = (init_room s.txbuf req.len fits).1

    length_req : req.len ≡ length bytes + 8
    length_req = sym (length-read req.payload req.off req.len) ∙ ap length holds ∙ omega arith

    counted : Stack
    counted = record s { icmp_stats = count_received req.len s.icmp_stats }

    answered : Buf → Buf → Stack
    answered sizes b =
        let filled = seal (
          put16
            (put16 (put8 (put8 (put (Buf.init s.txbuf sizes.len).1 0 (contents b)) 0 0) 1 0) 4
              (fetch16 b 4))
            6 (fetch16 b 6)) in
        record counted { txbuf = filled; icmp_stats = count_sent filled.len counted.icmp_stats }

    branch : Bool → Bool → Outcome Stack
    branch short request_type =
        if short
        then done s
        else if request_type
        then icmp_resp ip_out counted pointer src_ip
        else if fetch8 req 0 == 0
        then update_ping_req counted (swap16 (fetch16 req 6)) (λ entry. record entry {
          receive_time = record { tv_sec = s.now; tv_usec = s.now_usec };
          length = req.len - 8;
        })
        else done counted
