-- ===== src/Tcp/Input/Streams.antt =====
-- A stream of bytes that arrives at an established connection of src/tcp.c in segments that may be
-- lost, repeated or out of order.
use hitsz_network_lab.Common.{
  ℕ, zero, suc, ◌+◌, ◌≡◌, ◌≤◌, ◌<◌, ◌^◌, inl, inr, refl, sym, ap, ap₂, ◌∙◌, Bool, true, false, List,
  [], ◌∷◌, ◌++◌, ◌==◌, arith, Bool-cases, ltb, ==_iff, take, drop, length, take-of_length_le,
  append_assoc, append-nil, if◌then◌else◌,
}
use hitsz_network_lab.Stack.Tables.{TcpState, TcpConn}
use hitsz_network_lab.Utils.{u32}
use hitsz_network_lab.Tcp.{is_set, bytes_in_flight, flg_ack}
use hitsz_network_lab.Tcp.Input.{Verdict, ignore, duplicate_ack, proceed, transition}
use hitsz_network_lab.Tcp.Input.States.{after}

-- The bytes `off` to `off + len` of the stream, in a segment with ACK, and PSH if `push`.
pub record Piece : Type 0 where
  pub off : ℕ
  pub len : ℕ
  pub push : Bool

abbrev pub flags_of : Bool → ℕ
flags_of push = if push then 24 else 16

-- `tcp_in` hands the data to the handler after a `break`.
abbrev pub handed : Verdict → List ℕ → List ℕ
handed ignore bytes = []
handed duplicate_ack bytes = []
handed (proceed conn flags closes) bytes = bytes

-- The first byte of the stream has the sequence number `start`: the bytes that the handler is given,
-- and the connection in the end.
unfoldable pub receive : ℕ → ℕ → List ℕ → TcpConn → List Piece → List ℕ × TcpConn
unfolding transition
receive isn start bytes conn [] = ([], conn)
receive isn start bytes conn (p ∷ rest) =
    let verdict = transition isn conn (flags_of p.push) (u32 (start + p.off)) p.len in
    let (more, conn') = receive isn start bytes (after conn verdict) rest in
    (handed verdict (take p.len (drop p.off bytes)) ++ more, conn')

-- How far the stream reaches without a gap, from `k` on, if a piece counts only where it joins.
abbrev pub reached : ℕ → List Piece → ℕ
reached k [] = k
reached k (p ∷ rest) = reached (if p.off == k then k + p.len else k) rest

-- No piece goes beyond the stream.
abbrev pub Within : ℕ → List Piece → Type 0
Within n [] = Unit
Within n (p ∷ rest) = (p.off + p.len ≤ n) × Within n rest

take_add : (a b k : ℕ) (xs : List ℕ) → k ≡ a + b → take k xs ≡ take a xs ++ take b (drop a xs)
take_add zero b k xs h = ap (λ j. take j xs) (omega arith)
take_add (suc a) b k [] h =
    take-of_length_le k [] (omega arith) ∙ sym (take-of_length_le b [] (omega arith))
take_add (suc a) b zero (x ∷ xs) h = absurd (omega arith)
take_add (suc a) b (suc k) (x ∷ xs) h = ap (◌∷◌ x) (take_add a b k xs (omega arith))

-- A segment that joins, and one that does not.
joins :
    (isn len : ℕ) (conn : TcpConn) (push : Bool)
    → conn.state ≡ TcpState.established
    → transition isn conn (flags_of push) conn.ack len
      ≡ proceed
          (record conn { ack = u32 (conn.ack + len) })
          (if ltb 0 len then flg_ack else 0)
          false
unfolding transition bytes_in_flight is_set
joins isn len conn true e = rw (e, (==_iff conn.ack conn.ack).1 refl) refl
joins isn len conn false e = rw (e, (==_iff conn.ack conn.ack).1 refl) refl

opens :
    (isn seq len : ℕ) (conn : TcpConn) (push : Bool)
    → conn.state ≡ TcpState.syn_received
    → transition isn conn (flags_of push) seq len
      ≡ proceed (record conn { state = TcpState.established }) 0 false
unfolding transition is_set
opens isn seq len conn true e = rw e refl
opens isn seq len conn false e = rw e refl

misses :
    (isn seq len flags : ℕ) (conn : TcpConn)
    → conn.state ≡ TcpState.established
    → (seq == conn.ack) ≡ false
    → transition isn conn flags seq len ≡ duplicate_ack
unfolding transition
misses isn seq len flags conn e differ = rw (e, differ) refl

receive-from :
    (isn start k : ℕ) (bytes : List ℕ) (conn : TcpConn) (pieces : List Piece)
    → conn.state ≡ TcpState.established
    → conn.ack ≡ u32 (start + k)
    → k ≤ length bytes
    → length bytes < 2 ^ 32
    → Within (length bytes) pieces
    → (take k bytes ++ (receive isn start bytes conn pieces).0 ≡ take (reached k pieces) bytes)
      × ((receive isn start bytes conn pieces).1
          ≡ record conn { ack = u32 (start + reached k pieces) })
unfolding receive
receive-from isn start k bytes conn [] e a below small within =
    (append-nil (take k bytes), ap (λ n. record conn { ack = n }) a)
receive-from isn start k bytes conn (p ∷ rest) e a below small within =
    elim (Bool-cases (p.off == k)) [
      | inl here ↦
          let at = (==_iff p.off k).0 here in
          let next = record conn { ack = u32 (conn.ack + p.len) } in
          let (got, end) =
            receive-from isn start (k + p.len) bytes next rest e (omega arith) (omega arith) small
              within.1 in
          rw (in_sequence at, here)
            (
              ap
                    (λ i.
                      take k bytes
                      ++ (take p.len (drop i bytes) ++ (receive isn start bytes next rest).0))
                    at
                  ∙ sym (
                      append_assoc (take k bytes) (take p.len (drop k bytes))
                        (receive isn start bytes next rest).0)
                  ∙ ap (λ l. l ++ (receive isn start bytes next rest).0)
                      (sym (take_add k p.len (k + p.len) bytes refl))
                  ∙ got,
              end,
            )
      | inr elsewhere ↦
          let (got, end) = receive-from isn start k bytes conn rest e a below small within.1 in
          rw
            (
              misses isn (u32 (start + p.off)) p.len (flags_of p.push) conn e (apart elsewhere),
              elsewhere,
            )
            (got, end)
    ]
  where
    in_sequence :
        p.off ≡ k
        → transition isn conn (flags_of p.push) (u32 (start + p.off)) p.len
          ≡ proceed
              (record conn { ack = u32 (conn.ack + p.len) })
              (if ltb 0 p.len then flg_ack else 0)
              false
    in_sequence at =
        ap (λ n. transition isn conn (flags_of p.push) n p.len) (omega arith)
        ∙ joins isn p.len conn p.push e

    apart : (p.off == k) ≡ false → (u32 (start + p.off) == conn.ack) ≡ false
    apart elsewhere = ground (arith, a, within.0)

-- Segments of a stream of less than 2^32 bytes come to an established connection that waits for its
-- first byte, in any order, any of them lost or repeated, each with ACK, with or without PSH, and
-- without FIN. Then the data that the switch of `tcp_in` lets through to the handler are, one segment
-- behind the other, the beginning of the stream, each byte once: as far as the segments join, each
-- counted when it continues what is there already. The number to acknowledge is that of the next
-- byte, modulo 2^32, and nothing else of the connection has changed.
pub receive-reached :
    (isn start : ℕ) (bytes : List ℕ) (conn : TcpConn) (pieces : List Piece)
    → conn.state ≡ TcpState.established
    → conn.ack ≡ u32 start
    → length bytes < 2 ^ 32
    → Within (length bytes) pieces
    → receive isn start bytes conn pieces
      ≡ (take (reached 0 pieces) bytes, record conn { ack = u32 (start + reached 0 pieces) })
receive-reached isn start bytes conn pieces e a small within =
    let (got, end) =
      receive-from isn start 0 bytes conn pieces e (omega arith) (omega arith) small within in
    ap₂ (λ l c. (l, c)) got end

-- Data that come with the ACK of the handshake are let through to the handler, and not acknowledged:
-- when the remote side sends the segment again, the same bytes are let through once more.
pub receive-twice :
    (isn start len : ℕ) (bytes : List ℕ) (conn : TcpConn) (push : Bool)
    → conn.state ≡ TcpState.syn_received
    → conn.ack ≡ u32 start
    → let p : Piece = record { off = 0; len = len; push = push } in
      receive isn start bytes conn (p ∷ p ∷ []) ≡ (
        take len bytes ++ take len bytes,
        record conn { state = TcpState.established; ack = u32 (start + len) },
      )
unfolding receive
receive-twice isn start len bytes conn push e a =
    rw (opens isn (u32 (start + 0)) len conn push e, sequel)
      (ap₂ (λ l n. (take len bytes ++ l, record conn { state = TcpState.established; ack = n }))
        (append-nil (take len bytes)) (omega arith))
  where
    sequel :
        transition isn
          (record conn { state = TcpState.established })
          (flags_of push)
          (u32 (start + 0))
          len
        ≡ proceed
            (record conn { state = TcpState.established; ack = u32 (conn.ack + len) })
            (if ltb 0 len then flg_ack else 0)
            false
    sequel =
        ap
          (λ n. transition isn (record conn { state = TcpState.established }) (flags_of push) n len)
          (omega arith)
        ∙ joins isn len (record conn { state = TcpState.established }) push refl
