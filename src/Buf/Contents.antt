-- ===== src/Buf/Contents.antt =====
-- What the operations of src/buf.c do to the bytes of a packet.
use hitsz_network_lab.Common.{
  ℕ, ◌+◌, ◌-◌, ◌≤◌, ◌<◌, ◌≡◌, sym, ap, ap₂, ◌∙◌, inl, inr, ok, arith, List, ◌++◌, length, drop,
  take, replicate, length-replicate, read, write, read-append, read-drop, read-take, le→ltb, lt→leb,
  read-write_self, read-write_disjoint, Memory, Status,
}
use native.Mathlib.Nat.{add-zero}
use hitsz_network_lab.Buf.{
  Buf, max_len, add_header, remove_header, add_padding, remove_padding, contents, put,
}

-- The branch that succeeds, as an equation.
pub add_header_fits :
    (b : Buf) (n : ℕ)
    → n ≤ b.off
    → add_header b n ≡ (ok, record b { len = b.len + n; off = b.off - n })
unfolding add_header
add_header_fits b n h = rw (le→ltb b.off n h)

pub remove_header_fits :
    (b : Buf) (n : ℕ)
    → n ≤ b.len
    → remove_header b n ≡ (ok, record b { len = b.len - n; off = b.off + n })
unfolding remove_header
remove_header_fits b n h = rw (le→ltb b.len n h)

-- Removing a header of `n` bytes drops the first `n` bytes of the packet.
pub contents-remove_header :
    (b : Buf) (n : ℕ) → n ≤ b.len → contents (remove_header b n).1 ≡ drop n (contents b)
contents-remove_header b n h = rw (remove_header_fits b n h) (read-drop b.payload b.off b.len n h)

pub contents-remove_padding :
    (b : Buf) (n : ℕ) → n ≤ b.len → contents (remove_padding b n).1 ≡ take (b.len - n) (contents b)
unfolding remove_padding
contents-remove_padding b n h =
    rw (le→ltb b.len n h) (read-take b.payload b.off b.len (b.len - n) (omega arith))

-- With room for them behind the packet, and at least one byte to spare, `n` bytes of padding are
-- zeros behind the bytes of the packet.
pub contents-add_padding :
    (b : Buf) (n : ℕ)
    → b.off + b.len + n < max_len
    → contents (add_padding b n).1 ≡ contents b ++ replicate n 0
unfolding add_padding
contents-add_padding b n h = rw (lt→leb max_len (b.off + b.len + n) h) (
    read-append _ b.off b.len n
    ∙ ap₂ ◌++◌ (read-write_disjoint b.payload _ b.off b.len (replicate n 0) (inl (omega arith)))
        tail)
  where
    tail : read (write b.payload (b.off + b.len) (replicate n 0)) (b.off + b.len) n ≡ replicate n 0
    tail =
        ap (read (write b.payload (b.off + b.len) (replicate n 0)) (b.off + b.len))
          (sym (length-replicate n 0))
        ∙ read-write_self b.payload (b.off + b.len) (replicate n 0)

-- Writing a header over the first bytes of a packet leaves the bytes behind it.
pub contents-put :
    (b : Buf) (hdr : List ℕ)
    → length hdr ≤ b.len
    → contents (put b 0 hdr) ≡ hdr ++ drop (length hdr) (contents b)
unfolding put
contents-put b hdr h = rw add-zero (
    ap (read (write b.payload b.off hdr) b.off) (omega arith)
    ∙ read-append (write b.payload b.off hdr) b.off (length hdr) (b.len - length hdr)
    ∙ ap₂ ◌++◌ (read-write_self b.payload b.off hdr) (
        read-write_disjoint b.payload b.off _ _ hdr (inr (omega arith))
        ∙ read-drop b.payload b.off b.len (length hdr) h))

-- With room for it in front of the packet, a header that is added and filled in stands before the
-- bytes of the packet.
pub contents-add_header :
    (b : Buf) (hdr : List ℕ)
    → length hdr ≤ b.off
    → contents (put (add_header b (length hdr)).1 0 hdr) ≡ hdr ++ contents b
contents-add_header b hdr h =
    rw (add_header_fits b (length hdr) h) (contents-put _ hdr (omega arith) ∙ ap (◌++◌ hdr) behind)
  where
    behind :
        drop (length hdr) (read b.payload (b.off - length hdr) (b.len + length hdr)) ≡ contents b
    behind =
        sym
          (read-drop b.payload (b.off - length hdr) (b.len + length hdr) (length hdr) (omega arith))
        ∙ ap₂ (read b.payload) (omega arith) (omega arith)

-- Writing into the middle of a packet leaves the bytes in front and behind.
pub contents-put_at :
    (b : Buf) (i : ℕ) (bytes : List ℕ)
    → i + length bytes ≤ b.len
    → contents (put b i bytes)
      ≡ take i (contents b) ++ (bytes ++ drop (i + length bytes) (contents b))
unfolding put
contents-put_at b i bytes h =
    ap (read written b.off) {x = b.len} {y = i + (length bytes + rest)} (omega arith)
    ∙ read-append written b.off i (length bytes + rest)
    ∙ ap₂ ◌++◌
        (read-write_disjoint b.payload (b.off + i) b.off i bytes (inl (omega arith))
          ∙ read-take b.payload b.off b.len i (omega arith))
        (read-append written (b.off + i) (length bytes) rest
          ∙ ap₂ ◌++◌ (read-write_self b.payload (b.off + i) bytes) (
              read-write_disjoint b.payload (b.off + i) (b.off + i + length bytes) rest bytes
                (inr (omega arith))
              ∙ behind))
  where
    written : Memory
    written = write b.payload (b.off + i) bytes

    rest : ℕ
    rest = b.len - (i + length bytes)

    behind : read b.payload (b.off + i + length bytes) rest ≡ drop (i + length bytes) (contents b)
    behind =
        ap (λ a. read b.payload a rest) (omega arith)
        ∙ read-drop b.payload b.off b.len (i + length bytes) h

-- Writing the whole packet.
pub contents-put_all :
    (b : Buf) (bytes : List ℕ) → length bytes ≡ b.len → contents (put b 0 bytes) ≡ bytes
unfolding put
contents-put_all b bytes h =
    rw add-zero (
      ap (read (write b.payload b.off bytes) b.off) (sym h) ∙ read-write_self b.payload b.off bytes)

-- A write into a packet with known bytes.
pub contents-put_known :
    (b : Buf) (i n : ℕ) (bytes before : List ℕ)
    → contents b ≡ before
    → length bytes ≡ n
    → i + n ≤ b.len
    → contents (put b i bytes) ≡ take i before ++ (bytes ++ drop (i + n) before)
contents-put_known b i n bytes before e m h =
    contents-put_at b i bytes (omega arith) ∙ ap₂ (λ c k. take i c ++ (bytes ++ drop (i + k) c)) e m

-- A header that is added and not filled in yet holds what stood in front of the packet.
pub contents-added :
    (b : Buf) (n : ℕ)
    → n ≤ b.off
    → contents (add_header b n).1 ≡ read b.payload (b.off - n) n ++ contents b
contents-added b n h =
    ap (λ (q : Status × Buf). contents q.1) (add_header_fits b n h)
    ∙ ap (read b.payload (b.off - n)) {x = b.len + n} {y = n + b.len} (omega arith)
    ∙ read-append b.payload (b.off - n) n b.len
    ∙ ap (λ o. read b.payload (b.off - n) n ++ read b.payload o b.len) (omega arith)
