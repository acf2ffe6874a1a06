-- ===== src/Ip/Reassembly/Tiling.antt =====
-- `ip_reassemble_is_complete` and `ip_reassemble_merge_fragments` of src/ip.c: fragments that tile a
-- datagram, and the memory that the merge writes.
use hitsz_network_lab.Common.{
  ℕ, ◌+◌, ◌≤◌, ◌<◌, ◌≡◌, refl, ap, ap₂, ◌∙◌, inl, true, List, [], ◌∷◌, ◌++◌, length, length-append,
  arith, Memory, read, write, read-append, read-write_self, read-write_disjoint,
}
use hitsz_network_lab.Stack.Tables.{IpFragment}
use hitsz_network_lab.Ip.Reassembly.{u16, is_contiguous, merge_from}

-- The fragments lie end to end from `start` to `end`, and each holds `len` bytes.
abbrev pub Tiles : ℕ → ℕ → List IpFragment → Type 0
Tiles start end [] = start ≡ end
Tiles start end (f ∷ rest) =
    (f.offset ≡ start) × (length f.bytes ≡ f.len) × Tiles (start + f.len) end rest

-- The bytes of the fragments, one behind the other.
unfoldable pub joined : List IpFragment → List ℕ
joined [] = []
joined (f ∷ rest) = f.bytes ++ joined rest

Tiles-le : (start end : ℕ) (fs : List IpFragment) → Tiles start end fs → start ≤ end
Tiles-le start end [] t = omega arith
Tiles-le start end (f ∷ rest) t = omega (arith, Tiles-le (start + f.len) end rest t.2)

pub length-joined :
    (start end : ℕ) (fs : List IpFragment) → Tiles start end fs → start + length (joined fs) ≡ end
unfolding joined
length-joined start end [] t = omega arith
length-joined start end (f ∷ rest) t =
    omega (arith, length-append f.bytes (joined rest), length-joined (start + f.len) end rest t.2)

pub is_contiguous-Tiles :
    (start end : ℕ) (fs : List IpFragment)
    → Tiles start end fs
    → end < 65536
    → is_contiguous end start fs ≡ true
unfolding is_contiguous
is_contiguous-Tiles start end [] t h = ground arith
is_contiguous-Tiles start end (f ∷ rest) t h = ground (
  arith,
  no_wrap,
  Tiles-le (start + f.len) end rest t.2,
  is_contiguous-Tiles (start + f.len) end rest t.2 h,
  ap (λ n. is_contiguous end n rest) no_wrap,
)
  where
    no_wrap : u16 (start + f.len) ≡ start + f.len
    no_wrap = omega (arith, Tiles-le (start + f.len) end rest t.2)

u16_no_wrap :
    (start end : ℕ) (f : IpFragment) (rest : List IpFragment)
    → Tiles start end (f ∷ rest)
    → end < 65536
    → u16 (start + f.len) ≡ start + f.len
u16_no_wrap start end f rest t h = omega (arith, Tiles-le (start + f.len) end rest t.2)

-- The merge writes nothing in front of the place where it starts.
merge_from_below :
    (memory : Memory) (output start end a n : ℕ) (fs : List IpFragment)
    → Tiles start end fs
    → end < 65536
    → a + n ≤ output + start
    → read (merge_from memory output start fs).0 a n ≡ read memory a n
unfolding merge_from
merge_from_below memory output start end a n [] t h b = refl
merge_from_below memory output start end a n (f ∷ rest) t h b =
    ap (λ o. read (merge_from (write memory (output + start) f.bytes) output o rest).0 a n)
      (u16_no_wrap start end f rest t h)
    ∙ merge_from_below (write memory (output + start) f.bytes) output (start + f.len) end a n rest
        t.2 h (omega arith)
    ∙ read-write_disjoint memory (output + start) a n f.bytes (inl b)

-- The memory and the place that the next round of the merge starts with.
abbrev copied : Memory → ℕ → ℕ → IpFragment → Memory
copied memory output start f = write memory (output + start) f.bytes

abbrev Merges : Memory → ℕ → ℕ → ℕ → List IpFragment → Type 0
Merges memory output start end fs =
    (read (merge_from memory output start fs).0 (output + start) (length (joined fs)) ≡ joined fs)
    × ((merge_from memory output start fs).1 ≡ end)

merge_step :
    (memory : Memory) (output start end : ℕ) (f : IpFragment) (rest : List IpFragment)
    → Tiles start end (f ∷ rest)
    → end < 65536
    → Merges (copied memory output start f) output (start + f.len) end rest
    → Merges memory output start end (f ∷ rest)
unfolding merge_from joined read
merge_step memory output start end f rest t h behind = (
  ap₂ (λ o n. read (merge_from written output o rest).0 (output + start) n) wraps
        (length-append f.bytes (joined rest))
      ∙ read-append _ (output + start) (length f.bytes) (length (joined rest))
      ∙ ap₂ ◌++◌ first (
          ap (λ a. read (merge_from written output next rest).0 a (length (joined rest)))
            (omega arith)
          ∙ behind.0),
  ap (λ o. (merge_from written output o rest).1) wraps ∙ behind.1,
)
  where
    written : Memory
    written = copied memory output start f

    next : ℕ
    next = start + f.len

    wraps : u16 (start + f.len) ≡ next
    wraps = u16_no_wrap start end f rest t h

    first : read (merge_from written output next rest).0 (output + start) (length f.bytes) ≡ f.bytes
    first =
        merge_from_below written output next end (output + start) (length f.bytes) rest t.2 h
          (omega arith)
        ∙ read-write_self memory (output + start) f.bytes

-- Merging fragments that lie end to end up to `end`, less than 65536, writes their bytes one behind
-- the other, and returns `end`.
pub merge_from_lem :
    (memory : Memory) (output start end : ℕ) (fs : List IpFragment)
    → Tiles start end fs
    → end < 65536
    → (read (merge_from memory output start fs).0 (output + start) (length (joined fs)) ≡ joined fs)
      × ((merge_from memory output start fs).1 ≡ end)
unfolding merge_from joined read
merge_from_lem memory output start end [] t h = (refl, t)
merge_from_lem memory output start end (f ∷ rest) t h =
    merge_step memory output start end f rest t h
      (merge_from_lem (copied memory output start f) output (start + f.len) end rest t.2 h)
