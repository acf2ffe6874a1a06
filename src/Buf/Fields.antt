-- ===== src/Buf/Fields.antt =====
-- The fields of the packed header structs that the program lays over the bytes of a `buf_t`.
use mathlib.Core.Path.{fun_ext}
use hitsz_network_lab.Common.{
  ℕ, ◌+◌, ◌-◌, ◌*◌, ◌/◌, ◌%◌, ◌≤◌, ◌<◌, ◌≡◌, ap, ◌∙◌, List, [], ◌∷◌, ◌++◌, length, arith, Memory,
  write, get_or, get_or-append, get_or_outside, get_or-read, read-take, read-drop, take, drop,
}
use hitsz_network_lab.Buf.{Buf, put, fetch, contents}
use hitsz_network_lab.Utils.{load16, store16}

-- A `uint8_t` and a `uint16_t`, `i` bytes behind the data pointer.
unfoldable pub fetch8 : Buf → ℕ → ℕ
fetch8 buf i = buf.payload (buf.off + i)

unfoldable pub fetch16 : Buf → ℕ → ℕ
fetch16 buf i = load16 (buf.payload (buf.off + i)) (buf.payload (buf.off + i + 1))

unfoldable pub put8 : Buf → ℕ → ℕ → Buf
unfolding put
put8 buf i x = put buf i (x ∷ [])

unfoldable pub put16 : Buf → ℕ → ℕ → Buf
unfolding put
put16 buf i x = put buf i (store16 x)

-- A `uint32_t`, low byte first.
abbrev pub store32 : ℕ → List ℕ
store32 x = (x % 256) ∷ (x / 256 % 256) ∷ (x / 65536 % 256) ∷ (x / 16777216 % 256) ∷ []

unfoldable pub fetch32 : Buf → ℕ → ℕ
unfolding fetch16
fetch32 buf i = fetch16 buf i + 65536 * fetch16 buf (i + 2)

unfoldable pub put32 : Buf → ℕ → ℕ → Buf
unfolding put
put32 buf i x = put buf i (store32 x)

write_append :
    (m : Memory) (a : ℕ) (xs ys : List ℕ)
    → write (write m a xs) (a + length xs) ys ≡ write m a (xs ++ ys)
unfolding write
write_append m a xs ys = fun_ext λ i. ground (
  arith,
  get_or-append xs ys (i - a) (m i),
  get_or_outside xs (i - a) (m i),
  ap (λ k. get_or ys k (m i)) (behind i),
)
  where
    behind : (i : ℕ) → i - a - length xs ≡ i - (a + length xs)
    behind i = omega arith

-- Fields that are written one behind the other are one block.
pub put-append :
    (buf : Buf) (i j : ℕ) (xs ys : List ℕ)
    → j ≡ i + length xs
    → put (put buf i xs) j ys ≡ put buf i (xs ++ ys)
unfolding put
put-append buf i j xs ys h =
    ap (λ m. record buf { payload = m })
      (ap (λ a. write (write buf.payload (buf.off + i) xs) a ys) (omega arith)
        ∙ write_append buf.payload (buf.off + i) xs ys)

-- What the fields read, in terms of the bytes of the packet.
pub fetch-contents :
    (b : Buf) (i n : ℕ) → i + n ≤ b.len → fetch b i n ≡ take n (drop i (contents b))
unfolding fetch
fetch-contents b i n h =
    read-take b.payload (b.off + i) (b.len - i) n (omega arith)
    ∙ ap (take n) (read-drop b.payload b.off b.len i (omega arith))

pub fetch8-contents : (b : Buf) (i : ℕ) → i < b.len → fetch8 b i ≡ get_or (contents b) i 0
unfolding fetch8
fetch8-contents b i h = ground (arith, get_or-read b.payload b.off b.len i 0)

pub fetch16-contents :
    (b : Buf) (i : ℕ)
    → i + 1 < b.len
    → fetch16 b i ≡ load16 (get_or (contents b) i 0) (get_or (contents b) (i + 1) 0)
unfolding fetch16
fetch16-contents b i h = ground (
  arith,
  get_or-read b.payload b.off b.len i 0,
  get_or-read b.payload b.off b.len (i + 1) 0,
  ap b.payload shift,
)
  where
    shift : b.off + (i + 1) ≡ b.off + i + 1
    shift = omega arith
