-- ===== src/Buf/Bounds.antt =====
-- The bounds of src/buf.c: no operation lets the packet leave the payload array.
use hitsz_network_lab.Common.{
  ℕ, ◌+◌, ◌≤◌, ◌<◌, ◌≡◌, ◌-◌, ◌%◌, ◌^◌, ltb, leb, if◌then◌else◌, ok, failed, arith,
}
use hitsz_network_lab.Buf.{
  Buf, max_len, init, add_header, remove_header, add_padding, remove_padding,
}

abbrev pub IsValid : Buf → Type 0
IsValid b = b.off + b.len ≤ max_len

-- Addresses of bytes, as `size_t` arithmetic leaves them: `payload` is the address of the array.
abbrev pub plus : ℕ → ℕ → ℕ
plus address n = (address + n) % 2 ^ 64

abbrev pub minus : ℕ → ℕ → ℕ
minus address n = (address + 2 ^ 64 - n) % 2 ^ 64

-- For lengths that lead neither below address 0 nor past the end of the address space from the place
-- where the payload array stands, every operation keeps a packet that lies inside the array inside it,
-- whether it succeeds or fails; and `add_header` and `add_padding` fail exactly if the C code's
-- comparisons of wrapping 64-bit addresses say so.
pub operations-IsValid :
    (payload : ℕ) (b : Buf) (n : ℕ)
    → payload + max_len + n < 2 ^ 64
    → n ≤ payload
    → IsValid b
    → IsValid (init b n).1
      × IsValid (add_header b n).1
      × IsValid (remove_header b n).1
      × IsValid (add_padding b n).1
      × IsValid (remove_padding b n).1
      × ((add_header b n).0 ≡ (if ltb (minus (plus payload b.off) n) payload then failed else ok))
      × ((add_padding b n).0 ≡ (
          if leb (plus payload max_len) (plus (plus (plus payload b.off) b.len) n)
          then failed
          else ok))
unfolding init add_header remove_header add_padding remove_padding
operations-IsValid payload b n space below v = (
  ground arith,
  ground arith,
  ground arith,
  ground arith,
  ground arith,
  ground arith,
  ground arith,
)

-- From a packet set up by `init`, headers of up to 65662 - `n` bytes in all can be added: `init`
-- succeeds exactly below 65662 bytes, and leaves that much headroom, and 65663 bytes of tailroom.
pub init_room :
    (b : Buf) (n : ℕ)
    → n < 65662
    → ((init b n).0 ≡ ok)
      × ((init b n).1.len ≡ n)
      × ((init b n).1.off + n ≡ 65662)
      × ((init b n).1.payload ≡ b.payload)
unfolding init
init_room b n h = ground arith
