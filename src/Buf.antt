-- ===== src/Buf.antt =====
-- The packet buffer of include/buf.h and src/buf.c. `off` is `data - payload`, the place of the
-- data pointer in the payload array; the array is a memory of bytes, and `IsValid` in Buf/Bounds
-- says that no access leaves its `max_len` bytes. A function returns its status and the buffer.
pub mod Tests
pub mod Bounds
pub mod Contents
pub mod Copy
pub mod Fields
use hitsz_network_lab.Common.{
  ℕ, ◌+◌, ◌-◌, ◌*◌, ◌/◌, List, Memory, read, write, replicate, Status, ok, failed, ltb, leb,
  if◌then◌else◌,
}

-- BUF_MAX_LEN: 2 * UINT16_MAX + UINT8_MAX.
abbrev pub max_len : ℕ
max_len = 2 * 65535 + 255

pub record Buf : Type 0 where
  pub len : ℕ
  pub off : ℕ
  pub payload : Memory

unfoldable pub init : Buf → ℕ → Status × Buf
init buf len =
    if leb (max_len / 2) len
    then (failed, buf)
    else (ok, record buf { len = len; off = max_len / 2 - len })

-- The C code compares pointers, which agree with these offsets unless they wrap around.
unfoldable pub add_header : Buf → ℕ → Status × Buf
add_header buf len =
    if ltb buf.off len
    then (failed, buf)
    else (ok, record buf { len = buf.len + len; off = buf.off - len })

unfoldable pub remove_header : Buf → ℕ → Status × Buf
remove_header buf len =
    if ltb buf.len len
    then (failed, buf)
    else (ok, record buf { len = buf.len - len; off = buf.off + len })

-- The same goes for the pointers that are compared here.
unfoldable pub add_padding : Buf → ℕ → Status × Buf
add_padding buf len = if leb max_len (buf.off + buf.len + len) then (failed, buf) else (
  ok,
  record buf {
    len = buf.len + len;
    payload = write buf.payload (buf.off + buf.len) (replicate len 0);
  },
)

unfoldable pub remove_padding : Buf → ℕ → Status × Buf
remove_padding buf len =
    if ltb buf.len len then (failed, buf) else (ok, record buf { len = buf.len - len })

-- The status of `init` is dropped, and the whole payload array is copied. Packets of 65662 bytes and
-- more are not handed to it; for them a zeroed destination would keep a NULL data pointer, which is
-- no offset.
unfoldable pub copy : Buf → Buf → Buf
unfolding init
copy dst src = record (init dst src.len).1 { payload = src.payload }

-- The bytes that a packet holds: `len` bytes from the data pointer on.
abbrev pub contents : Buf → List ℕ
contents buf = read buf.payload buf.off buf.len

-- A read, and a write by `memcpy` or through a header struct, `i` bytes behind the data pointer.
unfoldable pub fetch : Buf → ℕ → ℕ → List ℕ
fetch buf i n = read buf.payload (buf.off + i) n

unfoldable pub put : Buf → ℕ → List ℕ → Buf
put buf i bytes = record buf { payload = write buf.payload (buf.off + i) bytes }
