-- ===== src/Buf/Copy.antt =====
-- `buf_copy` of src/buf.c: it places the data pointer anew, by the length alone.
use hitsz_network_lab.Common.{◌+◌, ◌-◌, ◌<◌, ◌≡◌, ap, arith, read, lt→leb}
use hitsz_network_lab.Buf.{Buf, copy, contents}
use hitsz_network_lab.Buf.Bounds.{IsValid}

-- The packet ends in the middle of the payload array, as `buf_init` leaves it.
abbrev pub IsAnchored : Buf → Type 0
IsAnchored b = b.off + b.len ≡ 65662

pub copy_fits :
    (dst src : Buf)
    → src.len < 65662
    → copy dst src ≡ record { len = src.len; off = 65662 - src.len; payload = src.payload }
unfolding copy
copy_fits dst src h = rw (lt→leb 65662 src.len h)

-- A copy of a packet of less than 65662 bytes holds the packet's bytes, if the packet ends in the
-- middle of the payload array, where `buf_init` places it.
pub contents-copy :
    (dst src : Buf) → src.len < 65662 → IsAnchored src → contents (copy dst src) ≡ contents src
contents-copy dst src h a =
    rw (copy_fits dst src h) (ap (λ o. read src.payload o src.len) (omega arith))

pub copy-IsAnchored : (dst src : Buf) → src.len < 65662 → IsAnchored (copy dst src)
copy-IsAnchored dst src h = rw (copy_fits dst src h) (omega arith)

pub copy-IsValid : (dst src : Buf) → IsValid dst → IsValid (copy dst src)
unfolding copy
copy-IsValid dst src v = ground arith
