-- ===== src/Buf/Tests.antt =====
-- The theorems about src/buf.c at concrete packets.
use hitsz_network_lab.Common.{◌≡◌, refl, [], ◌∷◌, read, ok, failed, ltb, leb, if◌then◌else◌, arith}
use hitsz_network_lab.Buf.{
  Buf, max_len, init, add_header, remove_header, add_padding, remove_padding, copy, contents,
}
use hitsz_network_lab.Buf.Bounds.{IsValid, plus, minus, operations-IsValid}

-- Three bytes that end in the middle of the payload array.
abbrev three_bytes : Buf
three_bytes = record { len = 3; off = 65659; payload = λ i. i }

contents-three_bytes : contents three_bytes ≡ 65659 ∷ 65660 ∷ 65661 ∷ []
unfolding read
contents-three_bytes = refl

-- The payload array at an address as in the data of a program.
operations-IsValid_example :
    IsValid (init three_bytes 65661).1
    × IsValid (add_header three_bytes 65661).1
    × IsValid (remove_header three_bytes 65661).1
    × IsValid (add_padding three_bytes 65661).1
    × IsValid (remove_padding three_bytes 65661).1
    × ((add_header three_bytes 65661).0
        ≡ (if ltb (minus (plus 4194304 three_bytes.off) 65661) 4194304 then failed else ok))
    × ((add_padding three_bytes 65661).0 ≡ (
        if leb
          (plus 4194304 max_len)
          (plus (plus (plus 4194304 three_bytes.off) three_bytes.len) 65661)
        then failed
        else ok))
operations-IsValid_example =
    operations-IsValid 4194304 three_bytes 65661 (omega arith) (omega arith) (omega arith)

-- A packet that was received 14 bytes further on: its copy starts elsewhere.
abbrev drifted : Buf
drifted = record { len = 3; off = 65673; payload = λ i. i }

copy_elsewhere : contents (copy three_bytes drifted) ≡ 65659 ∷ 65660 ∷ 65661 ∷ []
unfolding copy read
copy_elsewhere = refl
