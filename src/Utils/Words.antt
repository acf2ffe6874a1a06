-- ===== src/Utils/Words.antt =====
-- 16-bit values of src/utils.c in memory: what is stored is read back.
use hitsz_network_lab.Common.{ℕ, ◌/◌, ◌%◌, ◌<◌, ◌≡◌, ap, ◌∙◌, List, arith}
use hitsz_network_lab.Common.Bits.{bit_and-mask}
use hitsz_network_lab.Utils.{swap16, load16, checksum16}
use hitsz_network_lab.Utils.Swap.{swap16-swap16, swap16-lt}

pub checksum16-lt : (bytes : List ℕ) → checksum16 bytes < 65536
unfolding checksum16
checksum16-lt bytes = rw (bit_and-mask 16 _) (omega arith)

-- A swapped word is read back from memory.
pub load_store_swap :
    (x : ℕ) → x < 65536 → swap16 (load16 (swap16 x % 256) (swap16 x / 256 % 256)) ≡ x
load_store_swap x h = ap swap16 (omega (arith, swap16-lt x)) ∙ swap16-swap16 x h
