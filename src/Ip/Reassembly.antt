-- ===== src/Ip/Reassembly.antt =====
-- The reassembly nodes of src/ip.c. Offsets and lengths are `uint16_t` and wrap; `malloc` is an
-- argument that says whether it returns memory. The map of nodes is used in Ip/Receive.
pub mod Insert
pub mod Tiling
pub mod AnyOrder
pub mod Split
pub mod Arrivals
use hitsz_network_lab.Common.{
  ℕ, zero, suc, ◌+◌, ◌%◌, ◌^◌, Bool, true, false, ◌&&◌, Option, none, some, List, [], ◌∷◌, length,
  ltb, leb, ◌==◌, if◌then◌else◌, Memory, write,
}
use hitsz_network_lab.Stack.Tables.{IpFragment, ReassembleNode}

-- IP_FRAG_MAX_FRAGMENTS
abbrev pub ip_frag_max_fragments : ℕ
ip_frag_max_fragments = 100

abbrev pub u16 : ℕ → ℕ
u16 n = n % 2 ^ 16

-- The loop of `ip_reassemble_is_complete`: no gap, and the end where the last fragment ends.
unfoldable pub is_contiguous : ℕ → ℕ → List IpFragment → Bool
is_contiguous total_len expected_offset [] = expected_offset == total_len
is_contiguous total_len expected_offset (f ∷ rest) =
    if f.offset == expected_offset
    then is_contiguous total_len (u16 (expected_offset + f.len)) rest
    else false

unfoldable pub is_complete : ReassembleNode → Bool
is_complete node =
    if node.has_last_fragment then is_contiguous node.total_len 0 node.fragments else false

-- The memory after the fragments are copied to `output` on, and the length.
unfoldable pub merge_from : Memory → ℕ → ℕ → List IpFragment → Memory × ℕ
merge_from memory output offset [] = (memory, offset)
merge_from memory output offset (f ∷ rest) =
    merge_from (write memory (output + offset) f.bytes) output (u16 (offset + f.len)) rest

unfoldable pub merge_fragments : Memory → ℕ → ReassembleNode → Memory × ℕ
merge_fragments memory output node = merge_from memory output 0 node.fragments

-- The search loop from index `i` on: `none` for a duplicate, or the place for the new fragment.
unfoldable pub insert_pos : ℕ → ℕ → ℕ → List IpFragment → Option ℕ
insert_pos offset len i [] = some i
insert_pos offset len i (f ∷ rest) =
    let further = insert_pos offset len (i + 1) rest in
    if f.offset == offset && f.len == len
    then none
    else if ltb offset f.offset
    then some i
    else further

-- `memmove` of the fragments from `pos` on, and the new one put there.
unfoldable pub insert_at : ℕ → IpFragment → List IpFragment → List IpFragment
insert_at zero new fragments = new ∷ fragments
insert_at (suc pos) new [] = new ∷ []
insert_at (suc pos) new (f ∷ rest) = f ∷ insert_at pos new rest

-- The result is false for 0: too many fragments, no memory, or a duplicate.
unfoldable pub insert_fragment :
    Bool → ReassembleNode → ℕ → ℕ → List ℕ → Bool → Bool × ReassembleNode
insert_fragment malloc node offset len bytes is_last =
    if leb ip_frag_max_fragments (length node.fragments)
    then (false, node)
    else if malloc
    then (elim (insert_pos offset len 0 node.fragments) [
      | none ↦ (false, node)
      | some pos ↦ (
        true,
        record node {
          fragments =
              insert_at pos
                (record { offset = offset; len = len; bytes = bytes; is_last = is_last })
                node.fragments;
          has_last_fragment = if is_last then true else node.has_last_fragment;
          total_len = if is_last then u16 (offset + len) else node.total_len;
        },
      )
    ])
    else (false, node)

-- `ip_reassemble_free_node`; the freed memory is not looked at again.
unfoldable pub free_node : ReassembleNode → ReassembleNode
free_node node = record node { fragments = [] }
