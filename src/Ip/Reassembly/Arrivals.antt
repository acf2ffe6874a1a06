-- ===== src/Ip/Reassembly/Arrivals.antt =====
-- The order in which the fragments of a datagram are inserted into a node of src/ip.c.
use mathlib.Core.List.{
  Mem, Perm, Nodup, mem-cons_self, mem-cons_of_mem, append-nil, perm_middle, Nodup-cons,
  mem-append_left, map-append,
}
use mathlib.Core.List.Perm
use hitsz_network_lab.Common.{
  ℕ, ◌+◌, ◌≤◌, ◌<◌, ◌≡◌, sym, ap, subst, ◌∙◌, inl, inr, true, false, ◌&&◌, ◌||◌, not, List, [], ◌∷◌,
  ◌++◌, length, ltb, if◌then◌else◌, arith, Bool-cases, Memory, read,
}
use hitsz_network_lab.Stack.Tables.{IpFragment, ReassembleNode}
use hitsz_network_lab.Ip.Reassembly.{
  insert_fragment, ip_frag_max_fragments, u16, is_complete, merge_fragments, merge_from,
}
use hitsz_network_lab.Ip.Reassembly.Insert.{
  insert_sorted, Ascending, has_fragment, insert_fragment_lem, insert_sorted-Ascending,
  insert_sorted-perm,
}
use hitsz_network_lab.Ip.Reassembly.Tiling.{Tiles, joined, is_contiguous-Tiles, merge_from_lem}
use hitsz_network_lab.Ip.Reassembly.AnyOrder.{
  offsets, Apart-unique, Ascending-Apart, Apart-Nodup, has_fragment_absent, length-insert_sorted,
}
use hitsz_network_lab.Ip.Reassembly.Split.{
  IsSplit, any_last, IsSplit-Tiles, IsSplit-Apart, IsSplit-last, IsSplit-any_last, any_last-subset,
}

-- `ip_reassemble_insert_fragment` for each fragment of a list; `malloc` returns memory.
unfoldable pub insert_all : ReassembleNode → List IpFragment → ReassembleNode
unfolding insert_fragment
insert_all node [] = node
insert_all node (f ∷ rest) =
    insert_all (insert_fragment true node f.offset f.len f.bytes f.is_last).1 rest

-- What one insertion that succeeds does to the marks.
insert_fragment-last :
    (node : ReassembleNode) (f : IpFragment)
    → let (inserted, node') = insert_fragment true node f.offset f.len f.bytes f.is_last in
      inserted ≡ true
      → (node'.has_last_fragment ≡ (node.has_last_fragment || f.is_last))
        × (node'.total_len ≡ (if f.is_last then u16 (f.offset + f.len) else node.total_len))
unfolding insert_fragment
insert_fragment-last node f = ground arith

-- One insertion, where it succeeds.
abbrev Inserted : ReassembleNode → IpFragment → Type 0
Inserted node f =
    let node' = (insert_fragment true node f.offset f.len f.bytes f.is_last).1 in
    (node'.fragments ≡ insert_sorted f node.fragments)
    × (node'.has_last_fragment ≡ (node.has_last_fragment || f.is_last))
    × (node'.total_len ≡ (if f.is_last then u16 (f.offset + f.len) else node.total_len))

insert_fragment-step :
    (node : ReassembleNode) (f : IpFragment)
    → Ascending 0 node.fragments
    → ¬ Mem f.offset (offsets node.fragments)
    → length node.fragments < ip_frag_max_fragments
    → Inserted node f
insert_fragment-step node f a new room = (
  it.1 ∙ ap (λ b. if b then insert_sorted f node.fragments else node.fragments) inserted,
  (insert_fragment-last node f inserted).0,
  (insert_fragment-last node f inserted).1,
)
  where
    it :
        (let (inserted, node') = insert_fragment true node f.offset f.len f.bytes f.is_last in
          (inserted ≡ (
            ltb (length node.fragments) ip_frag_max_fragments
            && (true && not (has_fragment f.offset f.len node.fragments))))
          × (node'.fragments
              ≡ (if inserted then insert_sorted f node.fragments else node.fragments)))
    it = insert_fragment_lem true node f.offset f.len f.bytes f.is_last a

    absent : has_fragment f.offset f.len node.fragments ≡ false
    absent =
        has_fragment_absent f.offset f.len node.fragments []
          (subst (λ l. ¬ Mem f.offset (offsets l)) (sym (append-nil node.fragments)) new)

    inserted : (insert_fragment true node f.offset f.len f.bytes f.is_last).0 ≡ true
    inserted = it.0 ∙ ground (arith, absent, room)

abbrev Arranged : ℕ → ReassembleNode → List IpFragment → Type 0
Arranged total node arrivals =
    Ascending 0 node.fragments
    × Nodup (offsets (node.fragments ++ arrivals))
    × (length node.fragments + length arrivals ≤ ip_frag_max_fragments)
    × (node.has_last_fragment ≡ true → node.total_len ≡ total)

abbrev Collected : ℕ → ReassembleNode → List IpFragment → ReassembleNode → Type 0
Collected total node arrivals node' =
    Perm node'.fragments (node.fragments ++ arrivals)
    × Ascending 0 node'.fragments
    × (node'.has_last_fragment ≡ (node.has_last_fragment || any_last arrivals))
    × (node'.has_last_fragment ≡ true → node'.total_len ≡ total)

-- The fragments and those to come, with the first of them put in its place.
insert_sorted-rearranged :
    (f : IpFragment) (xs rest : List IpFragment)
    → Perm (insert_sorted f xs ++ rest) (xs ++ (f ∷ rest))
insert_sorted-rearranged f xs rest =
    Perm.trans (Perm.append_right rest (insert_sorted-perm f xs)) (Perm.symm (perm_middle xs rest))

-- An offset to come is not there yet.
offset_new :
    (f : IpFragment) (xs rest : List IpFragment)
    → Nodup (offsets (xs ++ (f ∷ rest)))
    → ¬ Mem f.offset (offsets xs)
offset_new f xs rest n = λ m.
    (Nodup-cons.0 moved).0
      (subst (λ l. Mem f.offset l) (sym (map-append _ xs rest)) (mem-append_left (offsets rest) m))
  where
    moved : Nodup (f.offset ∷ offsets (xs ++ rest))
    moved = Perm.nodup (Perm.map (λ g. g.offset) (perm_middle xs rest)) n

Arranged-Inserted :
    (total : ℕ) (node : ReassembleNode) (f : IpFragment) (rest : List IpFragment)
    → Arranged total node (f ∷ rest)
    → Inserted node f
Arranged-Inserted total node f rest ok =
    insert_fragment-step node f ok.0 (offset_new f node.fragments rest ok.1) (omega (arith, ok.2))

Arranged-next :
    (total : ℕ) (node : ReassembleNode) (f : IpFragment) (rest : List IpFragment)
    → Arranged total node (f ∷ rest)
    → (f.is_last ≡ true → u16 (f.offset + f.len) ≡ total)
    → Arranged total (insert_fragment true node f.offset f.len f.bytes f.is_last).1 rest
Arranged-next total node f rest ok ends = (
  subst (λ l. Ascending 0 l) (sym step.0)
      (insert_sorted-Ascending f 0 node.fragments (omega arith) ok.0),
  subst (λ l. Nodup (offsets (l ++ rest))) (sym step.0)
      (Perm.nodup
        (Perm.map (λ g. g.offset) (Perm.symm (insert_sorted-rearranged f node.fragments rest)))
        ok.1),
  omega (arith, ap length step.0, length-insert_sorted f node.fragments, ok.2),
  λ marked. step.2 ∙ elim (Bool-cases f.is_last) [
    | inl last ↦ rw last (ends last)
    | inr more ↦ rw more (ok.3 (ground (arith, more, step.1, marked)))
  ],
)
  where
    step : Inserted node f
    step = Arranged-Inserted total node f rest ok

Collected-step :
    (total : ℕ) (node : ReassembleNode) (f : IpFragment) (rest : List IpFragment)
    → let next = (insert_fragment true node f.offset f.len f.bytes f.is_last).1 in
      Arranged total node (f ∷ rest)
      → Collected total next rest (insert_all next rest)
      → Collected total node (f ∷ rest) (insert_all next rest)
unfolding any_last
Collected-step total node f rest ok behind = (
  Perm.trans behind.0 (
      subst (λ l. Perm (l ++ rest) (node.fragments ++ (f ∷ rest))) (sym step.0)
        (insert_sorted-rearranged f node.fragments rest)),
  behind.1,
  ground (arith, behind.2, step.1),
  behind.3,
)
  where
    step : Inserted node f
    step = Arranged-Inserted total node f rest ok

insert_all-Collected :
    (total : ℕ) (node : ReassembleNode) (arrivals : List IpFragment)
    → Arranged total node arrivals
    → ((x : IpFragment) → Mem x arrivals → x.is_last ≡ true → u16 (x.offset + x.len) ≡ total)
    → Collected total node arrivals (insert_all node arrivals)
unfolding insert_all any_last
insert_all-Collected total node [] ok ends = (
  subst (λ l. Perm node.fragments l) (sym (append-nil node.fragments)) Perm.rfl,
  ok.0,
  ground arith,
  ok.3,
)
insert_all-Collected total node (f ∷ rest) ok ends = Collected-step total node f rest ok (
    insert_all-Collected total (insert_fragment true node f.offset f.len f.bytes f.is_last).1 rest
      (Arranged-next total node f rest ok (ends f mem-cons_self))
      (λ x m. ends x (mem-cons_of_mem f m)))

-- A node as `ip_reassemble_get_node` makes it: no fragment, and no last one seen.
abbrev pub IsFresh : ReassembleNode → Type 0
IsFresh node = (node.fragments ≡ []) × (node.has_last_fragment ≡ false)

-- The fragments of a datagram, in whatever order.
module _ (total : ℕ) (node : ReassembleNode) (pieces arrivals : List IpFragment)
    (fresh : IsFresh node) (split : IsSplit 0 total pieces) (reordered : Perm arrivals pieces)
    (few : length arrivals ≤ ip_frag_max_fragments) (some_bytes : 0 < total)
    (fits : total < 65536) where
  ends : (x : IpFragment) → Mem x arrivals → x.is_last ≡ true → u16 (x.offset + x.len) ≡ total
  ends x m marked =
      ground (arith, marked, IsSplit-last 0 total x pieces split (Perm.subset reordered x m))

  start : Arranged total node arrivals
  start = (
    rw fresh.0 tt,
    rw fresh.0 (
        Perm.nodup (Perm.map (λ g. g.offset) (Perm.symm reordered))
          (Apart-Nodup 0 pieces (IsSplit-Apart 0 total pieces split))),
    rw fresh.0 (omega (arith, few)),
    λ marked. absurd (ground (arith, marked, fresh.1)),
  )

  collected : Collected total node arrivals (insert_all node arrivals)
  collected = insert_all-Collected total node arrivals start ends

  all_there : Perm (insert_all node arrivals).fragments pieces
  all_there =
      Perm.trans
        (subst (λ l. Perm (insert_all node arrivals).fragments (l ++ arrivals)) fresh.0 collected.0)
        reordered

  pub insert_all-sorted : (insert_all node arrivals).fragments ≡ pieces
  insert_all-sorted =
      Apart-unique 0 (insert_all node arrivals).fragments pieces
        (Ascending-Apart 0 (insert_all node arrivals).fragments collected.1 (
          Perm.nodup (Perm.map (λ g. g.offset) (Perm.symm all_there))
            (Apart-Nodup 0 pieces (IsSplit-Apart 0 total pieces split))))
        (IsSplit-Apart 0 total pieces split) all_there

  pub insert_all-marked :
      ((insert_all node arrivals).has_last_fragment ≡ true)
      × ((insert_all node arrivals).total_len ≡ total)
  insert_all-marked = (marked, collected.3 marked)
    where
      arrived : any_last arrivals ≡ true
      arrived =
          any_last-subset pieces arrivals (Perm.subset (Perm.symm reordered))
            (IsSplit-any_last 0 total pieces split some_bytes)

      marked : (insert_all node arrivals).has_last_fragment ≡ true
      marked = collected.2 ∙ ground (arith, fresh.1, arrived)

-- A datagram of 1 to 65535 bytes, cut in at most 100 pieces: once all pieces are inserted in a node
-- without fragments, in whatever order they come, the node is complete, and the merge writes the
-- bytes of the datagram in their order and returns its length.
pub reassemble_any_order :
    (total : ℕ) (node : ReassembleNode) (pieces arrivals : List IpFragment) (memory : Memory)
    (output : ℕ)
    → IsFresh node
    → IsSplit 0 total pieces
    → Perm arrivals pieces
    → length arrivals ≤ ip_frag_max_fragments
    → 0 < total
    → total < 65536
    → let (memory', merged_len) = merge_fragments memory output (insert_all node arrivals) in
      (is_complete (insert_all node arrivals) ≡ true)
      × (merged_len ≡ total)
      × (read memory' output (length (joined pieces)) ≡ joined pieces)
unfolding is_complete merge_fragments
reassemble_any_order total node pieces arrivals memory output fresh split reordered few some_bytes
      fits =
    (
      rw marks.0 (rw marks.1 (rw order (is_contiguous-Tiles 0 total pieces tiles fits))),
      rw order merged.1,
      rw order (
          subst
            (λ a.
              read (merge_from memory output 0 pieces).0 a (length (joined pieces)) ≡ joined pieces)
            (omega arith) merged.0),
    )
  where
    order : (insert_all node arrivals).fragments ≡ pieces
    order = insert_all-sorted total node pieces arrivals fresh split reordered few some_bytes fits

    marks :
        ((insert_all node arrivals).has_last_fragment ≡ true)
        × ((insert_all node arrivals).total_len ≡ total)
    marks = insert_all-marked total node pieces arrivals fresh split reordered few some_bytes fits

    tiles : Tiles 0 total pieces
    tiles = IsSplit-Tiles 0 total pieces split

    merged :
        (read (merge_from memory output 0 pieces).0 (output + 0) (length (joined pieces))
          ≡ joined pieces)
        × ((merge_from memory output 0 pieces).1 ≡ total)
    merged = merge_from_lem memory output 0 total pieces tiles fits
