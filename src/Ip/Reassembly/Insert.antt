-- ===== src/Ip/Reassembly/Insert.antt =====
-- `ip_reassemble_insert_fragment` of src/ip.c keeps the fragments in the order of their offsets.
use mathlib.Core.List.{Perm}
use mathlib.Core.List.Perm
use hitsz_network_lab.Common.{
  ℕ, suc, ◌+◌, ◌≤◌, ◌<◌, ◌≡◌, refl, ap, ◌∙◌, inl, inr, Bool, false, ◌&&◌, ◌||◌, not, none, some,
  List, [], ◌∷◌, length, ltb, ◌==◌, if◌then◌else◌, arith, Bool-cases,
}
use hitsz_network_lab.Stack.Tables.{IpFragment, ReassembleNode}
use hitsz_network_lab.Ip.Reassembly.{insert_pos, insert_at, insert_fragment, ip_frag_max_fragments}

-- The new fragment in front of the first one with a greater offset.
unfoldable pub insert_sorted : IpFragment → List IpFragment → List IpFragment
insert_sorted new [] = new ∷ []
insert_sorted new (f ∷ rest) =
    if ltb new.offset f.offset then new ∷ f ∷ rest else f ∷ insert_sorted new rest

-- Offsets that do not fall, from `low` on.
abbrev pub Ascending : ℕ → List IpFragment → Type 0
Ascending low [] = Unit
Ascending low (f ∷ rest) = (low ≤ f.offset) × Ascending f.offset rest

-- A fragment with this offset and length is there.
unfoldable pub has_fragment : ℕ → ℕ → List IpFragment → Bool
has_fragment offset len [] = false
has_fragment offset len (f ∷ rest) =
    (f.offset == offset && f.len == len) || has_fragment offset len rest

-- How many fragments stand before the new one.
rank : ℕ → List IpFragment → ℕ
rank offset [] = 0
rank offset (f ∷ rest) = if ltb offset f.offset then 0 else suc (rank offset rest)

Ascending-lower :
    (low low' : ℕ) (xs : List IpFragment) → low' ≤ low → Ascending low xs → Ascending low' xs
Ascending-lower low low' [] h a = tt
Ascending-lower low low' (f ∷ rest) h a = (omega arith, a.1)

has_fragment_below :
    (offset len low : ℕ) (xs : List IpFragment)
    → Ascending low xs
    → offset < low
    → has_fragment offset len xs ≡ false
unfolding has_fragment
has_fragment_below offset len low [] a h = refl
has_fragment_below offset len low (f ∷ rest) a h =
    ground (arith, has_fragment_below offset len f.offset rest a.1)

-- The search finds a duplicate wherever it stands, and the rank otherwise.
insert_pos-eq :
    (offset len i low : ℕ) (xs : List IpFragment)
    → Ascending low xs
    → insert_pos offset len i xs
      ≡ (if has_fragment offset len xs then none else some (i + rank offset xs))
unfolding insert_pos has_fragment rank
insert_pos-eq offset len i low [] a = ground arith
insert_pos-eq offset len i low (f ∷ rest) a = ground (
  arith,
  insert_pos-eq offset len (i + 1) f.offset rest a.1,
  has_fragment_below offset len f.offset rest a.1,
)

insert_at-rank :
    (new : IpFragment) (xs : List IpFragment)
    → insert_at (rank new.offset xs) new xs ≡ insert_sorted new xs
unfolding insert_at rank insert_sorted
insert_at-rank new [] = refl
insert_at-rank new (f ∷ rest) = ground (arith, insert_at-rank new rest)

insert_at_zero-rank :
    (new : IpFragment) (xs : List IpFragment) (p : ℕ)
    → p ≡ 0 + rank new.offset xs
    → insert_at p new xs ≡ insert_sorted new xs
insert_at_zero-rank new xs p e =
    ap (λ q. insert_at q new xs) (e ∙ rank_zero) ∙ insert_at-rank new xs
  where
    rank_zero : 0 + rank new.offset xs ≡ rank new.offset xs
    rank_zero = omega arith

-- Into fragments in the order of their offsets, a new fragment is refused exactly if there are already
-- 100, if there is no memory, or if one of the same offset and length is there; otherwise it is put
-- in front of the first one with a greater offset.
pub insert_fragment_lem :
    (malloc : Bool) (node : ReassembleNode) (offset len : ℕ) (bytes : List ℕ) (is_last : Bool)
    → Ascending 0 node.fragments
    → let new : IpFragment = record {
      offset = offset;
      len = len;
      bytes = bytes;
      is_last = is_last;
    } in
      let (inserted, node') = insert_fragment malloc node offset len bytes is_last in
      (inserted ≡ (
        ltb (length node.fragments) ip_frag_max_fragments
        && (malloc && not (has_fragment offset len node.fragments))))
      × (node'.fragments ≡ (if inserted then insert_sorted new node.fragments else node.fragments))
unfolding insert_fragment
insert_fragment_lem malloc node offset len bytes is_last a =
    let new : IpFragment = record {
      offset = offset;
      len = len;
      bytes = bytes;
      is_last = is_last;
    } in
    ground (
      arith,
      insert_pos-eq offset len 0 0 node.fragments a,
      insert_at_zero-rank new node.fragments (0 + rank offset node.fragments) refl,
    )

pub insert_sorted-Ascending :
    (new : IpFragment) (low : ℕ) (xs : List IpFragment)
    → low ≤ new.offset
    → Ascending low xs
    → Ascending low (insert_sorted new xs)
unfolding insert_sorted
insert_sorted-Ascending new low [] h a = (h, tt)
insert_sorted-Ascending new low (f ∷ rest) h a =
    ground (arith, insert_sorted-Ascending new f.offset rest)

pub insert_sorted-perm :
    (new : IpFragment) (xs : List IpFragment) → Perm (insert_sorted new xs) (new ∷ xs)
unfolding insert_sorted
insert_sorted-perm new [] = Perm.rfl
insert_sorted-perm new (f ∷ rest) = elim (Bool-cases (ltb new.offset f.offset)) [
  | inl before ↦ rw before Perm.rfl
  | inr behind ↦
      rw behind (Perm.trans (Perm.cons f (insert_sorted-perm new rest)) (Perm.swap new f rest))
]
