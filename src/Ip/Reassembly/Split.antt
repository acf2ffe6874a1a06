-- ===== src/Ip/Reassembly/Split.antt =====
-- A datagram cut in pieces, for the reassembly of src/ip.c.
use mathlib.Core.List.{Mem, not-mem-nil, mem-cons, mem-cons_self, mem-cons_of_mem}
use mathlib.Core.Logic.Or
use mathlib.Core.Bool.{Bool-set}
use hitsz_network_lab.Common.{
  ℕ, suc, ◌+◌, ◌≤◌, ◌<◌, ◌≡◌, refl, sym, inl, inr, Bool, true, false, ◌||◌, List, [], ◌∷◌, length,
  ◌==◌, arith, Bool-cases,
}
use hitsz_network_lab.Stack.Tables.{IpFragment}
use hitsz_network_lab.Ip.Reassembly.Tiling.{Tiles}
use hitsz_network_lab.Ip.Reassembly.AnyOrder.{Apart}

-- The datagram of `total` bytes cut in pieces, from `start` on: none is empty, they lie end to end,
-- and just the piece that ends the datagram is marked as the last one.
abbrev pub IsSplit : ℕ → ℕ → List IpFragment → Type 0
IsSplit start total [] = start ≡ total
IsSplit start total (f ∷ rest) =
    (f.offset ≡ start)
    × (length f.bytes ≡ f.len)
    × (0 < f.len)
    × (f.is_last ≡ (f.offset + f.len == total))
    × IsSplit (start + f.len) total rest

unfoldable pub any_last : List IpFragment → Bool
any_last [] = false
any_last (f ∷ rest) = f.is_last || any_last rest

pub IsSplit-Tiles :
    (start total : ℕ) (ps : List IpFragment) → IsSplit start total ps → Tiles start total ps
IsSplit-Tiles start total [] t = t
IsSplit-Tiles start total (f ∷ rest) t = (t.0, t.1, IsSplit-Tiles (start + f.len) total rest t.4)

Apart-lower : (low low' : ℕ) (xs : List IpFragment) → low' ≤ low → Apart low xs → Apart low' xs
Apart-lower low low' [] h a = tt
Apart-lower low low' (f ∷ rest) h a = (omega arith, a.1)

pub IsSplit-Apart :
    (start total : ℕ) (ps : List IpFragment) → IsSplit start total ps → Apart start ps
IsSplit-Apart start total [] t = tt
IsSplit-Apart start total (f ∷ rest) t = (
  omega arith,
  Apart-lower (start + f.len) (suc f.offset) rest (omega arith)
      (IsSplit-Apart (start + f.len) total rest t.4),
)

pub IsSplit-last :
    (start total : ℕ) (x : IpFragment) (ps : List IpFragment)
    → IsSplit start total ps
    → Mem x ps
    → x.is_last ≡ (x.offset + x.len == total)
IsSplit-last start total x [] t m = absurd (not-mem-nil m)
IsSplit-last start total x (f ∷ rest) t m =
    Or.elim (Bool-set _ _) (mem-cons.0 m) (λ e. rw e t.3)
      (λ m'. IsSplit-last (start + f.len) total x rest t.4 m')

IsSplit-le : (start total : ℕ) (ps : List IpFragment) → IsSplit start total ps → start ≤ total
IsSplit-le start total [] t = omega arith
IsSplit-le start total (f ∷ rest) t = omega (arith, IsSplit-le (start + f.len) total rest t.4)

pub IsSplit-any_last :
    (start total : ℕ) (ps : List IpFragment)
    → IsSplit start total ps
    → start < total
    → any_last ps ≡ true
unfolding any_last
IsSplit-any_last start total [] t h = absurd (omega arith)
IsSplit-any_last start total (f ∷ []) t h = ground arith
IsSplit-any_last start total (f ∷ g ∷ rest) t h = ground (
  arith,
  IsSplit-any_last (start + f.len) total (g ∷ rest) t.4,
  IsSplit-le (start + f.len + g.len) total rest t.4.4,
)

any_last-Mem :
    (x : IpFragment) (xs : List IpFragment) → Mem x xs → x.is_last ≡ true → any_last xs ≡ true
unfolding any_last
any_last-Mem x [] m e = absurd (not-mem-nil m)
any_last-Mem x (f ∷ rest) m e =
    Or.elim (Bool-set _ _) (mem-cons.0 m) (λ same. rw (sym same) (rw e refl))
      (λ m'. ground (arith, any_last-Mem x rest m' e))

pub any_last-subset :
    (xs ys : List IpFragment)
    → ((x : IpFragment) → Mem x xs → Mem x ys)
    → any_last xs ≡ true
    → any_last ys ≡ true
unfolding any_last
any_last-subset [] ys sub e = absurd (ground (arith, e))
any_last-subset (f ∷ rest) ys sub e = elim (Bool-cases f.is_last) [
  | inl marked ↦ any_last-Mem f ys (sub f mem-cons_self) marked
  | inr unmarked ↦
      any_last-subset rest ys (λ x m. sub x (mem-cons_of_mem f m)) (ground (arith, e, unmarked))
]
