-- ===== src/Ip/Reassembly/AnyOrder.antt =====
-- Reassembly in src/ip.c does not depend on the order in which the fragments arrive.
use mathlib.Core.List.{
  Mem, Perm, Nodup, not-mem-nil, mem-cons, mem-cons_self, mem-cons_of_mem, Nodup-cons, Nodup-nil,
}
use mathlib.Core.List.Perm
use mathlib.Core.Logic.Or
use native.Mathlib.Bridge.{le_prop}
use native.Mathlib.Nat.{ℕ_set, le_refl}
use mathlib.Core.HLevel.{⊥_prop}
use hitsz_network_lab.Common.{
  ℕ, suc, ◌≤◌, ◌<◌, ◌≡◌, ◌≢◌, refl, sym, ap₂, subst, false, List, [], ◌∷◌, ◌++◌, map, length, arith,
}
use hitsz_network_lab.Stack.Tables.{IpFragment}
use hitsz_network_lab.Ip.Reassembly.Insert.{insert_sorted, Ascending, has_fragment}

abbrev pub offsets : List IpFragment → List ℕ
offsets = map λ f. f.offset

-- Offsets that rise.
abbrev pub Apart : ℕ → List IpFragment → Type 0
Apart low [] = Unit
Apart low (f ∷ rest) = (low ≤ f.offset) × Apart (suc f.offset) rest

IpFragment-set : IsSet IpFragment
IpFragment-set = hlevel ℕ_set

Apart-mem :
    (low : ℕ) (xs : List IpFragment) (x : IpFragment) → Apart low xs → Mem x xs → low ≤ x.offset
Apart-mem low [] x a m = absurd (not-mem-nil m)
Apart-mem low (f ∷ rest) x a m =
    Or.elim le_prop (mem-cons.0 m) (λ e. rw e a.0)
      (λ m'. omega (arith, Apart-mem (suc f.offset) rest x a.1 m'))

Apart-first :
    (low : ℕ) (y x : IpFragment) (ys : List IpFragment)
    → Apart low (y ∷ ys)
    → Mem x (y ∷ ys)
    → y.offset ≤ x.offset
Apart-first low y x ys a m = Apart-mem y.offset (y ∷ ys) x (le_refl y.offset, a.1) m

-- Lists with rising offsets are equal if they hold the same fragments.
pub Apart-unique :
    (low : ℕ) (xs ys : List IpFragment) → Apart low xs → Apart low ys → Perm xs ys → xs ≡ ys
Apart-unique low [] ys a b p = Perm.nil-eq p
Apart-unique low (x ∷ xs) [] a b p = Perm.eq-nil p
Apart-unique low (x ∷ xs) (y ∷ ys) a b p = ap₂ ◌∷◌ same (
    Apart-unique (suc x.offset) xs ys a.1 (rw same b.1)
      (Perm.cons_inv (subst (λ h. Perm (h ∷ xs) (y ∷ ys)) same p)))
  where
    same : x ≡ y
    same =
        Or.elim (IpFragment-set x y) (mem-cons.0 (Perm.subset p x mem-cons_self)) (λ e. e)
          λ behind. absurd (
            omega (
              arith,
              Apart-mem (suc y.offset) ys x b.1 behind,
              Apart-first low x y xs a (Perm.subset (Perm.symm p) y mem-cons_self),
            ))

-- What lies in order without a repeated offset has rising offsets.
Ascending-suc :
    (low : ℕ) (xs : List IpFragment)
    → Ascending low xs
    → ¬ Mem low (offsets xs)
    → Ascending (suc low) xs
Ascending-suc low [] a n = tt
Ascending-suc low (f ∷ rest) a n = (omega (arith, differs), a.1)
  where
    differs : low ≢ f.offset
    differs e = n (subst (λ o. Mem o (f.offset ∷ offsets rest)) (sym e) mem-cons_self)

pub Ascending-Apart :
    (low : ℕ) (xs : List IpFragment) → Ascending low xs → Nodup (offsets xs) → Apart low xs
Ascending-Apart low [] a n = tt
Ascending-Apart low (f ∷ rest) a n = (
  a.0,
  Ascending-Apart (suc f.offset) rest (Ascending-suc f.offset rest a.1 (Nodup-cons.0 n).0)
      (Nodup-cons.0 n).1,
)

pub Apart-Nodup : (low : ℕ) (xs : List IpFragment) → Apart low xs → Nodup (offsets xs)
Apart-Nodup low [] a = Nodup-nil
Apart-Nodup low (f ∷ rest) a =
    Nodup-cons.1
      (above (suc f.offset) f.offset rest a.1 (le_refl _), Apart-Nodup (suc f.offset) rest a.1)
  where
    above : (low o : ℕ) (xs : List IpFragment) → Apart low xs → o < low → ¬ Mem o (offsets xs)
    above low o [] a h m = not-mem-nil m
    above low o (f ∷ rest) a h m =
        Or.elim ⊥_prop (mem-cons.0 m) (λ e. omega arith)
          (above (suc f.offset) o rest a.1 (omega arith))

-- An offset that no fragment has belongs to no duplicate.
pub has_fragment_absent :
    (offset len : ℕ) (xs ys : List IpFragment)
    → ¬ Mem offset (offsets (xs ++ ys))
    → has_fragment offset len xs ≡ false
unfolding has_fragment
has_fragment_absent offset len [] ys n = refl
has_fragment_absent offset len (f ∷ rest) ys n =
    ground (arith, differs, has_fragment_absent offset len rest ys (λ m. n (mem-cons_of_mem _ m)))
  where
    differs : f.offset ≢ offset
    differs e = n (subst (λ o. Mem o (f.offset ∷ offsets (rest ++ ys))) e mem-cons_self)

pub length-insert_sorted :
    (new : IpFragment) (xs : List IpFragment) → length (insert_sorted new xs) ≡ suc (length xs)
unfolding insert_sorted
length-insert_sorted new [] = refl
length-insert_sorted new (f ∷ rest) = ground (arith, length-insert_sorted new rest)
