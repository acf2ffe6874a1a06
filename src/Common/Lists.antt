-- ===== src/Common/Lists.antt =====
-- C arrays as lists, measured and indexed by native numbers, under the library's names.
use Prim.Native.Nat.{ℕ, zero, suc, ◌+◌, ◌-◌, ◌≤◌, min}
use mathlib.Core.Path.{◌≡◌, refl, ap}
use mathlib.Core.Logic.{◌≢◌}
use mathlib.Core.List.{List, [], ◌∷◌, ◌++◌}
use mathlib.Core.Option.{Option, none, some}
use native.Mathlib.Omega.{arith}
use hitsz_network_lab.Common.Tests.{ltb, if◌then◌else◌}

module _ {ℓ} {A : Type ℓ} where
  abbrev pub length : List A → ℕ
  length [] = 0
  length (x ∷ xs) = suc (length xs)

  abbrev pub get_elem? : List A → ℕ → Option A
  get_elem? [] i = none
  get_elem? (x ∷ xs) zero = some x
  get_elem? (x ∷ xs) (suc i) = get_elem? xs i

  abbrev pub get_or : List A → ℕ → A → A
  get_or [] i d = d
  get_or (x ∷ xs) zero d = x
  get_or (x ∷ xs) (suc i) d = get_or xs i d

  -- A write out of bounds changes nothing.
  abbrev pub set : List A → ℕ → A → List A
  set [] i v = []
  set (x ∷ xs) zero v = v ∷ xs
  set (x ∷ xs) (suc i) v = x ∷ set xs i v

  abbrev pub take : ℕ → List A → List A
  take zero xs = []
  take (suc n) [] = []
  take (suc n) (x ∷ xs) = x ∷ take n xs

  abbrev pub drop : ℕ → List A → List A
  drop zero xs = xs
  drop (suc n) [] = []
  drop (suc n) (x ∷ xs) = drop n xs

  abbrev pub replicate : ℕ → A → List A
  replicate zero a = []
  replicate (suc n) a = a ∷ replicate n a

  pub length-append : (xs ys : List A) → length (xs ++ ys) ≡ length xs + length ys
  length-append [] ys = omega arith
  length-append (x ∷ xs) ys = omega (arith, length-append xs ys)

  pub length-set : (xs : List A) (i : ℕ) (v : A) → length (set xs i v) ≡ length xs
  length-set [] i v = refl
  length-set (x ∷ xs) zero v = refl
  length-set (x ∷ xs) (suc i) v = ap suc (length-set xs i v)

  pub length-replicate : (n : ℕ) (a : A) → length (replicate n a) ≡ n
  length-replicate zero a = refl
  length-replicate (suc n) a = ap suc (length-replicate n a)

  pub length-take : (n : ℕ) (xs : List A) → length (take n xs) ≡ min n (length xs)
  length-take zero xs = omega arith
  length-take (suc n) [] = omega arith
  length-take (suc n) (x ∷ xs) = omega (arith, length-take n xs)

  pub length-drop : (n : ℕ) (xs : List A) → length (drop n xs) ≡ length xs - n
  length-drop zero xs = omega arith
  length-drop (suc n) [] = omega arith
  length-drop (suc n) (x ∷ xs) = omega (arith, length-drop n xs)

  pub take-append-drop : (n : ℕ) (xs : List A) → take n xs ++ drop n xs ≡ xs
  take-append-drop zero xs = refl
  take-append-drop (suc n) [] = refl
  take-append-drop (suc n) (x ∷ xs) = ap (◌∷◌ x) (take-append-drop n xs)

  pub take-of_length_le : (n : ℕ) (xs : List A) → length xs ≤ n → take n xs ≡ xs
  take-of_length_le zero [] h = refl
  take-of_length_le zero (x ∷ xs) h = absurd (omega arith)
  take-of_length_le (suc n) [] h = refl
  take-of_length_le (suc n) (x ∷ xs) h = ap (◌∷◌ x) (take-of_length_le n xs (omega arith))

  -- `get_or` matches on `suc`, the code on addresses computes with `-`.
  pub get_or-cons :
      (x : A) (xs : List A) (k : ℕ) (d : A) → k ≢ 0 → get_or (x ∷ xs) k d ≡ get_or xs (k - 1) d
  get_or-cons x xs zero d h = absurd (h refl)
  get_or-cons x xs (suc k) d h = ap (λ j. get_or xs j d) (omega arith)

  pub get_or_outside : (xs : List A) (k : ℕ) (d : A) → length xs ≤ k → get_or xs k d ≡ d
  get_or_outside [] k d h = refl
  get_or_outside (x ∷ xs) zero d h = absurd (omega arith)
  get_or_outside (x ∷ xs) (suc k) d h = get_or_outside xs k d (omega arith)

  pub drop-append_length : (xs ys : List A) (n : ℕ) → n ≡ length xs → drop n (xs ++ ys) ≡ ys
  drop-append_length [] ys zero e = refl
  drop-append_length [] ys (suc n) e = absurd (omega arith)
  drop-append_length (x ∷ xs) ys zero e = absurd (omega arith)
  drop-append_length (x ∷ xs) ys (suc n) e = drop-append_length xs ys n (omega arith)

  pub take-append_length : (xs ys : List A) (n : ℕ) → n ≡ length xs → take n (xs ++ ys) ≡ xs
  take-append_length [] ys zero e = refl
  take-append_length [] ys (suc n) e = absurd (omega arith)
  take-append_length (x ∷ xs) ys zero e = absurd (omega arith)
  take-append_length (x ∷ xs) ys (suc n) e = ap (◌∷◌ x) (take-append_length xs ys n (omega arith))

  pub get_or-append :
      (xs ys : List A) (k : ℕ) (d : A)
      → get_or (xs ++ ys) k d
        ≡ (if ltb k (length xs) then get_or xs k d else get_or ys (k - length xs) d)
  get_or-append [] ys k d = ground (arith, ap (λ j. get_or ys j d) (k_zero k))
    where
      k_zero : (k : ℕ) → k - 0 ≡ k
      k_zero k = omega arith
  get_or-append (x ∷ xs) ys zero d = ground arith
  get_or-append (x ∷ xs) ys (suc k) d =
      ground (arith, get_or-append xs ys k d, ap (λ j. get_or ys j d) (less k (length xs)))
    where
      less : (k n : ℕ) → suc k - suc n ≡ k - n
      less k n = omega arith

  -- A cut behind the first of two blocks.
  pub take-append :
      (xs ys : List A) (k n : ℕ) → k ≡ length xs + n → take k (xs ++ ys) ≡ xs ++ take n ys
  take-append [] ys k n h = ap (λ j. take j ys) (omega arith)
  take-append (x ∷ xs) ys zero n h = absurd (omega arith)
  take-append (x ∷ xs) ys (suc k) n h = ap (◌∷◌ x) (take-append xs ys k n (omega arith))

  pub drop-append : (xs ys : List A) (k n : ℕ) → k ≡ length xs + n → drop k (xs ++ ys) ≡ drop n ys
  drop-append [] ys k n h = ap (λ j. drop j ys) (omega arith)
  drop-append (x ∷ xs) ys zero n h = absurd (omega arith)
  drop-append (x ∷ xs) ys (suc k) n h = drop-append xs ys k n (omega arith)
