-- ===== src/Map/Counting.antt =====
-- How many slots of a map of src/map.c are in use, and that no key is in use twice.
use hitsz_network_lab.Common.{
  ℕ, zero, suc, ◌+◌, ◌≤◌, ◌<◌, ◌≡◌, refl, ap, inl, inr, true, false, none, some, List, [], ◌∷◌,
  length, replicate, Option-cases, if◌then◌else◌, Eq, arith,
}
use hitsz_network_lab.Map.{Slot, entry_valid, find, modify, claim}
use hitsz_network_lab.Map.Lookup.{entry_valid_now}

module _ {ℓ κ} {K : Type ℓ} {V : Type κ} where
  -- The number of valid slots.
  unfoldable pub live : ℕ → ℕ → List (Slot K V) → ℕ
  live now timeout [] = 0
  live now timeout (s ∷ rest) = (if entry_valid now timeout s then 1 else 0) + live now timeout rest

  pub live-le-length :
      (now timeout : ℕ) (slots : List (Slot K V)) → live now timeout slots ≤ length slots
  unfolding live
  live-le-length now timeout [] = omega arith
  live-le-length now timeout (s ∷ rest) = ground (arith, live-le-length now timeout rest)

  pub live-replicate :
      (now timeout n : ℕ) (key : K) (v : V)
      → live now timeout (replicate n (record { key = key; value = v; stamp = 0 })) ≡ 0
  unfolding live entry_valid
  live-replicate now timeout zero key v = refl
  live-replicate now timeout (suc n) key v = ground (arith, live-replicate now timeout n key v)

  -- What has expired stays expired.
  pub entry_valid_later :
      (now later timeout : ℕ) (s : Slot K V)
      → now ≤ later
      → entry_valid later timeout s ≡ true
      → entry_valid now timeout s ≡ true
  unfolding entry_valid
  entry_valid_later now later timeout s h v = ground arith

  pub live_later :
      (now later timeout : ℕ) (slots : List (Slot K V))
      → now ≤ later
      → live later timeout slots ≤ live now timeout slots
  unfolding live
  live_later now later timeout [] h = omega arith
  live_later now later timeout (s ∷ rest) h =
      ground (arith, live_later now later timeout rest, entry_valid_later now later timeout s)

  pub length-modify :
      (p : ℕ) (f : Slot K V → Slot K V) (slots : List (Slot K V))
      → length (modify p f slots) ≡ length slots
  unfolding modify
  length-modify p f [] = refl
  length-modify zero f (s ∷ rest) = refl
  length-modify (suc p) f (s ∷ rest) = ap suc (length-modify p f rest)

  pub length-claim :
      (now timeout : ℕ) (c : V → V → V) (key : K) (v : V) (slots slots' : List (Slot K V))
      → claim now timeout c key v slots ≡ some slots'
      → length slots' ≡ length slots
  unfolding claim
  length-claim now timeout c key v [] slots' q = cc
  length-claim now timeout c key v (s ∷ rest) slots' q =
      elim (Option-cases (claim now timeout c key v rest)) [
        | inl no_room ↦ ground arith
        | inr (rest', room) ↦ ground (arith, length-claim now timeout c key v rest rest')
      ]

  -- A claim fails only if every slot is in use.
  pub claim-eq-none :
      (now timeout : ℕ) (c : V → V → V) (key : K) (v : V) (slots : List (Slot K V))
      → claim now timeout c key v slots ≡ none
      → live now timeout slots ≡ length slots
  unfolding claim live
  claim-eq-none now timeout c key v [] q = refl
  claim-eq-none now timeout c key v (s ∷ rest) q =
      ground (arith, claim-eq-none now timeout c key v rest)

  pub live-claim :
      (now timeout : ℕ) (c : V → V → V) (key : K) (v : V) (slots slots' : List (Slot K V))
      → 0 < now
      → claim now timeout c key v slots ≡ some slots'
      → live now timeout slots' ≡ suc (live now timeout slots)
  unfolding claim live
  live-claim now timeout c key v [] slots' pos q = cc
  live-claim now timeout c key v (s ∷ rest) slots' pos q =
      elim (Option-cases (claim now timeout c key v rest)) [
        | inl no_room ↦ ground (arith, entry_valid_now now timeout key (c s.value v) pos)
        | inr (rest', room) ↦ ground (
          arith,
          live-claim now timeout c key v rest rest' pos room,
          entry_valid_now now timeout key (c s.value v) pos,
        )
      ]

module _ {ℓ κ} {K : Type ℓ} {V : Type κ} ⦃e : Eq K⦄ where
  pub live-modify :
      (now timeout : ℕ) (key : K) (slots : List (Slot K V)) (p : ℕ) (c : V → V)
      → 0 < now
      → find now timeout key slots ≡ some p
      → live now timeout (modify p (λ s. record s { value = c s.value; stamp = now }) slots)
        ≡ live now timeout slots
  unfolding find live modify
  live-modify now timeout key [] p c pos h = cc
  live-modify now timeout key (s ∷ rest) zero c pos h =
      ground (arith, entry_valid_now now timeout s.key (c s.value) pos)
  live-modify now timeout key (s ∷ rest) (suc p) c pos h =
      ground (arith, live-modify now timeout key rest p c pos)

  pub live-free :
      (now timeout : ℕ) (key : K) (slots : List (Slot K V)) (p : ℕ)
      → find now timeout key slots ≡ some p
      → suc (live now timeout (modify p (λ s. record s { stamp = 0 }) slots))
        ≡ live now timeout slots
  unfolding find live modify
  live-free now timeout key [] p h = cc
  live-free now timeout key (s ∷ rest) zero h = ground (arith, free_entry)
    where
      free_entry : entry_valid now timeout (record s { stamp = 0 }) ≡ false
      free_entry = unfold entry_valid in refl
  live-free now timeout key (s ∷ rest) (suc p) h = ground (arith, live-free now timeout key rest p)
