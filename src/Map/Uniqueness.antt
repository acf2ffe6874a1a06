-- ===== src/Map/Uniqueness.antt =====
-- No key of a map of src/map.c is in use twice: kept by every change of the slots.
use hitsz_network_lab.Common.{
  ℕ, zero, suc, ◌≤◌, ◌<◌, ◌≡◌, ◌≢◌, refl, subst, ap, ◌∙◌, inl, inr, true, false, none, some, List,
  [], ◌∷◌, replicate, Option-cases, Bool-cases, if◌then◌else◌, Eq, arith,
}
use hitsz_network_lab.Map.{Slot, entry_valid, find, modify, claim}
use hitsz_network_lab.Map.Lookup.{beq_comm, beq-true, entry_valid_now, lookup_slots}
use hitsz_network_lab.Map.Counting.{entry_valid_later}

-- A slot with time 0 is free.
pub entry_valid_free {ℓ κ} :
    {K : Type ℓ} {V : Type κ} (now timeout : ℕ) (s : Slot K V)
    → entry_valid now timeout (record s { stamp = 0 }) ≡ false
unfolding entry_valid
entry_valid_free now timeout s = refl

module _ {ℓ κ} {K : Type ℓ} {V : Type κ} ⦃e : Eq K⦄ where
  abbrev pub Unique : ℕ → ℕ → List (Slot K V) → Type 0
  Unique now timeout [] = Unit
  Unique now timeout (s ∷ rest) =
      (entry_valid now timeout s ≡ true → find now timeout s.key rest ≡ none)
      × Unique now timeout rest

  pub find-later :
      (now later timeout : ℕ) (j : K) (slots : List (Slot K V))
      → now ≤ later
      → find now timeout j slots ≡ none
      → find later timeout j slots ≡ none
  unfolding find
  find-later now later timeout j [] h q = refl
  find-later now later timeout j (s ∷ rest) h q =
      ground (arith, entry_valid_later now later timeout s, find-later now later timeout j rest)

  pub Unique-later :
      (now later timeout : ℕ) (slots : List (Slot K V))
      → now ≤ later
      → Unique now timeout slots
      → Unique later timeout slots
  Unique-later now later timeout [] h u = tt
  Unique-later now later timeout (s ∷ rest) h u = (
    λ v.
        find-later now later timeout s.key rest h (u.0 (entry_valid_later now later timeout s h v)),
    Unique-later now later timeout rest h u.1,
  )

  pub find-replicate :
      (now timeout n : ℕ) (key j : K) (v : V)
      → find now timeout j (replicate n (record { key = key; value = v; stamp = 0 })) ≡ none
  unfolding find entry_valid
  find-replicate now timeout zero key j v = refl
  find-replicate now timeout (suc n) key j v = ground (arith, find-replicate now timeout n key j v)

  pub Unique-replicate :
      (now timeout n : ℕ) (key : K) (v : V)
      → Unique now timeout (replicate n (record { key = key; value = v; stamp = 0 }))
  Unique-replicate now timeout zero key v = tt
  Unique-replicate now timeout (suc n) key v =
      (λ _. find-replicate now timeout n key key v, Unique-replicate now timeout n key v)

  pub find-modify :
      (now timeout : ℕ) (key j : K) (slots : List (Slot K V)) (p : ℕ) (c : V → V)
      → 0 < now
      → find now timeout key slots ≡ some p
      → find now timeout j (modify p (λ s. record s { value = c s.value; stamp = now }) slots)
        ≡ find now timeout j slots
  unfolding find modify
  find-modify now timeout key j [] p c pos h = cc
  find-modify now timeout key j (s ∷ rest) zero c pos h =
      ground (arith, entry_valid_now now timeout s.key (c s.value) pos)
  find-modify now timeout key j (s ∷ rest) (suc p) c pos h =
      ground (arith, find-modify now timeout key j rest p c pos)

  pub find-free :
      (now timeout : ℕ) (j : K) (slots : List (Slot K V)) (p : ℕ)
      → find now timeout j slots ≡ none
      → find now timeout j (modify p (λ s. record s { stamp = 0 }) slots) ≡ none
  unfolding find modify
  find-free now timeout j [] p h = refl
  find-free now timeout j (s ∷ rest) zero h = ground (arith, entry_valid_free now timeout s)
  find-free now timeout j (s ∷ rest) (suc p) h = ground (arith, find-free now timeout j rest p)

  pub find-claim :
      (now timeout : ℕ) (c : V → V → V) (key j : K) (v : V) (slots slots' : List (Slot K V))
      → e.beq j key ≡ false
      → find now timeout j slots ≡ none
      → claim now timeout c key v slots ≡ some slots'
      → find now timeout j slots' ≡ none
  unfolding find claim
  find-claim now timeout c key j v [] slots' ne h q = cc
  find-claim now timeout c key j v (s ∷ rest) slots' ne h q =
      elim (Option-cases (claim now timeout c key v rest)) [
        | inl no_room ↦ ground arith
        | inr (rest', room) ↦ ground (arith, find-claim now timeout c key j v rest rest')
      ]

  pub Unique-modify :
      (now timeout : ℕ) (key : K) (slots : List (Slot K V)) (p : ℕ) (c : V → V)
      → 0 < now
      → find now timeout key slots ≡ some p
      → Unique now timeout slots
      → Unique now timeout (modify p (λ s. record s { value = c s.value; stamp = now }) slots)
  unfolding find modify
  Unique-modify now timeout key [] p c pos h u = tt
  Unique-modify now timeout key (s ∷ rest) zero c pos h u = (λ _. u.0 valid, u.1)
    where
      valid : entry_valid now timeout s ≡ true
      valid = ground arith
  Unique-modify now timeout key (s ∷ rest) (suc p) c pos h u = (
    λ v. find-modify now timeout key s.key rest p c pos behind ∙ u.0 v,
    Unique-modify now timeout key rest p c pos behind u.1,
  )
    where
      behind : find now timeout key rest ≡ some p
      behind = ground arith

  pub Unique-free :
      (now timeout : ℕ) (slots : List (Slot K V)) (p : ℕ)
      → Unique now timeout slots
      → Unique now timeout (modify p (λ s. record s { stamp = 0 }) slots)
  unfolding modify
  Unique-free now timeout [] p u = tt
  Unique-free now timeout (s ∷ rest) zero u = (λ v. cc (entry_valid_free now timeout s), u.1)
  Unique-free now timeout (s ∷ rest) (suc p) u =
      (λ v. find-free now timeout s.key rest p (u.0 v), Unique-free now timeout rest p u.1)

  pub Unique-claim :
      (now timeout : ℕ) (c : V → V → V) (key : K) (v : V) (slots slots' : List (Slot K V))
      → find now timeout key slots ≡ none
      → claim now timeout c key v slots ≡ some slots'
      → Unique now timeout slots
      → Unique now timeout slots'
  unfolding find claim
  Unique-claim now timeout c key v [] slots' h q u = cc
  Unique-claim now timeout c key v (s ∷ rest) slots' h q u =
      elim (Bool-cases (entry_valid now timeout s)) [
        | inl used ↦ elim (Option-cases (claim now timeout c key v rest)) [
          | inl no_room ↦ absurd (ground arith)
          | inr (rest', room) ↦ subst (Unique now timeout) (shape used rest' room) (
            λ valid. find-claim now timeout c key s.key v rest rest' (other used) (u.0 valid) room,
            Unique-claim now timeout c key v rest rest' behind room u.1,
          )
        ]
        | inr free ↦ subst (Unique now timeout) (taken free) (λ _. behind, u.1)
      ]
    where
      behind : find now timeout key rest ≡ none
      behind = ground arith

      other : entry_valid now timeout s ≡ true → e.beq s.key key ≡ false
      other used = ground (arith, beq_comm s.key key)

      taken :
          entry_valid now timeout s ≡ false
          → record { key = key; value = c s.value v; stamp = now } ∷ rest ≡ slots'
      taken free = ground arith

      shape :
          entry_valid now timeout s ≡ true
          → (rest' : List (Slot K V)) → claim now timeout c key v rest ≡ some rest'
          → s ∷ rest' ≡ slots'
      shape used rest' room = ground arith

  pub find-beq :
      (now timeout : ℕ) (a b : K) (slots : List (Slot K V))
      → e.beq a b ≡ true
      → find now timeout a slots ≡ find now timeout b slots
  find-beq now timeout a b slots h = ap (λ k. find now timeout k slots) ((e.beq_iff a b).0 h)

  pub lookup_slots-none :
      (now timeout : ℕ) (j : K) (slots : List (Slot K V))
      → find now timeout j slots ≡ none
      → lookup_slots now timeout j slots ≡ none
  unfolding find lookup_slots
  lookup_slots-none now timeout j [] h = refl
  lookup_slots-none now timeout j (s ∷ rest) h =
      ground (arith, lookup_slots-none now timeout j rest)

  pub lookup_slots-some :
      (now timeout : ℕ) (j : K) (slots : List (Slot K V)) (p : ℕ)
      → find now timeout j slots ≡ some p
      → lookup_slots now timeout j slots ≢ none
  unfolding find lookup_slots
  lookup_slots-some now timeout j [] p h = cc
  lookup_slots-some now timeout j (s ∷ rest) zero h = ground arith
  lookup_slots-some now timeout j (s ∷ rest) (suc p) h =
      ground (arith, lookup_slots-some now timeout j rest p)

  -- Deleting the one entry of a key leaves nothing under that key, and the other keys as they were.
  pub lookup_slots-free :
      (now timeout : ℕ) (key j : K) (slots : List (Slot K V)) (p : ℕ)
      → Unique now timeout slots
      → find now timeout key slots ≡ some p
      → lookup_slots now timeout j (modify p (λ s. record s { stamp = 0 }) slots)
        ≡ (if e.beq key j then none else lookup_slots now timeout j slots)
  unfolding find lookup_slots modify
  lookup_slots-free now timeout key j [] p u h = cc
  lookup_slots-free now timeout key j (s ∷ rest) zero u h = ground (
    arith,
    entry_valid_free now timeout s,
    u.0,
    beq-true key s.key j,
    beq_comm s.key j,
    find-beq now timeout s.key j rest,
    lookup_slots-none now timeout j rest,
  )
  lookup_slots-free now timeout key j (s ∷ rest) (suc p) u h = ground (
    arith,
    beq-true key j s.key,
    beq_comm j s.key,
    lookup_slots-free now timeout key j rest p u.1,
  )
