-- ===== src/Map/Lookup.antt =====
-- The slot array of src/map.c seen as a function from keys to values.
use hitsz_network_lab.Common.{
  ◌↔◌, ℕ, zero, suc, ◌<◌, ◌≡◌, refl, sym, ap, inl, inr, true, ◌&&◌, Option, none, some, List, [],
  ◌∷◌, Option-cases, if◌then◌else◌, Eq, arith,
}
use hitsz_network_lab.Map.{Slot, Map, entry_valid, find, modify, claim, lookup, value_at}

pub beq_comm {ℓ} : {K : Type ℓ} ⦃e : Eq K⦄ (a b : K) → e.beq a b ≡ e.beq b a
beq_comm ⦃e⦄ a b = ground (arith, e.beq_iff a b, e.beq_iff b a, flip)
  where
    flip : (a ≡ b) ↔ (b ≡ a)
    flip = (sym, sym)

pub beq-true {ℓ} : {K : Type ℓ} ⦃e : Eq K⦄ (a b j : K) → e.beq a b ≡ true → e.beq a j ≡ e.beq b j
beq-true ⦃e⦄ a b j h = ap (λ x. e.beq x j) ((e.beq_iff a b).0 h)

-- A stamp in the present is valid.
pub entry_valid_now {ℓ κ} :
    {K : Type ℓ} {V : Type κ} (now timeout : ℕ) (key : K) (v : V)
    → 0 < now
    → entry_valid now timeout (record { key = key; value = v; stamp = now }) ≡ true
unfolding entry_valid
entry_valid_now now timeout key v pos = ground arith

module _ {ℓ κ} {K : Type ℓ} {V : Type κ} ⦃e : Eq K⦄ where
  -- The value of the first valid slot with the key.
  unfoldable pub lookup_slots : ℕ → ℕ → K → List (Slot K V) → Option V
  lookup_slots now timeout key [] = none
  lookup_slots now timeout key (s ∷ rest) =
      if entry_valid now timeout s && e.beq key s.key
      then some s.value
      else lookup_slots now timeout key rest

  found : List (Slot K V) → Option ℕ → Option V
  found slots none = none
  found slots (some p) = value_at slots p

  found-find :
      (now timeout : ℕ) (key : K) (slots : List (Slot K V))
      → found slots (find now timeout key slots) ≡ lookup_slots now timeout key slots
  unfolding find found lookup_slots
  found-find now timeout key [] = refl
  found-find now timeout key (s ∷ rest) = ground (arith, found-find now timeout key rest)

  pub lookup-eq :
      (now : ℕ) (m : Map K V) (key : K) → lookup now m key ≡ lookup_slots now m.timeout key m.slots
  unfolding lookup found
  lookup-eq now m key = ground (arith, found-find now m.timeout key m.slots)

  -- An update through the pointer changes what its key is mapped to, and nothing else.
  pub lookup_slots-modify :
      (now timeout : ℕ) (key : K) (slots : List (Slot K V)) (p : ℕ) (c : V → V) (w : V) (j : K)
      → 0 < now
      → ((d : V) → c d ≡ w)
      → find now timeout key slots ≡ some p
      → lookup_slots now timeout j
          (modify p (λ s. record s { value = c s.value; stamp = now }) slots)
        ≡ (if e.beq key j then some w else lookup_slots now timeout j slots)
  unfolding find lookup_slots modify
  lookup_slots-modify now timeout key [] p c w j pos copies h = cc
  lookup_slots-modify now timeout key (s ∷ rest) zero c w j pos copies h = ground (
    arith,
    entry_valid_now now timeout s.key (c s.value) pos,
    copies s.value,
    beq-true key s.key j,
    beq_comm s.key j,
  )
  lookup_slots-modify now timeout key (s ∷ rest) (suc p) c w j pos copies h =
      ground
        (arith, beq-true key j s.key, lookup_slots-modify now timeout key rest p c w j pos copies)

  -- So does a new entry, in a slot that was free.
  pub lookup_slots-claim :
      (now timeout : ℕ) (key : K) (v : V) (slots slots' : List (Slot K V)) (c : V → V → V) (w : V)
      (j : K)
      → 0 < now
      → ((d : V) → c d v ≡ w)
      → find now timeout key slots ≡ none
      → claim now timeout c key v slots ≡ some slots'
      → lookup_slots now timeout j slots'
        ≡ (if e.beq key j then some w else lookup_slots now timeout j slots)
  unfolding find lookup_slots claim
  lookup_slots-claim now timeout key v [] slots' c w j pos copies h q = cc
  lookup_slots-claim now timeout key v (s ∷ rest) slots' c w j pos copies h q =
      elim (Option-cases (claim now timeout c key v rest)) [
        | inl no_room ↦ ground (
          arith,
          beq_comm key j,
          entry_valid_now now timeout key (c s.value v) pos,
          copies s.value,
        )
        | inr (rest', room) ↦ ground (
          arith,
          lookup_slots-claim now timeout key v rest rest' c w j pos copies,
          beq-true key j s.key,
          beq_comm key j,
          entry_valid_now now timeout key (c s.value v) pos,
          copies s.value,
        )
      ]
