-- ===== src/Map/Later.antt =====
-- What `map_set` and `map_delete` of src/map.c leave in the map at any later time.
use hitsz_network_lab.Common.{
  ℕ, zero, suc, ◌≤◌, ◌≡◌, ◌∙◌, refl, ap, false, none, some, List, [], ◌∷◌, Eq, arith, Option-cases,
  inl, inr, if◌then◌else◌,
}
use hitsz_network_lab.Map.{Slot, Map, find, modify, claim, set, delete, lookup}
use hitsz_network_lab.Map.Lookup.{lookup_slots, lookup-eq, beq-true, beq_comm}
use hitsz_network_lab.Map.Counting.{entry_valid_later}
use hitsz_network_lab.Map.Uniqueness.{
  Unique, find-later, lookup_slots-none, lookup_slots-some, lookup_slots-free,
}
use hitsz_network_lab.Map.Cases.{set_cases, delete_cases, updated, extended, freed}
use hitsz_network_lab.Map.Invariant.{IsValid}
use hitsz_network_lab.Map.Lifetime.{beq_self}

module _ {ℓ κ} {K : Type ℓ} {V : Type κ} ⦃e : Eq K⦄ where
  -- A change of the slot of one key that keeps the key is not seen under another.
  other-modify :
      (now later timeout : ℕ) (key j : K) (slots : List (Slot K V)) (p : ℕ)
      (f : Slot K V → Slot K V)
      → e.beq key j ≡ false
      → ((s : Slot K V) → (f s).key ≡ s.key)
      → find now timeout key slots ≡ some p
      → lookup_slots later timeout j (modify p f slots) ≡ lookup_slots later timeout j slots
  unfolding find lookup_slots modify
  other-modify now later timeout key j [] p f differ keeps q = cc
  other-modify now later timeout key j (s ∷ rest) zero f differ keeps q =
      ground (arith, keeps s, beq-true key s.key j, beq_comm s.key j)
  other-modify now later timeout key j (s ∷ rest) (suc p) f differ keeps q =
      ground (arith, other-modify now later timeout key j rest p f differ keeps)

  other-claim :
      (now later timeout : ℕ) (key j : K) (v : V) (slots slots' : List (Slot K V)) (c : V → V → V)
      → e.beq key j ≡ false
      → now ≤ later
      → claim now timeout c key v slots ≡ some slots'
      → lookup_slots later timeout j slots' ≡ lookup_slots later timeout j slots
  unfolding lookup_slots claim
  other-claim now later timeout key j v [] slots' c differ h q = cc
  other-claim now later timeout key j v (s ∷ rest) slots' c differ h q =
      elim (Option-cases (claim now timeout c key v rest)) [
        | inl no_room ↦ ground (arith, beq_comm key j, entry_valid_later now later timeout s h)
        | inr (rest', room) ↦ ground (
          arith,
          other-claim now later timeout key j v rest rest' c differ h,
          beq_comm key j,
          entry_valid_later now later timeout s h,
        )
      ]

  pub lookup-set_other :
      (now later : ℕ) (m : Map K V) (key : K) (value : V) (j : K)
      → e.beq key j ≡ false
      → now ≤ later
      → lookup later (set now m key value).1 j ≡ lookup later m j
  lookup-set_other now later m key value j differ h =
      set_cases (λ r. lookup later r.1 j ≡ lookup later m j) now m key value
        (λ p hit.
          rw (lookup-eq later (updated now m value p) j, lookup-eq later m j)
            (other-modify now later m.timeout key j m.slots p
              (λ s. record s { value = m.value_constructor s.value value; stamp = now }) differ
              (λ s. refl) hit))
        (λ _ _. refl) (λ _ _ _. refl)
        (λ slots _ _ room.
          rw (lookup-eq later (extended m slots) j, lookup-eq later m j)
            (other-claim now later m.timeout key j value m.slots slots m.value_constructor differ h
              room))

  deleted :
      (now later timeout : ℕ) (key : K) (slots : List (Slot K V)) (p : ℕ)
      → now ≤ later
      → Unique now timeout slots
      → find now timeout key slots ≡ some p
      → find later timeout key (modify p (λ s. record s { stamp = 0 }) slots) ≡ none
  deleted now later timeout key slots p h u hit =
      let slots' = modify p (λ s. record s { stamp = 0 }) slots in
      find-later now later timeout key slots' h (elim (Option-cases (find now timeout key slots')) [
        | inl miss ↦ miss
        | inr (q, still) ↦ absurd (
            lookup_slots-some now timeout key slots' q still (
              lookup_slots-free now timeout key key slots p u hit
              ∙ ap (λ b. if b then none else lookup_slots now timeout key slots) (beq_self key)))
      ])

  -- A deleted key stays away, and the other keys are seen as they would have been.
  pub lookup-delete_self :
      (now later : ℕ) (m : Map K V) (key : K)
      → now ≤ later
      → IsValid now m
      → lookup later (delete now m key) key ≡ none
  lookup-delete_self now later m key h v =
      delete_cases (λ r. lookup later r key ≡ none) now m key
        (λ p hit.
          lookup-eq later (freed m p) key
          ∙ lookup_slots-none later m.timeout key (freed m p).slots
              (deleted now later m.timeout key m.slots p h v.unique hit))
        (λ miss.
          lookup-eq later m key
          ∙ lookup_slots-none later m.timeout key m.slots
              (find-later now later m.timeout key m.slots h miss))

  pub lookup-delete_other :
      (now later : ℕ) (m : Map K V) (key j : K)
      → e.beq key j ≡ false
      → lookup later (delete now m key) j ≡ lookup later m j
  lookup-delete_other now later m key j differ =
      delete_cases (λ r. lookup later r j ≡ lookup later m j) now m key
        (λ p hit.
          rw (lookup-eq later (freed m p) j, lookup-eq later m j)
            (other-modify now later m.timeout key j m.slots p (λ s. record s { stamp = 0 }) differ
              (λ s. refl) hit))
        (λ _. refl)
