-- ===== src/Map/Lifetime.antt =====
-- How long an entry of a map of src/map.c lives: `timeout` seconds past its last update, and for
-- ever if the timeout is 0.
use hitsz_network_lab.Common.{
  ℕ, zero, suc, ◌+◌, ◌≤◌, ◌<◌, ◌≡◌, refl, ◌∙◌, Bool, true, ◌||◌, none, some, List, [], ◌∷◌, ok, Eq,
  arith, ◌==◌, leb, if◌then◌else◌, Option-cases, inl, inr,
}
use hitsz_network_lab.Map.{Slot, Map, entry_valid, find, modify, claim, set, lookup}
use hitsz_network_lab.Map.Lookup.{lookup_slots, lookup-eq}
use hitsz_network_lab.Map.Counting.{entry_valid_later}
use hitsz_network_lab.Map.Uniqueness.{Unique, lookup_slots-none, find-later, find-beq}
use hitsz_network_lab.Map.Cases.{set_cases, updated, extended}
use hitsz_network_lab.Map.Invariant.{IsValid}

-- An entry stamped at `now` is still valid at `later`.
abbrev pub lives : ℕ → ℕ → ℕ → Bool
lives now later timeout = timeout == 0 || leb later (now + timeout)

stamped_later {ℓ κ} :
    {K : Type ℓ} {V : Type κ} (now later timeout : ℕ) (key : K) (v : V)
    → 0 < now
    → entry_valid later timeout (record { key = key; value = v; stamp = now })
      ≡ lives now later timeout
unfolding entry_valid
stamped_later now later timeout key v pos = ground arith

pub beq_self {ℓ} : {K : Type ℓ} ⦃e : Eq K⦄ (a : K) → e.beq a a ≡ true
beq_self ⦃e⦄ a = (e.beq_iff a a).1 refl

module _ {ℓ κ} {K : Type ℓ} {V : Type κ} ⦃e : Eq K⦄ where
  later-modify :
      (now later timeout : ℕ) (key : K) (slots : List (Slot K V)) (p : ℕ) (c : V → V) (w : V)
      → 0 < now
      → now ≤ later
      → ((d : V) → c d ≡ w)
      → Unique now timeout slots
      → find now timeout key slots ≡ some p
      → lookup_slots later timeout key
          (modify p (λ s. record s { value = c s.value; stamp = now }) slots)
        ≡ (if lives now later timeout then some w else none)
  unfolding find lookup_slots modify
  later-modify now later timeout key [] p c w pos h copies u q = cc
  later-modify now later timeout key (s ∷ rest) zero c w pos h copies u q = ground (
    arith,
    stamped_later now later timeout s.key (c s.value) pos,
    copies s.value,
    u.0,
    find-beq now timeout key s.key rest,
    find-later now later timeout key rest h,
    lookup_slots-none later timeout key rest,
  )
  later-modify now later timeout key (s ∷ rest) (suc p) c w pos h copies u q = ground (
    arith,
    entry_valid_later now later timeout s h,
    later-modify now later timeout key rest p c w pos h copies u.1,
  )

  later-claim :
      (now later timeout : ℕ) (key : K) (v : V) (slots slots' : List (Slot K V)) (c : V → V → V)
      (w : V)
      → 0 < now
      → now ≤ later
      → ((d : V) → c d v ≡ w)
      → find now timeout key slots ≡ none
      → claim now timeout c key v slots ≡ some slots'
      → lookup_slots later timeout key slots' ≡ (if lives now later timeout then some w else none)
  unfolding find lookup_slots claim
  later-claim now later timeout key v [] slots' c w pos h copies miss q = cc
  later-claim now later timeout key v (s ∷ rest) slots' c w pos h copies miss q =
      elim (Option-cases (claim now timeout c key v rest)) [
        | inl no_room ↦ ground (
          arith,
          stamped_later now later timeout key (c s.value v) pos,
          beq_self key,
          copies s.value,
          find-later now later timeout key rest h,
          lookup_slots-none later timeout key rest,
        )
        | inr (rest', room) ↦ ground (
          arith,
          later-claim now later timeout key v rest rest' c w pos h copies,
          entry_valid_later now later timeout s h,
          stamped_later now later timeout key (c s.value v) pos,
          beq_self key,
          copies s.value,
          find-later now later timeout key rest h,
          lookup_slots-none later timeout key rest,
        )
      ]

  -- In a valid map, an entry that a successful `map_set` wrote at a time `now` other than 0 is found at
  -- a later time exactly while it lives: for ever if the timeout is 0, and up to `timeout` seconds later
  -- otherwise. Its value is `w`, which the constructor makes of the given one.
  pub lookup-set_later :
      (now later : ℕ) (m : Map K V) (key : K) (value w : V)
      → 0 < now
      → now ≤ later
      → ((d : V) → m.value_constructor d value ≡ w)
      → IsValid now m
      → (set now m key value).0 ≡ ok
      → lookup later (set now m key value).1 key
        ≡ (if m.timeout == 0 || leb later (now + m.timeout) then some w else none)
  lookup-set_later now later m key value w pos h copies v =
      set_cases
        (λ r.
          r.0 ≡ ok → lookup later r.1 key ≡ (if lives now later m.timeout then some w else none))
        now m key value
        (λ p hit _.
          lookup-eq later (updated now m value p) key
          ∙ later-modify now later m.timeout key m.slots p (λ d. m.value_constructor d value) w pos
              h copies v.unique hit)
        (λ _ _ b. cc) (λ _ _ _ b. cc)
        (λ slots miss _ room _.
          lookup-eq later (extended m slots) key
          ∙ later-claim now later m.timeout key value m.slots slots m.value_constructor w pos h
              copies miss room)
