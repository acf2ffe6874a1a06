-- ===== src/Map/Laws.antt =====
-- The maps of src/map.c behave as finite maps from keys to values with a lifetime.
use hitsz_network_lab.Common.{
  ℕ, ◌<◌, ◌≡◌, refl, ◌∙◌, ◌↔◌, none, some, ok, failed, Eq, arith, if◌then◌else◌,
}
use hitsz_network_lab.Map.{Map, find, set, delete, lookup}
use hitsz_network_lab.Map.Lookup.{lookup-eq, lookup_slots-modify, lookup_slots-claim}
use hitsz_network_lab.Map.Counting.{claim-eq-none}
use hitsz_network_lab.Map.Uniqueness.{
  lookup_slots-free, lookup_slots-none, lookup_slots-some, find-beq,
}
use hitsz_network_lab.Map.Cases.{set_cases, delete_cases, updated, extended, freed}
use hitsz_network_lab.Map.Invariant.{IsValid}

module _ {ℓ κ} {K : Type ℓ} {V : Type κ} ⦃e : Eq K⦄ where
  -- At a time other than 0, a successful `map_set` maps its key to `w`, which the constructor makes of
  -- the value, and every other key as before; a failed one changes nothing.
  pub lookup-set :
      (now : ℕ) (m : Map K V) (key : K) (value w : V) (j : K)
      → 0 < now
      → ((d : V) → m.value_constructor d value ≡ w)
      → ((set now m key value).0 ≡ ok
          → lookup now (set now m key value).1 j ≡ (if e.beq key j then some w else lookup now m j))
        × ((set now m key value).0 ≡ failed → (set now m key value).1 ≡ m)
  lookup-set now m key value w j pos copies =
      set_cases
        (λ r.
          (r.0 ≡ ok → lookup now r.1 j ≡ (if e.beq key j then some w else lookup now m j))
          × (r.0 ≡ failed → r.1 ≡ m))
        now m key value
        (λ p hit. (
          λ _.
              rw (lookup-eq now (updated now m value p) j, lookup-eq now m j)
                (lookup_slots-modify now m.timeout key m.slots p (λ d. m.value_constructor d value)
                  w j pos copies hit),
          λ b. cc,
        ))
        (λ _ _. (λ b. cc, λ _. refl)) (λ _ _ _. (λ b. cc, λ _. refl))
        (λ slots miss _ room. (
          λ _.
              rw (lookup-eq now (extended m slots) j, lookup-eq now m j)
                (lookup_slots-claim now m.timeout key value m.slots slots m.value_constructor w j
                  pos copies miss room),
          λ b. cc,
        ))

  -- In a valid map, after `map_delete` the key is mapped to nothing, and every other key as before.
  pub lookup-delete :
      (now : ℕ) (m : Map K V) (key j : K)
      → IsValid now m
      → lookup now (delete now m key) j ≡ (if e.beq key j then none else lookup now m j)
  lookup-delete now m key j v =
      delete_cases (λ r. lookup now r j ≡ (if e.beq key j then none else lookup now m j)) now m key
        (λ p hit.
          rw (lookup-eq now (freed m p) j, lookup-eq now m j)
            (lookup_slots-free now m.timeout key j m.slots p v.unique hit))
        (λ miss. ground (
          arith,
          lookup-eq now m j,
          find-beq now m.timeout key j m.slots,
          lookup_slots-none now m.timeout j m.slots,
        ))

  -- In a valid map, `map_set` fails exactly if the key is not in use and the counter stands at the
  -- capacity.
  pub set-eq-failed :
      (now : ℕ) (m : Map K V) (key : K) (value : V)
      → IsValid now m
      → ((set now m key value).0 ≡ failed) ↔ ((lookup now m key ≡ none) × (m.size ≡ m.max_size))
  set-eq-failed now m key value v =
      set_cases (λ r. (r.0 ≡ failed) ↔ ((lookup now m key ≡ none) × (m.size ≡ m.max_size))) now m
        key value
        (λ p hit. (
          λ b. cc,
          λ b.
              absurd (
                lookup_slots-some now m.timeout key m.slots p hit (rw (← lookup-eq now m key) b.0)),
        ))
        (λ miss at_max. (λ _. (absent miss, at_max), λ _. refl))
        (λ miss below no_room. absurd (
          omega (
            arith,
            claim-eq-none now m.timeout _ key value m.slots no_room,
            v.full,
            v.counted,
            v.bounded,
          )))
        (λ slots miss below room. (λ b. cc, λ b. absurd (below b.1)))
    where
      absent : find now m.timeout key m.slots ≡ none → lookup now m key ≡ none
      absent miss = lookup-eq now m key ∙ lookup_slots-none now m.timeout key m.slots miss
