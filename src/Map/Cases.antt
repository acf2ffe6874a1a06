-- ===== src/Map/Cases.antt =====
-- The branches of `map_set` and `map_delete` of src/map.c, as case rules for the proofs.
use hitsz_network_lab.Common.{
  ℕ, ◌≡◌, ◌≢◌, inl, inr, false, Bool-cases, ==_iff, none, some, List, Option-cases, Eq, ok, failed,
  Status, ◌==◌, arith,
}
use hitsz_network_lab.Map.{Slot, Map, find, modify, claim, set, delete, size_add, size_sub}

module _ {ℓ κ} {K : Type ℓ} {V : Type κ} ⦃e : Eq K⦄ where
  -- The map after an update in place, and after a new entry.
  abbrev pub updated : ℕ → Map K V → V → ℕ → Map K V
  updated now m value p = record m {
    slots =
        modify p (λ s. record s { value = m.value_constructor s.value value; stamp = now }) m.slots;
  }

  abbrev pub extended : Map K V → List (Slot K V) → Map K V
  extended m slots = record m { slots = slots; size = size_add m.size 1 }

  abbrev pub freed : Map K V → ℕ → Map K V
  freed m p = record m {
    slots = modify p (λ s. record s { stamp = 0 }) m.slots;
    size = size_sub m.size 1;
  }

  pub set_cases {μ} :
      (P : Status × Map K V → Type μ) (now : ℕ) (m : Map K V) (key : K) (value : V)
      → ((p : ℕ) → find now m.timeout key m.slots ≡ some p → P (ok, updated now m value p))
      → (find now m.timeout key m.slots ≡ none → m.size ≡ m.max_size → P (failed, m))
      → (find now m.timeout key m.slots ≡ none
          → m.size ≢ m.max_size
          → claim now m.timeout m.value_constructor key value m.slots ≡ none
          → P (failed, m))
      → ((slots : List (Slot K V))
          → find now m.timeout key m.slots ≡ none
          → m.size ≢ m.max_size
          → claim now m.timeout m.value_constructor key value m.slots ≡ some slots
          → P (ok, extended m slots))
      → P (set now m key value)
  unfolding set
  set_cases P now m key value present full stuck new =
      elim (Option-cases (find now m.timeout key m.slots)) [
        | inr (p, hit) ↦ rw (hit, set) (present p hit)
        | inl miss ↦ elim (Bool-cases (m.size == m.max_size)) [
          | inl at_max ↦ rw (miss, set, at_max) (full miss ((==_iff _ _).0 at_max))
          | inr below ↦
              elim (Option-cases (claim now m.timeout m.value_constructor key value m.slots)) [
                | inl no_room ↦ rw (miss, set, below, no_room) (stuck miss (differs below) no_room)
                | inr (slots, room) ↦
                    rw (miss, set, below, room) (new slots miss (differs below) room)
              ]
        ]
      ]
    where
      differs : (m.size == m.max_size) ≡ false → m.size ≢ m.max_size
      differs below = ground arith

  pub delete_cases {μ} :
      (P : Map K V → Type μ) (now : ℕ) (m : Map K V) (key : K)
      → ((p : ℕ) → find now m.timeout key m.slots ≡ some p → P (freed m p))
      → (find now m.timeout key m.slots ≡ none → P m)
      → P (delete now m key)
  unfolding delete
  delete_cases P now m key hit miss = elim (Option-cases (find now m.timeout key m.slots)) [
    | inr (p, q) ↦ rw (q, delete) (hit p q)
    | inl q ↦ rw (q, delete) (miss q)
  ]
