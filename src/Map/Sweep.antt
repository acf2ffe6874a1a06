-- ===== src/Map/Sweep.antt =====
-- Which slot `map_get` of src/map.c finds, and what `map_delete` does to the slots, for loops over them.
use hitsz_network_lab.Common.{
  ℕ, zero, suc, ◌≡◌, ◌≤◌, ◌<◌, refl, ap, subst, ◌≢◌, ◌⊎◌, true, false, some, List, [], ◌∷◌, length,
  get_elem?, Eq, arith, Bool-cases, inl, inr, ◌&&◌,
}
use hitsz_network_lab.Map.{Slot, entry_valid, find, modify}

module _ {ℓ κ} {K : Type ℓ} {V : Type κ} where
  pub get_elem?-modify :
      (p i : ℕ) (f : Slot K V → Slot K V) (slots : List (Slot K V)) (s : Slot K V)
      → get_elem? (modify p f slots) i ≡ some s
      → (p ≡ i) × ((t : Slot K V) × (get_elem? slots i ≡ some t) × (f t ≡ s))
        ⊎ ((p ≢ i) × (get_elem? slots i ≡ some s))
  unfolding modify
  get_elem?-modify p i f [] s h = cc
  get_elem?-modify zero zero f (x ∷ rest) s h = inl (refl, (x, refl, cc))
  get_elem?-modify zero (suc i) f (x ∷ rest) s h = inr (λ e. omega arith, h)
  get_elem?-modify (suc p) zero f (x ∷ rest) s h = inr (λ e. omega arith, h)
  get_elem?-modify (suc p) (suc i) f (x ∷ rest) s h = elim (get_elem?-modify p i f rest s h) [
    | inl (e, r) ↦ inl (ap suc e, r)
    | inr (ne, r) ↦ inr (λ e. ne (omega arith), r)
  ]

module _ {ℓ κ} {K : Type ℓ} {V : Type κ} ⦃e : Eq K⦄ where
  -- The slot that is found.
  pub find-slot :
      (now timeout : ℕ) (key : K) (slots : List (Slot K V)) (p : ℕ)
      → find now timeout key slots ≡ some p
      → (s : Slot K V) × (get_elem? slots p ≡ some s)
        × (entry_valid now timeout s ≡ true)
        × (e.beq key s.key ≡ true)
        × (p < length slots)
  unfolding find
  find-slot now timeout key [] p h = cc
  find-slot now timeout key (s ∷ rest) zero h = (s, refl, ground arith, ground arith, omega arith)
  find-slot now timeout key (s ∷ rest) (suc p) h =
      let (t, at, valid, same, below) = find-slot now timeout key rest p (ground arith) in
      (t, at, valid, same, omega arith)

  -- The first slot with the key does not stand behind another one.
  pub find-first :
      (now timeout : ℕ) (key : K) (slots : List (Slot K V)) (i : ℕ) (s : Slot K V)
      → get_elem? slots i ≡ some s
      → entry_valid now timeout s ≡ true
      → e.beq key s.key ≡ true
      → (p : ℕ) × (find now timeout key slots ≡ some p) × (p ≤ i)
  unfolding find
  find-first now timeout key [] i s h v b = cc
  find-first now timeout key (x ∷ rest) zero s h v b = (
    0,
    shown (subst (λ t. entry_valid now timeout t ≡ true) s-eq v)
        (subst (λ t. e.beq key t.key ≡ true) s-eq b),
    omega arith,
  )
    where
      s-eq : s ≡ x
      s-eq = cc

      shown :
          entry_valid now timeout x ≡ true
          → e.beq key x.key ≡ true
          → find now timeout key (x ∷ rest) ≡ some 0
      shown v' b' = ground arith
  find-first now timeout key (x ∷ rest) (suc i) s h v b =
      elim (Bool-cases (entry_valid now timeout x && e.beq key x.key)) [
        | inl here ↦ (0, ground arith, omega arith)
        | inr later ↦
            let (p, hit, below) = find-first now timeout key rest i s h v b in
            (suc p, further later p hit, omega arith)
      ]
    where
      further :
          (entry_valid now timeout x && e.beq key x.key) ≡ false
          → (p : ℕ) → find now timeout key rest ≡ some p
          → find now timeout key (x ∷ rest) ≡ some (suc p)
      further later p hit = ground arith
