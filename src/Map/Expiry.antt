-- ===== src/Map/Expiry.antt =====
-- What becomes of a map of src/map.c whose entries expire: `map_set` takes an expired slot again and
-- counts it once more, so the counter runs up to the capacity while no entry is in use.
use hitsz_network_lab.Common.{
  ℕ, zero, suc, ◌+◌, ◌≤◌, ◌<◌, ◌≡◌, ◌≢◌, refl, sym, subst, ◌∙◌, Bool-cases, true, false, none, some,
  List, [], ◌∷◌, failed, Eq, arith, Option-cases, inl, inr, length, replicate,
}
use native.Mathlib.Nat.{le_refl}
use hitsz_network_lab.Map.{Slot, Map, entry_valid, find, claim, set, lookup}
use hitsz_network_lab.Map.Lookup.{lookup-eq}
use hitsz_network_lab.Map.Counting.{live, claim-eq-none}
use hitsz_network_lab.Map.Uniqueness.{lookup_slots-none}
use hitsz_network_lab.Map.Cases.{set_cases}
use hitsz_network_lab.Map.Invariant.{IsValid, set-IsValid, later-IsValid}

some≢none : {p : ℕ} → some p ≢ none
some≢none q = cc

module _ {ℓ κ} {K : Type ℓ} {V : Type κ} where
  -- No slot was written after `last`.
  abbrev pub StampedBy : ℕ → List (Slot K V) → Type 0
  StampedBy last [] = Unit
  StampedBy last (s ∷ rest) = (s.stamp ≤ last) × StampedBy last rest

  StampedBy-later :
      (last now : ℕ) (slots : List (Slot K V))
      → last ≤ now
      → StampedBy last slots
      → StampedBy now slots
  StampedBy-later last now [] h b = tt
  StampedBy-later last now (s ∷ rest) h b = (omega arith, StampedBy-later last now rest h b.1)

  pub StampedBy-replicate :
      (n : ℕ) (key : K) (v : V)
      → StampedBy 0 (replicate n (record { key = key; value = v; stamp = 0 }))
  StampedBy-replicate zero key v = tt
  StampedBy-replicate (suc n) key v = (omega arith, StampedBy-replicate n key v)

  StampedBy-claim :
      (now timeout : ℕ) (c : V → V → V) (key : K) (v : V) (slots slots' : List (Slot K V))
      → claim now timeout c key v slots ≡ some slots'
      → StampedBy now slots
      → StampedBy now slots'
  unfolding claim
  StampedBy-claim now timeout c key v [] slots' q b = cc
  StampedBy-claim now timeout c key v (s ∷ rest) slots' q b =
      elim (Bool-cases (entry_valid now timeout s)) [
        | inl used ↦ elim (Option-cases (claim now timeout c key v rest)) [
          | inl no_room ↦ absurd (ground arith)
          | inr (rest', room) ↦
              subst (StampedBy now) (shape used rest' room)
                (b.0, StampedBy-claim now timeout c key v rest rest' room b.1)
        ]
        | inr free ↦ subst (StampedBy now) (taken free) (le_refl now, b.1)
      ]
    where
      taken :
          entry_valid now timeout s ≡ false
          → record { key = key; value = c s.value v; stamp = now } ∷ rest ≡ slots'
      taken free = ground arith

      shape :
          entry_valid now timeout s ≡ true
          → (rest' : List (Slot K V)) → claim now timeout c key v rest ≡ some rest'
          → s ∷ rest' ≡ slots'
      shape used rest' room = ground arith

  expired_entry :
      (last now timeout : ℕ) (s : Slot K V)
      → timeout ≢ 0
      → last + timeout < now
      → s.stamp ≤ last
      → entry_valid now timeout s ≡ false
  unfolding entry_valid
  expired_entry last now timeout s t h b = ground arith

  live_expired :
      (last now timeout : ℕ) (slots : List (Slot K V))
      → timeout ≢ 0
      → last + timeout < now
      → StampedBy last slots
      → live now timeout slots ≡ 0
  unfolding live
  live_expired last now timeout [] t h b = refl
  live_expired last now timeout (s ∷ rest) t h b =
      ground (
        arith,
        expired_entry last now timeout s t h b.0,
        live_expired last now timeout rest t h b.1,
      )

module _ {ℓ κ} {K : Type ℓ} {V : Type κ} ⦃e : Eq K⦄ where
  find_expired :
      (last now timeout : ℕ) (key : K) (slots : List (Slot K V))
      → timeout ≢ 0
      → last + timeout < now
      → StampedBy last slots
      → find now timeout key slots ≡ none
  unfolding find
  find_expired last now timeout key [] t h b = refl
  find_expired last now timeout key (s ∷ rest) t h b = ground (
    arith,
    expired_entry last now timeout s t h b.0,
    find_expired last now timeout key rest t h b.1,
  )

  -- What holds of a map at the time `last` of its latest update.
  pub record IsStale (last : ℕ) (m : Map K V) : Type 0 where
    pub valid : IsValid last m
    pub timed : m.timeout ≢ 0
    pub old : StampedBy last m.slots

  set-IsStale :
      (last now : ℕ) (m : Map K V) (key : K) (value : V)
      → IsStale last m
      → last + m.timeout < now
      → m.size ≢ m.max_size
      → IsStale now (set now m key value).1
        × ((set now m key value).1.size ≡ suc m.size)
        × ((set now m key value).1.max_size ≡ m.max_size)
        × ((set now m key value).1.timeout ≡ m.timeout)
  set-IsStale last now m key value v h below =
      set_cases
        (λ r.
          IsValid now r.1
          → IsStale now r.1
            × (r.1.size ≡ suc m.size)
            × (r.1.max_size ≡ m.max_size)
            × (r.1.timeout ≡ m.timeout))
        now m key value (λ p hit _. absurd (some≢none (sym hit ∙ unused)))
        (λ _ at_max _. absurd (below at_max))
        (λ _ _ no_room _. absurd (
          omega (
            arith,
            claim-eq-none now m.timeout _ key value m.slots no_room,
            none_live,
            v.valid.full,
            v.valid.bounded,
          )))
        (λ slots _ _ room valid. (
          record {
            valid = valid;
            timed = v.timed;
            old =
                StampedBy-claim now m.timeout _ key value m.slots slots room
                  (StampedBy-later last now m.slots (omega arith) v.old);
          },
          omega (arith, v.valid.bounded, v.valid.small),
          refl,
          refl,
        ))
        (set-IsValid now m key value (omega arith) (later-IsValid last now m (omega arith) v.valid))
    where
      unused : find now m.timeout key m.slots ≡ none
      unused = find_expired last now m.timeout key m.slots v.timed h v.old

      none_live : live now m.timeout m.slots ≡ 0
      none_live = live_expired last now m.timeout m.slots v.timed h v.old

  -- `map_set` called at each of the times, in order.
  pub sets : Map K V → List (ℕ × K × V) → Map K V
  sets m [] = m
  sets m ((now, key, value) ∷ ops) = sets (set now m key value).1 ops

  -- Each time lies more than `timeout` seconds after the one before.
  abbrev pub IsSpaced : ℕ → ℕ → List (ℕ × K × V) → Type 0
  IsSpaced timeout last [] = Unit
  IsSpaced timeout last ((now, key, value) ∷ ops) =
      (last + timeout < now) × IsSpaced timeout now ops

  abbrev pub last_time : ℕ → List (ℕ × K × V) → ℕ
  last_time last [] = last
  last_time last ((now, key, value) ∷ ops) = last_time now ops

  -- In a map with a timeout whose entries are never deleted, `map_set` with long pauses in between uses
  -- up the capacity: once it was called as often as the counter was below the capacity, each call more
  -- than a timeout after the one before, and a timeout has passed again, no key is mapped to anything,
  -- and yet `map_set` fails for every key and changes nothing.
  pub sets_exhaust :
      (last now : ℕ) (m : Map K V) (ops : List (ℕ × K × V)) (key : K) (value : V)
      → IsStale last m
      → IsSpaced m.timeout last ops
      → m.size + length ops ≡ m.max_size
      → last_time last ops + m.timeout < now
      → (lookup now (sets m ops) key ≡ none)
        × (set now (sets m ops) key value ≡ (failed, sets m ops))
  unfolding sets
  sets_exhaust last now m [] key value v sp full h = (
    lookup-eq now m key ∙ lookup_slots-none now m.timeout key m.slots unused,
    set_cases (λ r. r ≡ (failed, m)) now m key value
        (λ p hit. absurd (some≢none (sym hit ∙ unused))) (λ _ _. refl) (λ _ _ _. refl)
        (λ _ _ below _. absurd (below (omega arith))),
  )
    where
      unused : find now m.timeout key m.slots ≡ none
      unused = find_expired last now m.timeout key m.slots v.timed h v.old
  sets_exhaust last now m ((t, k, x) ∷ ops) key value v sp full h =
      let (stale, grown, max, timed) = set-IsStale last t m k x v sp.0 (omega arith) in
      sets_exhaust t now (set t m k x).1 ops key value stale (rw timed sp.1) (omega arith)
        (omega arith)
