-- ===== src/Map/Invariant.antt =====
-- The representation invariant of the maps of src/map.c, kept by every operation and by the clock.
use hitsz_network_lab.Common.{
  ℕ, ◌^◌, ◌≤◌, ◌<◌, ◌≡◌, ◌≢◌, ◌∙◌, length, length-replicate, none, some, List, Eq, arith,
}
use hitsz_network_lab.Map.{Slot, Map, init, capacity, find, claim, set, delete}
use hitsz_network_lab.Map.Counting.{
  live, live-replicate, live_later, length-modify, length-claim, live-claim, live-modify, live-free,
}
use hitsz_network_lab.Map.Uniqueness.{
  Unique, Unique-replicate, Unique-later, Unique-modify, Unique-claim, Unique-free,
}
use hitsz_network_lab.Map.Cases.{set_cases, delete_cases, updated, extended, freed}

-- `size` counts the entries in use and those that have expired without being deleted.
pub record IsValid {ℓ κ} {K : Type ℓ} {V : Type κ} ⦃e : Eq K⦄ (now : ℕ) (m : Map K V) : Type 0 where
  pub full : length m.slots ≡ m.max_size
  pub counted : live now m.timeout m.slots ≤ m.size
  pub bounded : m.size ≤ m.max_size
  pub small : m.max_size < 2 ^ 64
  pub unique : Unique now m.timeout m.slots

module _ {ℓ κ} {K : Type ℓ} {V : Type κ} ⦃e : Eq K⦄ where
  pub init-IsValid :
      (now key_len value_len max_size timeout : ℕ) (c : V → V → V) (key : K) (v : V)
      → capacity key_len value_len max_size < 2 ^ 64
      → IsValid now (init key_len value_len max_size timeout c key v)
  unfolding init
  init-IsValid now key_len value_len max_size timeout c key v h = record {
    full = length-replicate _ _;
    counted = omega (arith, live-replicate now timeout (capacity key_len value_len max_size) key v);
    bounded = omega arith;
    small = h;
    unique = Unique-replicate now timeout _ key v;
  }

  -- A valid map stays valid as time goes by.
  pub later-IsValid : (now later : ℕ) (m : Map K V) → now ≤ later → IsValid now m → IsValid later m
  later-IsValid now later m h v = record {
    full = v.full;
    counted = omega (arith, live_later now later m.timeout m.slots h, v.counted);
    bounded = v.bounded;
    small = v.small;
    unique = Unique-later now later m.timeout m.slots h v.unique;
  }

  -- `map_set` at a time other than 0 leaves a valid map valid, whether it updates an entry, makes one
  -- or fails.
  pub set-IsValid :
      (now : ℕ) (m : Map K V) (key : K) (value : V)
      → 0 < now
      → IsValid now m
      → IsValid now (set now m key value).1
  set-IsValid now m key value pos v =
      set_cases (λ r. IsValid now r.1) now m key value update (λ _ _. v) (λ _ _ _. v) insert
    where
      update :
          (p : ℕ) → find now m.timeout key m.slots ≡ some p → IsValid now (updated now m value p)
      update p hit = record {
        full = length-modify p _ m.slots ∙ v.full;
        counted = omega (
          arith,
          live-modify now m.timeout key m.slots p (λ d. m.value_constructor d value) pos hit,
          v.counted,
        );
        bounded = v.bounded;
        small = v.small;
        unique = Unique-modify now m.timeout key m.slots p _ pos hit v.unique;
      }

      insert :
          (slots : List (Slot K V))
          → find now m.timeout key m.slots ≡ none
          → m.size ≢ m.max_size
          → claim now m.timeout m.value_constructor key value m.slots ≡ some slots
          → IsValid now (extended m slots)
      insert slots miss below room = record {
        full = length-claim now m.timeout _ key value m.slots slots room ∙ v.full;
        counted = omega (
          arith,
          live-claim now m.timeout _ key value m.slots slots pos room,
          v.counted,
          v.bounded,
          v.small,
        );
        bounded = omega (arith, v.bounded, v.small);
        small = v.small;
        unique = Unique-claim now m.timeout _ key value m.slots slots miss room v.unique;
      }

  -- `map_delete` leaves a valid map valid: the counter never falls below the number of entries in use.
  pub delete-IsValid :
      (now : ℕ) (m : Map K V) (key : K) → IsValid now m → IsValid now (delete now m key)
  delete-IsValid now m key v = delete_cases (λ r. IsValid now r) now m key free (λ _. v)
    where
      free : (p : ℕ) → find now m.timeout key m.slots ≡ some p → IsValid now (freed m p)
      free p hit = record {
        full = length-modify p _ m.slots ∙ v.full;
        counted =
            omega (arith, live-free now m.timeout key m.slots p hit, v.counted, v.bounded, v.small);
        bounded =
            omega (arith, live-free now m.timeout key m.slots p hit, v.counted, v.bounded, v.small);
        small = v.small;
        unique = Unique-free now m.timeout m.slots p v.unique;
      }
