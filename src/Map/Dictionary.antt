-- ===== src/Map/Dictionary.antt =====
-- The contract of src/map.c: a dictionary that knows of each key the value and the time it was
-- written, and of the storage only how many slots are taken.
use hitsz_network_lab.Common.{
  ℕ, ◌+◌, ◌-◌, Option, none, some, List, [], ◌∷◌, Status, ok, failed, ◌==◌, if◌then◌else◌, Eq,
}
use hitsz_network_lab.Map.{Map, set, delete}
use hitsz_network_lab.Map.Lifetime.{lives}

-- A call, by what it is given.
pub data Call {ℓ κ} (K : Type ℓ) (V : Type κ) : Type (ℓ ⊔ κ) where
  put : K → V → Call K V
  remove : K → Call K V

-- `used` counts the slots that were taken and not given back by `map_delete`.
pub record Dictionary {ℓ κ} (K : Type ℓ) (V : Type κ) : Type (ℓ ⊔ κ) where
  pub entries : K → Option (V × ℕ)
  pub used : ℕ
  pub capacity : ℕ
  pub timeout : ℕ

abbrev pub empty_dictionary {ℓ κ} : {K : Type ℓ} {V : Type κ} → ℕ → ℕ → Dictionary K V
empty_dictionary capacity timeout = record {
  entries = λ _. none;
  used = 0;
  capacity = capacity;
  timeout = timeout;
}

abbrev pub alive {κ} : {V : Type κ} → ℕ → ℕ → Option (V × ℕ) → Option V
alive now timeout none = none
alive now timeout (some (value, written)) = if lives written now timeout then some value else none

module _ {ℓ κ} {K : Type ℓ} {V : Type κ} where
  -- What a key is mapped to at a time.
  abbrev pub read_entry : ℕ → Dictionary K V → K → Option V
  read_entry now d key = alive now d.timeout (d.entries key)

module _ {ℓ κ} {K : Type ℓ} {V : Type κ} ⦃e : Eq K⦄ where
  abbrev pub entered : ℕ → Dictionary K V → K → V → ℕ → Dictionary K V
  entered now d key value used = record d {
    entries = λ j. if e.beq key j then some (value, now) else d.entries j;
    used = used;
  }

  -- A key that is present gets the new value. Another one takes a slot, if there is one.
  unfoldable pub spec_put : ℕ → Dictionary K V → K → V → Status × Dictionary K V
  spec_put now d key value = elim (read_entry now d key) [
    | some _ ↦ (ok, entered now d key value d.used)
    | none ↦
        if d.used == d.capacity then (failed, d) else (ok, entered now d key value (d.used + 1))
  ]

  -- A key that is present gives its slot back.
  unfoldable pub spec_remove : ℕ → Dictionary K V → K → Dictionary K V
  spec_remove now d key = elim (read_entry now d key) [
    | some _ ↦ record d {
      entries = λ j. if e.beq key j then none else d.entries j;
      used = d.used - 1;
    }
    | none ↦ d
  ]

  -- The calls at their times, with the results: of the contract, and of the code.
  unfoldable pub spec_run : List (ℕ × Call K V) → Dictionary K V → List Status × Dictionary K V
  spec_run [] d = ([], d)
  spec_run ((now, put key value) ∷ calls) d =
      let (result, d') = spec_put now d key value in
      let (results, d'') = spec_run calls d' in (result ∷ results, d'')
  spec_run ((now, remove key) ∷ calls) d =
      let (results, d') = spec_run calls (spec_remove now d key) in (ok ∷ results, d')

  unfoldable pub run : List (ℕ × Call K V) → Map K V → List Status × Map K V
  run [] m = ([], m)
  run ((now, put key value) ∷ calls) m =
      let (result, m') = set now m key value in
      let (results, m'') = run calls m' in (result ∷ results, m'')
  run ((now, remove key) ∷ calls) m =
      let (results, m') = run calls (delete now m key) in (ok ∷ results, m')
