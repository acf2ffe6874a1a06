-- ===== src/Map/Represents.antt =====
-- One call of src/map.c against the contract: what a map holds for a dictionary.
use native.Mathlib.Nat.{le_refl}
use hitsz_network_lab.Common.{
  ℕ, ◌+◌, ◌-◌, ◌≤◌, ◌<◌, ◌≡◌, ◌≢◌, ◌^◌, refl, sym, ap, ◌∙◌, true, false, none, some, ok, ◌==◌,
  if◌then◌else◌, Eq, arith, Bool-cases, Option-cases, inl, inr,
}
use hitsz_network_lab.Map.{Map, set, delete, lookup, find, init, capacity, size_sub}
use hitsz_network_lab.Map.Lookup.{lookup-eq}
use hitsz_network_lab.Map.Counting.{claim-eq-none, live-free}
use hitsz_network_lab.Map.Uniqueness.{lookup_slots-none, lookup_slots-some, find-replicate}
use hitsz_network_lab.Map.Cases.{set_cases, delete_cases, updated, extended, freed}
use hitsz_network_lab.Map.Invariant.{
  IsValid, init-IsValid, set-IsValid, delete-IsValid, later-IsValid,
}
use hitsz_network_lab.Map.Lifetime.{lives, lookup-set_later}
use hitsz_network_lab.Map.Later.{lookup-set_other, lookup-delete_self, lookup-delete_other}
use hitsz_network_lab.Map.Dictionary.{
  Dictionary, empty_dictionary, read_entry, entered, spec_put, spec_remove,
}

module _ {ℓ κ} {K : Type ℓ} {V : Type κ} ⦃e : Eq K⦄ where
  -- What the map holds at the time `now`, and would be asked at any later one.
  pub record Represents (now : ℕ) (m : Map K V) (d : Dictionary K V) : Type (ℓ ⊔ κ) where
    pub valid : IsValid now m
    pub timed : m.timeout ≡ d.timeout
    pub sized : m.size ≡ d.used
    pub bounded : m.max_size ≡ d.capacity
    pub copies : (x v : V) → m.value_constructor x v ≡ v
    pub reads : (later : ℕ) → now ≤ later → (j : K) → lookup later m j ≡ read_entry later d j

  -- An entry that was written is read back, and the others as before.
  entered-Represents :
      (now : ℕ) (m m' : Map K V) (d : Dictionary K V) (key : K) (value : V) (used : ℕ)
      → Represents now m d
      → IsValid now m'
      → m'.timeout ≡ m.timeout
      → m'.size ≡ used
      → m'.max_size ≡ m.max_size
      → ((x v : V) → m'.value_constructor x v ≡ v)
      → ((later : ℕ)
          → now ≤ later
          → lookup later m' key ≡ (if lives now later m.timeout then some value else none))
      → ((later : ℕ)
          → now ≤ later
          → (j : K) → e.beq key j ≡ false
          → lookup later m' j ≡ lookup later m j)
      → Represents now m' (entered now d key value used)
  entered-Represents now m m' d key value used r valid timed sized bounded copies self other =
      record {
        valid = valid;
        timed = timed ∙ r.timed;
        sized = sized;
        bounded = bounded ∙ r.bounded;
        copies = copies;
        reads = λ later h j. elim (Bool-cases (e.beq key j)) [
          | inl same ↦ rw same (
              ap (lookup later m') (sym ((e.beq_iff key j).0 same))
              ∙ self later h
              ∙ ap (λ t. if lives now later t then some value else none) r.timed)
          | inr differ ↦ rw differ (other later h j differ ∙ r.reads later h j)
        ];
      }

  pub later-Represents :
      (now later : ℕ) (m : Map K V) (d : Dictionary K V)
      → now ≤ later
      → Represents now m d
      → Represents later m d
  later-Represents now later m d h r = record {
    valid = later-IsValid now later m h r.valid;
    timed = r.timed;
    sized = r.sized;
    bounded = r.bounded;
    copies = r.copies;
    reads = λ after le. r.reads after (omega arith);
  }

  missing :
      (now : ℕ) (m : Map K V) (d : Dictionary K V) (key : K)
      → Represents now m d
      → find now m.timeout key m.slots ≡ none
      → read_entry now d key ≡ none
  missing now m d key r miss =
      sym (r.reads now (le_refl now) key)
      ∙ lookup-eq now m key
      ∙ lookup_slots-none now m.timeout key m.slots miss

  present :
      (now : ℕ) (m : Map K V) (d : Dictionary K V) (key : K) (p : ℕ)
      → Represents now m d
      → find now m.timeout key m.slots ≡ some p
      → (v : V) × (read_entry now d key ≡ some v)
  present now m d key p r hit = elim (Option-cases (read_entry now d key)) [
    | inr found ↦ found
    | inl absent ↦ absurd (
        lookup_slots-some now m.timeout key m.slots p hit
          (sym (lookup-eq now m key) ∙ r.reads now (le_refl now) key ∙ absent))
  ]

  pub set-Represents :
      (now : ℕ) (m : Map K V) (d : Dictionary K V) (key : K) (value : V)
      → 0 < now
      → Represents now m d
      → ((set now m key value).0 ≡ (spec_put now d key value).0)
        × Represents now (set now m key value).1 (spec_put now d key value).1
  unfolding spec_put
  set-Represents now m d key value pos r =
      set_cases
        (λ q.
          IsValid now q.1
          → (q.0 ≡ ok
              → (later : ℕ) → now ≤ later
              → lookup later q.1 key ≡ (if lives now later m.timeout then some value else none))
          → ((later : ℕ)
              → now ≤ later
              → (j : K) → e.beq key j ≡ false
              → lookup later q.1 j ≡ lookup later m j)
          → (q.0 ≡ (spec_put now d key value).0) × Represents now q.1 (spec_put now d key value).1)
        now m key value
        (λ p hit valid self other.
          let (v, found) = present now m d key p r hit in
          rw (found, spec_put)
            (
              refl,
              entered-Represents now m (updated now m value p) d key value d.used r valid refl
                  r.sized refl r.copies (self refl) other,
            ))
        (λ miss at_max valid self other.
          rw (missing now m d key r miss, spec_put, full at_max) (refl, r))
        (λ miss below no_room valid self other. absurd (
          omega (
            arith,
            claim-eq-none now m.timeout _ key value m.slots no_room,
            r.valid.full,
            r.valid.counted,
            r.valid.bounded,
          )))
        (λ slots miss below room valid self other.
          rw (missing now m d key r miss, spec_put, free below)
            (
              refl,
              entered-Represents now m (extended m slots) d key value (d.used + 1) r valid refl
                  (omega (arith, r.sized, r.valid.bounded, r.valid.small)) refl r.copies (self refl)
                  other,
            ))
        (set-IsValid now m key value pos r.valid)
        (λ done later h.
          lookup-set_later now later m key value value pos h (λ x. r.copies x value) r.valid done)
        (λ later h j differ. lookup-set_other now later m key value j differ h)
    where
      full : m.size ≡ m.max_size → (d.used == d.capacity) ≡ true
      full at_max = ground (arith, r.sized, r.bounded)

      free : m.size ≢ m.max_size → (d.used == d.capacity) ≡ false
      free below = ground (arith, r.sized, r.bounded)

  pub delete-Represents :
      (now : ℕ) (m : Map K V) (d : Dictionary K V) (key : K)
      → Represents now m d
      → Represents now (delete now m key) (spec_remove now d key)
  unfolding spec_remove
  delete-Represents now m d key r =
      delete_cases
        (λ m'.
          IsValid now m'
          → ((later : ℕ) → now ≤ later → lookup later m' key ≡ none)
          → ((later : ℕ)
              → now ≤ later
              → (j : K) → e.beq key j ≡ false
              → lookup later m' j ≡ lookup later m j)
          → Represents now m' (spec_remove now d key))
        now m key
        (λ p hit valid self other.
          let (v, found) = present now m d key p r hit in
          rw (found, spec_remove)
            (record {
              valid = valid;
              timed = r.timed;
              sized = given_back p hit;
              bounded = r.bounded;
              copies = r.copies;
              reads = λ later h j. elim (Bool-cases (e.beq key j)) [
                | inl same ↦
                    rw same (
                      ap (lookup later (freed m p)) (sym ((e.beq_iff key j).0 same)) ∙ self later h)
                | inr differ ↦ rw differ (other later h j differ ∙ r.reads later h j)
              ];
            }))
        (λ miss valid self other. rw (missing now m d key r miss, spec_remove) r)
        (delete-IsValid now m key r.valid) (λ later h. lookup-delete_self now later m key h r.valid)
        (λ later h j differ. lookup-delete_other now later m key j differ)
    where
      given_back :
          (p : ℕ) → find now m.timeout key m.slots ≡ some p → size_sub m.size 1 ≡ d.used - 1
      given_back p hit = omega (
        arith,
        live-free now m.timeout key m.slots p hit,
        r.valid.counted,
        r.valid.bounded,
        r.valid.small,
        r.sized,
      )

  pub init-Represents :
      (key_len value_len max_size timeout : ℕ) (constructor : V → V → V) (zero_key : K)
      (zero_value : V)
      → capacity key_len value_len max_size < 2 ^ 64
      → ((x v : V) → constructor x v ≡ v)
      → Represents 0
          (init key_len value_len max_size timeout constructor zero_key zero_value)
          (empty_dictionary (capacity key_len value_len max_size) timeout)
  unfolding init
  init-Represents key_len value_len max_size timeout constructor zero_key zero_value fits copies =
      record {
        valid =
            init-IsValid 0 key_len value_len max_size timeout constructor zero_key zero_value fits;
        timed = refl;
        sized = refl;
        bounded = refl;
        copies = copies;
        reads = λ later h j.
            lookup-eq later _ j
            ∙ lookup_slots-none later timeout j _ (
                find-replicate later timeout (capacity key_len value_len max_size) zero_key j
                  zero_value);
      }
