-- ===== src/Map.antt =====
-- The container of include/map.h and src/map.c: an array of slots, each with a key, a value and the
-- time of its last update; time 0 marks a free slot, and a slot whose time is too old is free as
-- well. Keys are compared through `Eq`, since every map of the program is given `memcmp`. The
-- result of `time (NULL)` is the argument `now`, the same throughout one call. A pointer to an
-- entry's value is the index of its slot.
pub mod Tests
pub mod Lookup
pub mod Counting
pub mod Uniqueness
pub mod Cases
pub mod Invariant
pub mod Laws
pub mod Lifetime
pub mod Later
pub mod Sweep
pub mod Dictionary
pub mod Represents
pub mod Refinement
pub mod Expiry
use hitsz_network_lab.Common.{
  ℕ, zero, suc, ◌+◌, ◌-◌, ◌*◌, ◌/◌, ◌%◌, ◌^◌, Bool, true, false, not, ◌&&◌, ◌||◌, Option, none,
  some, List, [], ◌∷◌, replicate, get_elem?, Status, ok, failed, ltb, leb, ◌==◌, if◌then◌else◌, Eq,
}
use hitsz_network_lab.Buf

-- MAP_MAX_LEN: 16 * BUF_MAX_LEN bytes of storage.
abbrev pub max_len : ℕ
max_len = 16 * Buf.max_len

-- sizeof (time_t)
abbrev pub time_len : ℕ
time_len = 8

pub record Slot {ℓ κ} (K : Type ℓ) (V : Type κ) : Type (ℓ ⊔ κ) where
  pub key : K
  pub value : V
  pub stamp : ℕ

-- `value_constructor dst src` is what the constructor leaves in `dst`.
pub record Map {ℓ κ} (K : Type ℓ) (V : Type κ) : Type (ℓ ⊔ κ) where
  pub size : ℕ
  pub max_size : ℕ
  pub timeout : ℕ
  pub value_constructor : V → V → V
  pub slots : List (Slot K V)

-- size_t arithmetic
abbrev pub size_add : ℕ → ℕ → ℕ
size_add a b = (a + b) % 2 ^ 64

abbrev pub size_sub : ℕ → ℕ → ℕ
size_sub a b = (a + 2 ^ 64 - b) % 2 ^ 64

-- The number of slots: `max_size`, or as many as the storage holds.
unfoldable pub capacity : ℕ → ℕ → ℕ → ℕ
capacity key_len value_len max_size =
    if max_size == 0 || ltb max_len (max_size * (key_len + value_len + time_len) % 2 ^ 64)
    then max_len / (key_len + value_len + time_len)
    else max_size

-- The constructor that `memcpy` is.
abbrev pub memcpy {κ} : {V : Type κ} → V → V → V
memcpy dst src = src

module _ {ℓ κ} {K : Type ℓ} {V : Type κ} where
  -- `memset` makes every slot zero; `key` and `value` are what zero bytes stand for.
  unfoldable pub init : ℕ → ℕ → ℕ → ℕ → (V → V → V) → K → V → Map K V
  unfolding capacity
  init key_len value_len max_size timeout constructor key value = record {
    size = 0;
    max_size = capacity key_len value_len max_size;
    timeout = timeout;
    value_constructor = constructor;
    slots =
        replicate (capacity key_len value_len max_size)
          (record { key = key; value = value; stamp = 0 });
  }

  unfoldable pub entry_valid : ℕ → ℕ → Slot K V → Bool
  entry_valid now timeout entry =
      not (entry.stamp == 0) && (timeout == 0 || leb now (entry.stamp + timeout))

  -- The slot at index `p` replaced by `f` of it.
  unfoldable pub modify : ℕ → (Slot K V → Slot K V) → List (Slot K V) → List (Slot K V)
  modify p f [] = []
  modify zero f (s ∷ rest) = f s ∷ rest
  modify (suc p) f (s ∷ rest) = s ∷ modify p f rest

  -- The first slot that is free, taken for a new entry.
  unfoldable pub claim : ℕ → ℕ → (V → V → V) → K → V → List (Slot K V) → Option (List (Slot K V))
  claim now timeout constructor key value [] = none
  claim now timeout constructor key value (s ∷ rest) =
      if entry_valid now timeout s
      then (elim (claim now timeout constructor key value rest) [
        | none ↦ none
        | some rest' ↦ some (s ∷ rest')
      ])
      else some (record { key = key; value = constructor s.value value; stamp = now } ∷ rest)

  -- What a pointer from `get` points to.
  abbrev pub value_at : List (Slot K V) → ℕ → Option V
  value_at [] p = none
  value_at (s ∷ rest) zero = some s.value
  value_at (s ∷ rest) (suc p) = value_at rest p

module _ {ℓ κ} {K : Type ℓ} {V : Type κ} ⦃e : Eq K⦄ where
  -- The index of the first valid slot with the key.
  unfoldable pub find : ℕ → ℕ → K → List (Slot K V) → Option ℕ
  find now timeout key [] = none
  find now timeout key (s ∷ rest) =
      if entry_valid now timeout s && e.beq key s.key
      then some 0
      else (elim (find now timeout key rest) [ none ↦ none | some p ↦ some (suc p) ])

  unfoldable pub get : ℕ → Map K V → K → Option ℕ
  unfolding find
  get now m key = find now m.timeout key m.slots

  unfoldable pub set : ℕ → Map K V → K → V → Status × Map K V
  unfolding get modify claim
  set now m key value = elim (get now m key) [
    | some p ↦ (
      ok,
      record m {
        slots =
            modify p (λ s. record s { value = m.value_constructor s.value value; stamp = now })
              m.slots;
      },
    )
    | none ↦
        if m.size == m.max_size
        then (failed, m)
        else (elim (claim now m.timeout m.value_constructor key value m.slots) [
          | none ↦ (failed, m)
          | some slots ↦ (ok, record m { slots = slots; size = size_add m.size 1 })
        ])
  ]

  unfoldable pub delete : ℕ → Map K V → K → Map K V
  unfolding get modify
  delete now m key = elim (get now m key) [
    | none ↦ m
    | some p ↦ record m {
      slots = modify p (λ s. record s { stamp = 0 }) m.slots;
      size = size_sub m.size 1;
    }
  ]

  -- The value behind the pointer that `get` returns.
  unfoldable pub lookup : ℕ → Map K V → K → Option V
  unfolding get
  lookup now m key = elim (get now m key) [ none ↦ none | some p ↦ value_at m.slots p ]

module _ {ℓ κ} {K : Type ℓ} {V : Type κ} where
  unfoldable pub entry_valid_at : ℕ → Map K V → Option (Slot K V) → Bool
  unfolding entry_valid
  entry_valid_at now m none = false
  entry_valid_at now m (some s) = entry_valid now m.timeout s

  unfoldable pub foreach_from : ℕ → (ℕ → Map K V → Map K V) → ℕ → ℕ → Map K V → Map K V
  unfolding entry_valid_at
  foreach_from now handler zero i m = m
  foreach_from now handler (suc n) i m =
      foreach_from now handler n (i + 1)
        (if entry_valid_at now m (get_elem? m.slots i) then handler i m else m)

  -- The handler is given the index of a valid slot, and may change the map.
  unfoldable pub foreach : ℕ → (ℕ → Map K V → Map K V) → Map K V → Map K V
  unfolding foreach_from
  foreach now handler m = foreach_from now handler m.max_size 0 m
