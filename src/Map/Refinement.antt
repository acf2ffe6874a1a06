-- ===== src/Map/Refinement.antt =====
-- The maps of src/map.c keep the contract, whatever is called and whenever.
use hitsz_network_lab.Common.{ℕ, ◌≤◌, ◌<◌, ◌≡◌, ◌^◌, refl, ap, ap₂, List, [], ◌∷◌, ok, Eq}
use hitsz_network_lab.Map.{Map, set, delete, lookup, init, capacity}
use hitsz_network_lab.Map.Dictionary.{
  Call, put, remove, Dictionary, empty_dictionary, read_entry, spec_run, run,
}
use hitsz_network_lab.Map.Represents.{
  Represents, later-Represents, set-Represents, delete-Represents, init-Represents,
}

module _ {ℓ κ} {K : Type ℓ} {V : Type κ} ⦃e : Eq K⦄ where
  -- The times are not 0 and do not go back.
  abbrev pub IsOrdered : ℕ → List (ℕ × Call K V) → Type 0
  IsOrdered last [] = Unit
  IsOrdered last ((now, c) ∷ calls) = ((0 < now) × (last ≤ now)) × IsOrdered now calls

  abbrev pub last_call : ℕ → List (ℕ × Call K V) → ℕ
  last_call last [] = last
  last_call last ((now, c) ∷ calls) = last_call now calls

  run-Represents :
      (last : ℕ) (m : Map K V) (d : Dictionary K V) (calls : List (ℕ × Call K V))
      → Represents last m d
      → IsOrdered last calls
      → ((run calls m).0 ≡ (spec_run calls d).0)
        × Represents (last_call last calls) (run calls m).1 (spec_run calls d).1
  unfolding run spec_run
  run-Represents last m d [] r o = (refl, r)
  run-Represents last m d ((now, put key value) ∷ calls) r o =
      let (same, r') =
        set-Represents now m d key value o.0.0 (later-Represents last now m d o.0.1 r) in
      let (rest, done) = run-Represents now (set now m key value).1 _ calls r' o.1 in
      (ap₂ (λ x xs. x ∷ xs) same rest, done)
  run-Represents last m d ((now, remove key) ∷ calls) r o =
      let r' = delete-Represents now m d key (later-Represents last now m d o.0.1 r) in
      let (rest, done) = run-Represents now (delete now m key) _ calls r' o.1 in
      (ap (λ xs. ok ∷ xs) rest, done)

  -- A map of fewer than 2^64 slots made by `map_init`, whose constructor copies the value, is used by
  -- any sequence of calls of `map_set` and `map_delete` at times that are not 0 and do not go back. Then
  -- every call returns what it returns in the contract, `spec_run`, so `map_set` fails exactly if its
  -- key is absent and as many slots are taken as there are; and whatever key is looked up at any later
  -- time, the code and the contract find the same.
  pub run-spec_run :
      (key_len value_len max_size timeout : ℕ) (constructor : V → V → V) (zero_key : K)
      (zero_value : V) (calls : List (ℕ × Call K V)) (later : ℕ) (key : K)
      → capacity key_len value_len max_size < 2 ^ 64
      → ((x v : V) → constructor x v ≡ v)
      → IsOrdered 0 calls
      → last_call 0 calls ≤ later
      → let m = init key_len value_len max_size timeout constructor zero_key zero_value in
        let d = empty_dictionary (capacity key_len value_len max_size) timeout in
        ((run calls m).0 ≡ (spec_run calls d).0)
        × (lookup later (run calls m).1 key ≡ read_entry later (spec_run calls d).1 key)
  run-spec_run key_len value_len max_size timeout constructor zero_key zero_value calls later key
        fits copies ordered after =
      let m = init key_len value_len max_size timeout constructor zero_key zero_value in
      let (same, r) =
        run-Represents 0 m (empty_dictionary (capacity key_len value_len max_size) timeout) calls
          (init-Represents key_len value_len max_size timeout constructor zero_key zero_value fits
            copies)
          ordered in
      (same, r.reads later after key)
