-- ===== src/Map/Tests.antt =====
-- The theorems about src/map.c at a map with two slots and a timeout of one second.
use hitsz_network_lab.Common.{
  ℕ, ◌+◌, ◌≡◌, ◌↔◌, refl, List, [], ◌∷◌, ok, failed, arith, nat_eq, none, some, if◌then◌else◌, ◌==◌,
  ◌||◌, leb,
}
use hitsz_network_lab.Map.{Map, init, capacity, memcpy, set, delete, lookup, entry_valid}
use hitsz_network_lab.Map.Invariant.{IsValid, init-IsValid, set-IsValid}
use hitsz_network_lab.Map.Laws.{lookup-set, lookup-delete, set-eq-failed}
use hitsz_network_lab.Map.Lifetime.{lookup-set_later}
use hitsz_network_lab.Map.Dictionary.{
  Call, put, remove, empty_dictionary, read_entry, run, spec_run,
}
use hitsz_network_lab.Map.Refinement.{run-spec_run}
use hitsz_network_lab.Map.Expiry.{IsStale, StampedBy-replicate, sets, sets_exhaust}

abbrev two_slots : Map ℕ ℕ
two_slots = init 2 2 2 1 memcpy 0 0

two_slots-IsValid : (now : ℕ) → IsValid now two_slots
unfolding capacity
two_slots-IsValid now = init-IsValid now 2 2 2 1 memcpy 0 0 (omega arith)

set_ok : (set 5 two_slots 7 9).0 ≡ ok
unfolding set init entry_valid
set_ok = refl

lookup-set_example :
    ((set 5 two_slots 7 9).0 ≡ ok
      → lookup 5 (set 5 two_slots 7 9).1 8 ≡ (if 7 == 8 then some 9 else lookup 5 two_slots 8))
    × ((set 5 two_slots 7 9).0 ≡ failed → (set 5 two_slots 7 9).1 ≡ two_slots)
lookup-set_example = lookup-set 5 two_slots 7 9 9 8 (omega arith) (λ d. unfold init in refl)

lookup-delete_example :
    lookup 5 (delete 5 (set 5 two_slots 7 9).1 7) 7
    ≡ (if 7 == 7 then none else lookup 5 (set 5 two_slots 7 9).1 7)
lookup-delete_example =
    lookup-delete 5 (set 5 two_slots 7 9).1 7 7
      (set-IsValid 5 two_slots 7 9 (omega arith) (two_slots-IsValid 5))

set-eq-failed_example :
    ((set 5 two_slots 7 9).0 ≡ failed)
    ↔ ((lookup 5 two_slots 7 ≡ none) × (two_slots.size ≡ two_slots.max_size))
set-eq-failed_example = set-eq-failed 5 two_slots 7 9 (two_slots-IsValid 5)

lookup-set_later_example :
    lookup 6 (set 5 two_slots 7 9).1 7
    ≡ (if two_slots.timeout == 0 || leb 6 (5 + two_slots.timeout) then some 9 else none)
lookup-set_later_example =
    lookup-set_later 5 6 two_slots 7 9 9 (omega arith) (omega arith) (λ d. unfold init in refl)
      (two_slots-IsValid 5) set_ok

set-IsValid_example : IsValid 5 (set 5 two_slots 7 9).1
set-IsValid_example = set-IsValid 5 two_slots 7 9 (omega arith) (two_slots-IsValid 5)

two_slots-IsStale : IsStale 0 two_slots
unfolding init capacity
two_slots-IsStale = record {
  valid = two_slots-IsValid 0;
  timed = λ e. omega arith;
  old = StampedBy-replicate {K = ℕ} {V = ℕ} 2 0 0;
}

-- Two entries, each long expired when the next comes.
abbrev two_sets : List (ℕ × ℕ × ℕ)
two_sets = (10, 1, 11) ∷ (20, 2, 22) ∷ []

sets_exhaust_example :
    (lookup 30 (sets two_slots two_sets) 3 ≡ none)
    × (set 30 (sets two_slots two_sets) 3 33 ≡ (failed, sets two_slots two_sets))
sets_exhaust_example =
    sets_exhaust 0 30 two_slots two_sets 3 33 two_slots-IsStale
      (unfold init in (omega arith, (omega arith, tt))) (unfold init capacity in refl)
      (unfold init in omega arith)

-- The key 7 has expired at the third call, but its slot is not given back.
abbrev calls : List (ℕ × Call ℕ ℕ)
calls = (5, put 7 9) ∷ (6, put 8 1) ∷ (8, put 3 4) ∷ (8, remove 8) ∷ (9, put 7 2) ∷ []

run-spec_run_example :
    ((run calls two_slots).0 ≡ (spec_run calls (empty_dictionary (capacity 2 2 2) 1)).0)
    × (lookup 9 (run calls two_slots).1 7
        ≡ read_entry 9 (spec_run calls (empty_dictionary (capacity 2 2 2) 1)).1 7)
run-spec_run_example =
    run-spec_run 2 2 2 1 memcpy 0 0 calls 9 7 (unfold capacity in omega arith) (λ x v. refl)
      (ground arith) (omega arith)

calls_results : (run calls two_slots).0 ≡ ok ∷ ok ∷ failed ∷ ok ∷ failed ∷ []
unfolding run set delete init entry_valid
calls_results = refl
