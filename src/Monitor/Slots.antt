-- ===== src/Monitor/Slots.antt =====
-- The slots of src/monitor_server.c, and which of them a new connection gets.
use hitsz_network_lab.Common.{
  subst, ℕ, zero, suc, ◌+◌, ◌<◌, ◌≡◌, refl, ap, ◌∙◌, sym, ◌⊎◌, inl, inr, Bool, true, false, List,
  [], ◌∷◌, length, set, ◌==◌, if◌then◌else◌, Option, none, some, arith, Bool-cases,
}
use hitsz_network_lab.Monitor.{Client, claim_slot, deactivate}

abbrev pub active_at : List Client → ℕ → Bool
active_at [] i = false
active_at (c ∷ clients) zero = c.active
active_at (c ∷ clients) (suc i) = active_at clients i

abbrev pub sock_at : List Client → ℕ → Option ℕ
sock_at [] i = none
sock_at (c ∷ clients) zero = some c.sock
sock_at (c ∷ clients) (suc i) = sock_at clients i

-- A slot in use by a socket.
abbrev pub taken : ℕ → Client
taken client_sock = record { sock = client_sock; active = true }

-- All slots below `k` are in use.
abbrev pub AllActive : List Client → ℕ → Type 0
AllActive clients k = (i : ℕ) → i < k → active_at clients i ≡ true

-- The outcome of the search from slot `i` on: all are in use and nothing changes, or the first one
-- that is not is given to the socket.
abbrev pub Claims : ℕ → ℕ → List Client → Option ℕ × List Client → Type 0
Claims client_sock i clients r =
    ((r.0 ≡ none) × (r.1 ≡ clients) × AllActive clients (length clients))
    ⊎ ((k : ℕ) × (r.0 ≡ some (i + k))
        × (r.1 ≡ set clients k (taken client_sock))
        × (active_at clients k ≡ false)
        × (k < length clients)
        × AllActive clients k)

AllActive-cons :
    (c : Client) (clients : List Client) (k : ℕ)
    → c.active ≡ true
    → AllActive clients k
    → AllActive (c ∷ clients) (suc k)
AllActive-cons c clients k h all zero lt = h
AllActive-cons c clients k h all (suc i) lt = all i (omega arith)

module _ (client_sock i : ℕ) (c : Client) (clients : List Client) where
  claim_slot_free :
      c.active ≡ false
      → claim_slot client_sock i (c ∷ clients) ≡ (some i, taken client_sock ∷ clients)
  unfolding claim_slot
  claim_slot_free h = ground arith

  claim_slot_used :
      c.active ≡ true
      → claim_slot client_sock i (c ∷ clients)
        ≡ (let r = claim_slot client_sock (suc i) clients in (r.0, c ∷ r.1))
  unfolding claim_slot
  claim_slot_used h = ground arith

-- A new connection gets the first slot that is not in use, the others stay as they are, and it is
-- turned away exactly if every slot is in use.
pub claim_slot_lem :
    (client_sock i : ℕ) (clients : List Client)
    → Claims client_sock i clients (claim_slot client_sock i clients)
claim_slot_lem client_sock i [] =
    unfold claim_slot in inl (refl, refl, λ k lt. absurd (omega arith))
claim_slot_lem client_sock i (c ∷ clients) = elim (Bool-cases c.active) [
  | inr free ↦
      subst (Claims client_sock i (c ∷ clients))
        (sym (claim_slot_free client_sock i c clients free))
        (inr (0, ap some (omega arith), refl, free, omega arith, λ k lt. absurd (omega arith)))
  | inl used ↦
      subst (Claims client_sock i (c ∷ clients))
        (sym (claim_slot_used client_sock i c clients used))
        (elim (claim_slot_lem client_sock (suc i) clients) [
          | inl (full, same, all) ↦
              inl (full, ap (◌∷◌ c) same, AllActive-cons c clients (length clients) used all)
          | inr (k, claimed, changed, free, inside, all) ↦ inr (
            suc k,
            claimed ∙ ap some (omega arith),
            ap (◌∷◌ c) changed,
            free,
            omega arith,
            AllActive-cons c clients k used all,
          )
        ])
]

-- The slots after a change of one.
pub active_at-set :
    (clients : List Client) (k : ℕ) (c : Client) (i : ℕ)
    → k < length clients
    → active_at (set clients k c) i ≡ (if i == k then c.active else active_at clients i)
active_at-set [] k c i h = absurd (omega arith)
active_at-set (x ∷ clients) zero c zero h = ground arith
active_at-set (x ∷ clients) zero c (suc i) h = ground arith
active_at-set (x ∷ clients) (suc k) c zero h = ground arith
active_at-set (x ∷ clients) (suc k) c (suc i) h = ground (arith, active_at-set clients k c i)

pub sock_at-set :
    (clients : List Client) (k : ℕ) (c : Client) (i : ℕ)
    → k < length clients
    → sock_at (set clients k c) i ≡ (if i == k then some c.sock else sock_at clients i)
sock_at-set [] k c i h = absurd (omega arith)
sock_at-set (x ∷ clients) zero c zero h = ground arith
sock_at-set (x ∷ clients) zero c (suc i) h = ground arith
sock_at-set (x ∷ clients) (suc k) c zero h = ground arith
sock_at-set (x ∷ clients) (suc k) c (suc i) h = ground (arith, sock_at-set clients k c i)

pub active_at-deactivate :
    (clients : List Client) (k i : ℕ)
    → active_at (deactivate k clients) i ≡ (if i == k then false else active_at clients i)
unfolding deactivate
active_at-deactivate [] zero i = ground arith
active_at-deactivate [] (suc k) i = ground arith
active_at-deactivate (x ∷ clients) zero zero = ground arith
active_at-deactivate (x ∷ clients) zero (suc i) = ground arith
active_at-deactivate (x ∷ clients) (suc k) zero = ground arith
active_at-deactivate (x ∷ clients) (suc k) (suc i) =
    ground (arith, active_at-deactivate clients k i)

pub sock_at-deactivate :
    (clients : List Client) (k i : ℕ) → sock_at (deactivate k clients) i ≡ sock_at clients i
unfolding deactivate
sock_at-deactivate [] zero i = refl
sock_at-deactivate [] (suc k) i = refl
sock_at-deactivate (x ∷ clients) zero zero = refl
sock_at-deactivate (x ∷ clients) zero (suc i) = refl
sock_at-deactivate (x ∷ clients) (suc k) zero = refl
sock_at-deactivate (x ∷ clients) (suc k) (suc i) = sock_at-deactivate clients k i

pub length-deactivate :
    (clients : List Client) (k : ℕ) → length (deactivate k clients) ≡ length clients
unfolding deactivate
length-deactivate [] zero = refl
length-deactivate [] (suc k) = refl
length-deactivate (x ∷ clients) zero = refl
length-deactivate (x ∷ clients) (suc k) = ap suc (length-deactivate clients k)

-- A slot with a socket lies inside the array.
pub sock_at_inside :
    (clients : List Client) (k sock : ℕ) → sock_at clients k ≡ some sock → k < length clients
sock_at_inside [] k sock h = cc
sock_at_inside (x ∷ clients) zero sock h = omega arith
sock_at_inside (x ∷ clients) (suc k) sock h = omega (arith, sock_at_inside clients k sock h)
