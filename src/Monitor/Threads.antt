-- ===== src/Monitor/Threads.antt =====
-- The threads of src/monitor_server.c in any order of their steps: every slot in use belongs to one
-- thread, and no other slot to any.
use hitsz_network_lab.Common.{
  ℕ, zero, suc, ◌+◌, ◌<◌, ◌≡◌, ◌≢◌, refl, ap, ◌∙◌, sym, subst, Bool, true, false, List, [], ◌∷◌,
  length, set, get_elem?, ◌==◌, if◌then◌else◌, some, arith,
}
use mathlib.Core.Option.{some-injective}
use hitsz_network_lab.Stack.{Stack, done}
use hitsz_network_lab.Monitor.{
  Client, Thread, Accepting, waiting, claimed, unstarted, rejected, Monitor, remove, accept_client,
  serve_client, close_client, leave_client, broadcast_stats, max_clients,
}
use hitsz_network_lab.Monitor.Slots.{active_at, sock_at}

-- How many threads serve slot `i`.
abbrev pub threads_of : ℕ → List Thread → ℕ
threads_of i [] = 0
threads_of i (t ∷ threads) = (if t.client_id == i then 1 else 0) + threads_of i threads

-- Every thread has the socket that its slot names.
abbrev pub OwnSockets : List Client → List Thread → Type 0
OwnSockets clients [] = Unit {0}
OwnSockets clients (t ∷ threads) =
    (sock_at clients t.client_id ≡ some t.client_sock) × OwnSockets clients threads

-- The threads, and the one that the accepting thread is about to start, or has given up.
abbrev pub holders : Accepting → List Thread → List Thread
holders waiting threads = threads
holders (claimed i sock) threads =
    record { client_id = i; client_sock = sock; closing = false } ∷ threads
holders (unstarted i sock) threads =
    record { client_id = i; client_sock = sock; closing = false } ∷ threads
holders (rejected sock) threads = threads

pub record Holds (clients : List Client) (threads : List Thread) : Type 0 where
  pub slots : length clients ≡ max_clients
  pub served : (i : ℕ) → threads_of i threads ≡ (if active_at clients i then 1 else 0)
  pub own : OwnSockets clients threads

abbrev pub IsConsistent : Monitor → Type 0
IsConsistent m = Holds m.clients (holders m.accepting m.threads)

-- One step of one of the threads, or of the thread that polls the network and broadcasts.
pub data Step : Monitor → Monitor → Type 0 where
  accepted :
      {m m' : Monitor} (client_sock : ℕ) (created : Bool)
      → m' ≡ accept_client m client_sock created
      → Step m m'
  received :
      {m m' : Monitor} (s : Stack) (j : ℕ) (t : Thread) (bytes : List ℕ)
      → get_elem? m.threads j ≡ some t
      → t.closing ≡ false
      → serve_client s m t bytes ≡ done m'
      → Step m m'
  closed :
      {m m' : Monitor} (j : ℕ) (t : Thread)
      → get_elem? m.threads j ≡ some t
      → t.closing ≡ false
      → m' ≡ close_client m j t
      → Step m m'
  left :
      {m m' : Monitor} (j : ℕ) (t : Thread)
      → get_elem? m.threads j ≡ some t
      → t.closing ≡ true
      → m' ≡ leave_client m j t
      → Step m m'
  broadcast : {m m' : Monitor} (s : Stack) → broadcast_stats s m ≡ done m' → Step m m'

-- Any number of steps, the newest last.
pub data Reaches : Monitor → Monitor → Type 0 where
  start : {m : Monitor} → Reaches m m
  step : {m m' m'' : Monitor} → Reaches m m' → Step m' m'' → Reaches m m''

pub threads_of_member :
    (threads : List Thread) (j : ℕ) (t : Thread)
    → get_elem? threads j ≡ some t
    → 0 < threads_of t.client_id threads
threads_of_member [] j t h = cc
threads_of_member (x ∷ threads) zero t h = ground (arith, some-injective x t h)
threads_of_member (x ∷ threads) (suc j) t h = omega (arith, threads_of_member threads j t h)

pub threads_of-remove :
    (threads : List Thread) (j : ℕ) (t : Thread) (i : ℕ)
    → get_elem? threads j ≡ some t
    → (if t.client_id == i then 1 else 0) + threads_of i (remove j threads) ≡ threads_of i threads
unfolding remove
threads_of-remove [] j t i h = cc
threads_of-remove (x ∷ threads) zero t i h =
    ap (λ (y : Thread). (if y.client_id == i then 1 else 0) + threads_of i threads)
      (sym (some-injective x t h))
threads_of-remove (x ∷ threads) (suc j) t i h = omega (arith, threads_of-remove threads j t i h)

pub threads_of-set :
    (threads : List Thread) (j : ℕ) (t : Thread) (i : ℕ)
    → get_elem? threads j ≡ some t
    → threads_of i (set threads j (record t { closing = true })) ≡ threads_of i threads
threads_of-set [] j t i h = refl
threads_of-set (x ∷ threads) zero t i h =
    ap (λ (y : Thread). (if y.client_id == i then 1 else 0) + threads_of i threads)
      (sym (some-injective x t h))
threads_of-set (x ∷ threads) (suc j) t i h = omega (arith, threads_of-set threads j t i h)

pub OwnSockets-get :
    (clients : List Client) (threads : List Thread) (j : ℕ) (t : Thread)
    → OwnSockets clients threads
    → get_elem? threads j ≡ some t
    → sock_at clients t.client_id ≡ some t.client_sock
OwnSockets-get clients [] j t h e = cc
OwnSockets-get clients (x ∷ threads) zero t (p, h) e =
    subst (λ (y : Thread). sock_at clients y.client_id ≡ some y.client_sock) (some-injective x t e)
      p
OwnSockets-get clients (x ∷ threads) (suc j) t (p, h) e = OwnSockets-get clients threads j t h e

pub OwnSockets-remove :
    (clients : List Client) (threads : List Thread) (j : ℕ)
    → OwnSockets clients threads
    → OwnSockets clients (remove j threads)
unfolding remove
OwnSockets-remove clients [] zero h = tt
OwnSockets-remove clients [] (suc j) h = tt
OwnSockets-remove clients (x ∷ threads) zero (p, h) = h
OwnSockets-remove clients (x ∷ threads) (suc j) (p, h) = (p, OwnSockets-remove clients threads j h)

pub OwnSockets-set :
    (clients : List Client) (threads : List Thread) (j : ℕ) (t : Thread)
    → OwnSockets clients threads
    → get_elem? threads j ≡ some t
    → OwnSockets clients (set threads j (record t { closing = true }))
OwnSockets-set clients [] j t h e = tt
OwnSockets-set clients (x ∷ threads) zero t (p, h) e = (
  subst (λ (y : Thread). sock_at clients y.client_id ≡ some y.client_sock) (some-injective x t e) p,
  h,
)
OwnSockets-set clients (x ∷ threads) (suc j) t (p, h) e =
    (p, OwnSockets-set clients threads j t h e)

-- A slot that no thread serves may change.
pub OwnSockets-other :
    (clients clients' : List Client) (threads : List Thread) (k : ℕ)
    → ((i : ℕ) → i ≢ k → sock_at clients' i ≡ sock_at clients i)
    → threads_of k threads ≡ 0
    → OwnSockets clients threads
    → OwnSockets clients' threads
OwnSockets-other clients clients' [] k same none_left h = tt
OwnSockets-other clients clients' (x ∷ threads) k same none_left (p, h) = (
  same x.client_id (ground arith) ∙ p,
  OwnSockets-other clients clients' threads k same (omega arith) h,
)
