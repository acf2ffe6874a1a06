-- ===== src/Monitor/Consistency.antt =====
-- Every step of src/monitor_server.c keeps the slots and the threads consistent.
use native.Mathlib.Decide.{ℕ_discrete}
use native.Mathlib.Nat.{zero-add}
use hitsz_network_lab.Common.{
  ℕ, zero, suc, ◌<◌, ◌≡◌, ◌≢◌, refl, ap, ◌∙◌, sym, subst, ◌⊎◌, inl, inr, Bool, true, false, List,
  [], ◌∷◌, length, length-set, set, get_elem?, replicate, if◌then◌else◌, none, some, arith,
  Bool-cases,
}
use hitsz_network_lab.Stack.{Stack, Outcome, Fault, done, fault}
use hitsz_network_lab.Text.{codes, c_string, strstr}
use hitsz_network_lab.Monitor.{
  Client, Thread, Accepting, waiting, claimed, unstarted, rejected, Monitor, Action, claim_slot,
  release, deactivate, remove, accept_client, serve_client, close_client, leave_client,
  broadcast_to, broadcast_stats, stats_message, monitor_server_init, max_clients, invalid_socket,
}
use hitsz_network_lab.Monitor.Slots.{
  active_at, taken, claim_slot_lem, active_at-set, sock_at-set, active_at-deactivate,
  sock_at-deactivate, length-deactivate, sock_at_inside,
}
use hitsz_network_lab.Monitor.Threads.{
  threads_of, OwnSockets, Holds, holders, IsConsistent, Step, Reaches, threads_of_member,
  threads_of-remove, threads_of-set, OwnSockets-get, OwnSockets-remove, OwnSockets-set,
  OwnSockets-other,
}
use hitsz_network_lab.Monitor.Threads

-- A slot that was free is given to a socket: no thread served it.
module _ (clients : List Client) (threads : List Thread) (v : Holds clients threads)
    (k sock : ℕ) where
  claimed-Holds :
      active_at clients k ≡ false
      → k < length clients
      → Holds
          (set clients k (taken sock))
          (record { client_id = k; client_sock = sock; closing = false } ∷ threads)
  claimed-Holds free inside = record {
    slots = length-set clients k (taken sock) ∙ v.slots;
    served =
        λ i. ground (arith, v.served i, active_at-set clients k (taken sock) i inside, unserved);
    own = (
      sock_at-set clients k (taken sock) k inside ∙ ground arith,
      OwnSockets-other clients (set clients k (taken sock)) threads k
          (λ i h. ground (arith, sock_at-set clients k (taken sock) i inside)) unserved v.own,
    );
  }
    where
      unserved : threads_of k threads ≡ 0
      unserved = v.served k ∙ ap (λ b. if b then 1 else 0) free

-- The slot of a thread that was not created is given back.
deactivated-Holds :
    (clients : List Client) (threads : List Thread) (t : Thread)
    → Holds clients (t ∷ threads)
    → Holds (deactivate t.client_id clients) threads
deactivated-Holds clients threads t v = record {
  slots = length-deactivate clients t.client_id ∙ v.slots;
  served = λ i. ground (arith, v.served i, active_at-deactivate clients t.client_id i, alone);
  own =
      OwnSockets-other clients (deactivate t.client_id clients) threads t.client_id
        (λ i h. sock_at-deactivate clients t.client_id i) alone v.own.1;
}
  where
    alone : threads_of t.client_id threads ≡ 0
    alone = ground (arith, v.served t.client_id)

-- What `accept` returning does to the server.
module _ (m : Monitor) (client_sock : ℕ) (created : Bool) (at : m.accepting ≡ waiting) where
  accept_invalid : client_sock ≡ invalid_socket → accept_client m client_sock created ≡ m
  unfolding accept_client
  accept_invalid e = ground arith

  accept_full :
      client_sock ≢ invalid_socket
      → (claim_slot client_sock 0 m.clients).0 ≡ none
      → accept_client m client_sock created ≡ record m { accepting = rejected client_sock }
  unfolding accept_client
  accept_full e h = ground arith

  accept_claimed :
      (k : ℕ) (clients : List Client)
      → client_sock ≢ invalid_socket
      → (claim_slot client_sock 0 m.clients).0 ≡ some k
      → (claim_slot client_sock 0 m.clients).1 ≡ clients
      → accept_client m client_sock created
        ≡ record m { clients = clients; accepting = claimed k client_sock }
  unfolding accept_client
  accept_claimed k clients e h f = ground arith

  accept_waiting : IsConsistent m → IsConsistent (accept_client m client_sock created)
  accept_waiting v = elim (ℕ_discrete client_sock invalid_socket) [
    | yes e ↦ subst IsConsistent (sym (accept_invalid e)) v
    | no e ↦ elim (claim_slot_lem client_sock 0 m.clients) [
      | inl (full, _, _) ↦ subst IsConsistent (sym (accept_full e full)) waiting_still
      | inr (k, claims, changed, free, inside, _) ↦
          subst IsConsistent
            (sym (
              accept_claimed k (set m.clients k (taken client_sock)) e
                (claims ∙ ap some (zero-add k)) changed))
            (claimed-Holds m.clients m.threads waiting_still k client_sock free inside)
    ]
  ]
    where
      waiting_still : Holds m.clients m.threads
      waiting_still = subst (λ a. Holds m.clients (holders a m.threads)) at v

accept_client-Holds :
    (clients : List Client) (threads : List Thread) (accepting : Accepting) (actions : List Action)
    (client_sock : ℕ) (created : Bool)
    → let m : Monitor = record {
      clients = clients;
      threads = threads;
      accepting = accepting;
      actions = actions;
    } in
      IsConsistent m → IsConsistent (accept_client m client_sock created)
unfolding accept_client
accept_client-Holds clients threads waiting actions client_sock created v =
    accept_waiting _ client_sock created refl v
accept_client-Holds clients threads (claimed i sock) actions client_sock true v = v
accept_client-Holds clients threads (claimed i sock) actions client_sock false v = v
accept_client-Holds clients threads (unstarted i sock) actions client_sock created v =
    deactivated-Holds clients threads _ v
accept_client-Holds clients threads (rejected sock) actions client_sock created v = v

pub accept_client-IsConsistent :
    (m : Monitor) (client_sock : ℕ) (created : Bool)
    → IsConsistent m
    → IsConsistent (accept_client m client_sock created)
accept_client-IsConsistent m client_sock created v =
    accept_client-Holds m.clients m.threads m.accepting m.actions client_sock created v

-- Where a thread stands among the holders.
index : Accepting → ℕ → ℕ
index waiting j = j
index (claimed i sock) j = suc j
index (unstarted i sock) j = suc j
index (rejected sock) j = j

holders_at :
    (a : Accepting) (threads : List Thread) (j : ℕ)
    → (get_elem? (holders a threads) (index a j) ≡ get_elem? threads j)
      × ((t : Thread) → set (holders a threads) (index a j) t ≡ holders a (set threads j t))
      × (remove (index a j) (holders a threads) ≡ holders a (remove j threads))
unfolding index remove
holders_at waiting threads j = (refl, λ t. refl, refl)
holders_at (claimed i sock) threads j = (refl, λ t. refl, refl)
holders_at (unstarted i sock) threads j = (refl, λ t. refl, refl)
holders_at (rejected sock) threads j = (refl, λ t. refl, refl)

pub close_client-IsConsistent :
    (m : Monitor) (j : ℕ) (t : Thread)
    → get_elem? m.threads j ≡ some t
    → IsConsistent m
    → IsConsistent (close_client m j t)
unfolding close_client
close_client-IsConsistent m j t at v =
    let (same, sets, _) = holders_at m.accepting m.threads j in
    let k = index m.accepting j in
    let all = holders m.accepting m.threads in
    subst (Holds m.clients) (sets (record t { closing = true })) (record {
      slots = v.slots;
      served = λ i. threads_of-set all k t i (same ∙ at) ∙ v.served i;
      own = OwnSockets-set m.clients all k t v.own (same ∙ at);
    })

-- The slot of a thread that leaves is served by no other.
left-Holds :
    (clients : List Client) (threads : List Thread) (j : ℕ) (t : Thread)
    → get_elem? threads j ≡ some t
    → Holds clients threads
    → Holds (release t.client_id clients) (remove j threads)
unfolding release
left-Holds clients threads j t at v = record {
  slots = length-set clients t.client_id gone ∙ v.slots;
  served = λ i. ground (
    arith,
    v.served i,
    threads_of-remove threads j t i at,
    active_at-set clients t.client_id gone i inside,
  );
  own =
      OwnSockets-other clients (set clients t.client_id gone) (remove j threads) t.client_id
        (λ i h. ground (arith, sock_at-set clients t.client_id gone i inside))
        (ground (arith, v.served t.client_id, threads_of-remove threads j t t.client_id at))
        (OwnSockets-remove clients threads j v.own);
}
  where
    gone : Client
    gone = record { sock = invalid_socket; active = false }

    inside : t.client_id < length clients
    inside =
        sock_at_inside clients t.client_id t.client_sock
          (OwnSockets-get clients threads j t v.own at)

pub leave_client-IsConsistent :
    (m : Monitor) (j : ℕ) (t : Thread)
    → get_elem? m.threads j ≡ some t
    → IsConsistent m
    → IsConsistent (leave_client m j t)
unfolding leave_client
leave_client-IsConsistent m j t at v =
    let (same, _, removes) = holders_at m.accepting m.threads j in
    subst (Holds (release t.client_id m.clients)) removes
      (left-Holds m.clients (holders m.accepting m.threads) (index m.accepting j) t (same ∙ at) v)

-- Steps that only add to the log.
log-IsConsistent :
    (m m' : Monitor) (actions : List Action)
    → m' ≡ record m { actions = actions }
    → IsConsistent m
    → IsConsistent m'
log-IsConsistent m m' actions e v = subst IsConsistent (sym e) v

Outcome-cases {ℓ} :
    {A : Type ℓ} (o : Outcome A) → ((a : A) × (o ≡ done a)) ⊎ ((e : Fault) × (o ≡ fault e))
Outcome-cases (done a) = inl (a, refl)
Outcome-cases (fault e) = inr (e, refl)

serve_client_log :
    (s : Stack) (m m' : Monitor) (t : Thread) (bytes : List ℕ)
    → serve_client s m t bytes ≡ done m'
    → (actions : List Action) × (m' ≡ record m { actions = actions })
unfolding serve_client
serve_client_log s m m' t bytes h =
    elim (Bool-cases (strstr (c_string bytes) (codes "GET_STATS"))) [
      | inr other ↦ (m.actions, ground arith)
      | inl asked ↦ elim (Outcome-cases (stats_message s)) [
        | inl (text, e) ↦ (Action.sent t.client_sock text ∷ m.actions, ground arith)
        | inr (f, e) ↦ absurd (ground arith)
      ]
    ]

broadcast_stats_log :
    (s : Stack) (m m' : Monitor)
    → broadcast_stats s m ≡ done m'
    → (actions : List Action) × (m' ≡ record m { actions = actions })
unfolding broadcast_stats
broadcast_stats_log s m m' h = elim (Outcome-cases (stats_message s)) [
  | inl (text, e) ↦ (broadcast_to text m.clients m.actions, ground arith)
  | inr (f, e) ↦ absurd (ground arith)
]

pub Step-IsConsistent : {m m' : Monitor} → Step m m' → IsConsistent m → IsConsistent m'
Step-IsConsistent (Threads.accepted client_sock created e) v =
    subst IsConsistent (sym e) (accept_client-IsConsistent _ client_sock created v)
Step-IsConsistent {m} {m'} (Threads.received s j t bytes at open_still e) v =
    let (actions, same) = serve_client_log s m m' t bytes e in log-IsConsistent m m' actions same v
Step-IsConsistent (Threads.closed j t at open_still e) v =
    subst IsConsistent (sym e) (close_client-IsConsistent _ j t at v)
Step-IsConsistent (Threads.left j t at gone e) v =
    subst IsConsistent (sym e) (leave_client-IsConsistent _ j t at v)
Step-IsConsistent {m} {m'} (Threads.broadcast s e) v =
    let (actions, same) = broadcast_stats_log s m m' e in log-IsConsistent m m' actions same v

abbrev free_client : Client
free_client = record { sock = 0; active = false }

active_at-replicate : (n i : ℕ) → active_at (replicate n free_client) i ≡ false
active_at-replicate zero i = refl
active_at-replicate (suc n) zero = refl
active_at-replicate (suc n) (suc i) = active_at-replicate n i

init-IsConsistent :
    (m : Monitor) (created : Bool)
    → m.threads ≡ []
    → IsConsistent (monitor_server_init m true created).1
unfolding monitor_server_init
init-IsConsistent m created none_yet = record {
  slots = refl;
  served = λ i.
      ap (threads_of i) none_yet
      ∙ sym (ap (λ b. if b then 1 else 0) (active_at-replicate max_clients i));
  own = subst (OwnSockets (replicate max_clients free_client)) (sym none_yet) tt;
}

-- However the steps of the threads follow each other after `monitor_server_init`, the accepting thread
-- between claiming a slot and starting the client's thread or giving the slot back included: there are
-- ten slots; each slot in use is served by exactly one thread or is the one that the accepting thread
-- has claimed and not yet passed on or given back, and a free one by none; and every thread has the
-- socket that its slot names.
pub Reaches-IsConsistent :
    (m m' : Monitor) (created : Bool)
    → m.threads ≡ []
    → Reaches (monitor_server_init m true created).1 m'
    → IsConsistent m'
Reaches-IsConsistent m m' created none_yet reaches =
    steps reaches (init-IsConsistent m created none_yet)
  where
    steps : {a b : Monitor} → Reaches a b → IsConsistent a → IsConsistent b
    steps Threads.start v = v
    steps (Threads.step before last) v = Step-IsConsistent last (steps before v)
