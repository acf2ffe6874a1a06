-- ===== src/Monitor.antt =====
-- src/monitor_server.c: the server that tells its clients the counters. The sockets, and whether the
-- calls of the operating system succeed, are arguments; what is sent and closed is kept in a log. The
-- threads are values: each function is what one thread does while no other runs.
pub mod Slots
pub mod Threads
pub mod Consistency
pub mod Tests
use hitsz_network_lab.Common.{
  ℕ, suc, ◌+◌, ◌-◌, ◌^◌, Bool, true, false, not, ◌&&◌, List, [], ◌∷◌, ◌++◌, length, set, replicate,
  ltb, leb, ◌==◌, if◌then◌else◌, Option, none, some,
}
use hitsz_network_lab.Stack.{Stack, Outcome, done, fault, out_of_bounds, ◌>>=◌}
use hitsz_network_lab.Stack.Json.{protocol_stats_to_json}
use hitsz_network_lab.Text.{codes, c_string, strstr}

-- MAX_CLIENTS, INVALID_SOCKET, and the size of the buffers for the statistics.
abbrev pub max_clients : ℕ
max_clients = 10

abbrev pub invalid_socket : ℕ
invalid_socket = 2 ^ 64 - 1

abbrev pub stats_size : ℕ
stats_size = 8192

-- `client_t`
pub record Client : Type 0 where
  pub sock : ℕ
  pub active : Bool

pub data Action : Type 0 where
  sent : ℕ → List ℕ → Action
  closed : ℕ → Action

-- A thread that runs `client_handler`; it is `closing` once it has closed its socket.
pub record Thread : Type 0 where
  pub client_id : ℕ
  pub client_sock : ℕ
  pub closing : Bool

-- Where the thread that accepts connections stands: before `accept`; with a slot, before
-- `CreateThread`; with a slot, its socket closed since no thread was created; or without a slot.
pub data Accepting : Type 0 where
  waiting : Accepting
  claimed unstarted : ℕ → ℕ → Accepting
  rejected : ℕ → Accepting

pub record Monitor : Type 0 where
  pub clients : List Client
  pub threads : List Thread
  pub accepting : Accepting
  -- The newest first.
  pub actions : List Action

-- The loop for a free slot, from slot `i` on: its number, or `none` for -1, and the slots.
unfoldable pub claim_slot : ℕ → ℕ → List Client → Option ℕ × List Client
claim_slot client_sock i [] = (none, [])
claim_slot client_sock i (c ∷ clients) =
    let (client_id, rest) = claim_slot client_sock (suc i) clients in
    if not c.active
    then (some i, record { sock = client_sock; active = true } ∷ clients)
    else (client_id, c ∷ rest)

-- `clients[client_id].active = 0`, and the same with the socket forgotten.
unfoldable pub deactivate : ℕ → List Client → List Client
deactivate i [] = []
deactivate ℕ.zero (c ∷ clients) = record c { active = false } ∷ clients
deactivate (suc i) (c ∷ clients) = c ∷ deactivate i clients

unfoldable pub release : ℕ → List Client → List Client
release i clients = set clients i (record { sock = invalid_socket; active = false })

-- One step of `monitor_server_thread`: what it does under the lock, or between the lock and the next
-- call. `client_sock` is what `accept` returns, `created` whether `CreateThread` succeeds.
unfoldable pub accept_client : Monitor → ℕ → Bool → Monitor
unfolding claim_slot deactivate
accept_client m client_sock created = elim m.accepting [
  | waiting ↦
      if client_sock == invalid_socket
      then m
      else (let (client_id, clients) = claim_slot client_sock 0 m.clients in
          elim client_id [
            | none ↦ record m { accepting = rejected client_sock }
            | some i ↦ record m { clients = clients; accepting = claimed i client_sock }
          ])
  | claimed i sock ↦
      if created
      then record m {
        threads = record { client_id = i; client_sock = sock; closing = false } ∷ m.threads;
        accepting = waiting;
      }
      else record m { accepting = unstarted i sock; actions = closed sock ∷ m.actions }
  | unstarted i sock ↦ record m { clients = deactivate i m.clients; accepting = waiting }
  | rejected sock ↦ record m { accepting = waiting; actions = closed sock ∷ m.actions }
]

-- The statistics with the line feed that ends a message. The length is what `snprintf` returns.
unfoldable pub stats_message : Stack → Outcome (List ℕ)
stats_message s =
    let (len, text) = protocol_stats_to_json s (stats_size - 2) in
    if ltb 0 len
    then if leb stats_size (len + 1) then fault out_of_bounds else done (text ++ 10 ∷ [])
    else done text

-- What `client_handler` does with a buffer that `recv` filled.
unfoldable pub serve_client : Stack → Monitor → Thread → List ℕ → Outcome Monitor
serve_client s m t received =
    if strstr (c_string received) (codes "GET_STATS")
    then (stats_message s >>= λ text.
        done (record m { actions = sent t.client_sock text ∷ m.actions }))
    else done m

-- The end of `client_handler`, for the thread at index `j`: the socket is closed, and then the slot
-- is given back under the lock.
unfoldable pub close_client : Monitor → ℕ → Thread → Monitor
close_client m j t = record m {
  threads = set m.threads j (record t { closing = true });
  actions = closed t.client_sock ∷ m.actions;
}

unfoldable pub remove : ℕ → List Thread → List Thread
remove j [] = []
remove ℕ.zero (t ∷ threads) = threads
remove (suc j) (t ∷ threads) = t ∷ remove j threads

unfoldable pub leave_client : Monitor → ℕ → Thread → Monitor
unfolding release remove
leave_client m j t = record m {
  clients = release t.client_id m.clients;
  threads = remove j m.threads;
}

-- The loop of `broadcast_stats`, with the log so far.
unfoldable pub broadcast_to : List ℕ → List Client → List Action → List Action
broadcast_to text [] actions = actions
broadcast_to text (c ∷ clients) actions =
    broadcast_to text clients
      (if c.active && not (c.sock == invalid_socket) then sent c.sock text ∷ actions else actions)

unfoldable pub broadcast_stats : Stack → Monitor → Outcome Monitor
broadcast_stats s m =
    stats_message s >>= λ text. done (record m { actions = broadcast_to text m.clients m.actions })

-- The result is whether the thread that accepts connections was started.
unfoldable pub monitor_server_init : Monitor → Bool → Bool → Bool × Monitor
monitor_server_init m started created = if not started then (false, m) else (
  created,
  record m {
    clients = replicate max_clients (record { sock = 0; active = false });
    accepting = waiting;
  },
)

-- The loop of `monitor_server_cleanup`.
unfoldable pub close_all : List Client → List Action → List Action
close_all [] actions = actions
close_all (c ∷ clients) actions =
    close_all clients (if c.sock == invalid_socket then actions else closed c.sock ∷ actions)

unfoldable pub monitor_server_cleanup : Monitor → Monitor
unfolding close_all
monitor_server_cleanup m = record m { actions = close_all m.clients m.actions }

-- `main` of app/monitor_server_main.c: after the start it sleeps until it is stopped.
unfoldable pub monitor_main : Monitor → Bool → Bool → Monitor
unfolding monitor_server_init monitor_server_cleanup
monitor_main m started created = monitor_server_cleanup (monitor_server_init m started created).1
