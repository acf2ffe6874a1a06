-- ===== src/Monitor/Tests.antt =====
-- The theorems about src/monitor_server.c after three steps, and runs of its functions.
use hitsz_network_lab.Common.{◌≡◌, refl, true, false, List, [], ◌∷◌, replicate, some}
use hitsz_network_lab.Text.{codes}
use hitsz_network_lab.Monitor.{
  Client, Thread, waiting, Monitor, Action, max_clients, claim_slot, accept_client, close_client,
  broadcast_to, monitor_server_init, monitor_server_cleanup,
}
use hitsz_network_lab.Monitor.Slots.{taken, Claims, claim_slot_lem}
use hitsz_network_lab.Monitor.Threads.{Step, Reaches, IsConsistent}
use hitsz_network_lab.Monitor.Threads
use hitsz_network_lab.Monitor.Consistency.{Reaches-IsConsistent}

abbrev stopped : Monitor
stopped = record { clients = []; threads = []; accepting = waiting; actions = [] }

abbrev started : Monitor
started = (monitor_server_init stopped true true).1

-- A client connects, and its handler closes the socket.
abbrev one_client : Monitor
one_client = accept_client (accept_client started 5 true) 0 true

abbrev handler : Thread
handler = record { client_id = 0; client_sock = 5; closing = false }

abbrev one_closing : Monitor
one_closing = close_client one_client 0 handler

three_steps : Reaches started one_closing
unfolding accept_client claim_slot monitor_server_init
three_steps =
    Threads.step
      (Threads.step (Threads.step Threads.start (Threads.accepted 5 true refl))
        (Threads.accepted 0 true refl))
      (Threads.closed 0 handler refl refl refl)

Reaches-IsConsistent_example : IsConsistent one_closing
Reaches-IsConsistent_example = Reaches-IsConsistent stopped one_closing true refl three_steps

abbrev first_taken : List Client
first_taken = taken 5 ∷ record { sock = 6; active = false } ∷ []

claim_slot_lem_example : Claims 7 0 first_taken (claim_slot 7 0 first_taken)
claim_slot_lem_example = claim_slot_lem 7 0 first_taken

second_slot : claim_slot 7 0 first_taken ≡ (some 1, taken 5 ∷ taken 7 ∷ [])
unfolding claim_slot
second_slot = refl

-- `memset` makes the sockets zero, which is not INVALID_SOCKET: they are closed though never opened.
closes_zero :
    (monitor_server_cleanup (monitor_server_init stopped true true).1).actions
    ≡ replicate max_clients (Action.closed 0)
unfolding monitor_server_init monitor_server_cleanup
closes_zero = refl

-- A broadcast between the two steps of a client that leaves sends on its closed socket.
sends_on_closed :
    broadcast_to (codes "x") one_closing.clients one_closing.actions
    ≡ Action.sent 5 (codes "x") ∷ Action.closed 5 ∷ []
unfolding broadcast_to close_client accept_client claim_slot monitor_server_init
sends_on_closed = refl
