-- ===== src/Tcp/Tests.antt =====
-- The theorems about src/tcp.c at a short connection.
use hitsz_network_lab.Common.{ℕ, ◌+◌, ◌≡◌, refl, [], ◌∷◌}
use hitsz_network_lab.Stack.Tables.{TcpState}
use hitsz_network_lab.Utils.{u32}
use hitsz_network_lab.Tcp.{reset_conn}
use hitsz_network_lab.Tcp.Input.States.{
  Segment, next, start, step, IsSupported, Follows, Reaches-IsSupported, run, conversation, sum,
  run-conversation,
}
use hitsz_network_lab.Common.{true, false, take, arith, List, ◌++◌}
use hitsz_network_lab.Stack.Tables.{TcpConn}
use hitsz_network_lab.Tcp.Input.Streams.{Piece, receive, reached, receive-reached, receive-twice}
use hitsz_network_lab.Common.{none, if◌then◌else◌, ◌==◌, nat_eq}
use hitsz_network_lab.Map
use hitsz_network_lab.Map.{lookup, capacity}
use hitsz_network_lab.Map.Invariant.{IsValid, init-IsValid, set-IsValid}
use hitsz_network_lab.Stack.{Stack}
use hitsz_network_lab.Stack.Tables.{TcpKey, tcp_key_Eq}
use hitsz_network_lab.Stack.Example.{example, remote_ip}
use hitsz_network_lab.Tcp.{tcp_close}
use hitsz_network_lab.Tcp.Closing.{tcp_close_lem}

abbrev syn : Segment
syn = record { flags = 2; seq = 1000; data_len = 0 }

Reaches-IsSupported_example :
    IsSupported (next 77 reset_conn syn).state
    × ((isn : ℕ) (seg : Segment)
        → Follows (next 77 reset_conn syn).state (next isn (next 77 reset_conn syn) seg).state)
Reaches-IsSupported_example =
    Reaches-IsSupported (next 77 reset_conn syn) (step reset_conn 77 syn start)

-- The sequence number wraps on the way.
run-conversation_example :
    run 77 reset_conn (conversation 4294967290 (5 ∷ 8 ∷ [])) ≡ record reset_conn {
      state = TcpState.last_ack;
      seq = 77;
      ack = u32 (4294967290 + 1 + sum (5 ∷ 8 ∷ []) + 1);
    }
run-conversation_example = run-conversation 77 4294967290 (5 ∷ 8 ∷ [])

abbrev established_conn : TcpConn
established_conn = record reset_conn { state = TcpState.established; seq = 78; ack = 4294967294 }

-- Four bytes: the end comes too early, and the beginning twice.
abbrev pieces : List Piece
pieces =
    record { off = 3; len = 1; push = true }
    ∷ record { off = 0; len = 3; push = false }
    ∷ record { off = 0; len = 3; push = false }
    ∷ record { off = 3; len = 1; push = true }
    ∷ []

receive-reached_example : receive 77 4294967294 (1 ∷ 2 ∷ 3 ∷ 4 ∷ []) established_conn pieces ≡ (
  take (reached 0 pieces) (1 ∷ 2 ∷ 3 ∷ 4 ∷ []),
  record established_conn { ack = u32 (4294967294 + reached 0 pieces) },
)
receive-reached_example =
    receive-reached 77 4294967294 (1 ∷ 2 ∷ 3 ∷ 4 ∷ []) established_conn pieces refl refl
      (omega arith) (ground arith)

abbrev half_open : TcpConn
half_open = record reset_conn { state = TcpState.syn_received; seq = 77; ack = 1001 }

receive-twice_example :
    let p : Piece = record { off = 0; len = 2; push = true } in
    receive 77 1001 (1 ∷ 2 ∷ []) half_open (p ∷ p ∷ []) ≡ (
      take 2 (1 ∷ 2 ∷ []) ++ take 2 (1 ∷ 2 ∷ []),
      record half_open { state = TcpState.established; ack = u32 (1001 + 2) },
    )
receive-twice_example = receive-twice 77 1001 2 (1 ∷ 2 ∷ []) half_open true refl refl

abbrev key_of : ℕ → TcpKey
key_of port = record { remote_ip = remote_ip; remote_port = 40000; host_port = port }

-- Connections to the ports 80 and 81.
abbrev connected : Stack
connected = record example {
  tcp_conn_table =
      (Map.set 1000 (Map.set 1000 example.tcp_conn_table (key_of 80) half_open).1 (key_of 81)
        established_conn).1;
}

connections-IsValid : IsValid 1000 connected.tcp_conn_table
connections-IsValid =
    set-IsValid 1000 (Map.set 1000 example.tcp_conn_table (key_of 80) half_open).1 (key_of 81)
      established_conn (omega arith)
      (set-IsValid 1000 example.tcp_conn_table (key_of 80) half_open (omega arith)
        (init-IsValid 1000 _ _ _ _ _ _ _ (unfold capacity in omega arith)))

tcp_close_lem_example :
    (lookup 1000 (tcp_close connected 80).tcp_conn_table (key_of 80)
      ≡ (if 80 == 80 then none else lookup 1000 connected.tcp_conn_table (key_of 80)))
    × (lookup 1000 (tcp_close connected 80).tcp_handler_table 7
        ≡ (if 80 == 7 then none else lookup 1000 connected.tcp_handler_table 7))
tcp_close_lem_example =
    tcp_close_lem connected 80 (key_of 80) 7 connections-IsValid
      (init-IsValid 1000 _ _ _ _ _ _ _ (unfold capacity in omega arith))
