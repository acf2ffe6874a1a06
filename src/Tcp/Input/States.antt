-- ===== src/Tcp/Input/States.antt =====
-- The states that a connection of src/tcp.c goes through, over any sequence of segments.
use hitsz_network_lab.Common.{
  ℕ, ◌+◌, ◌≡◌, inl, inr, refl, sym, ap, subst, ◌∙◌, Bool, List, [], ◌∷◌, ◌++◌, ◌==◌, arith,
  Bool-cases, ==_iff,
}
use hitsz_network_lab.Stack.Tables.{TcpState, TcpConn}
use hitsz_network_lab.Utils.{u32}
use hitsz_network_lab.Tcp.{is_set, bytes_in_flight, reset_conn, flg_ack, flg_syn, flg_fin}
use hitsz_network_lab.Tcp.Input.{Verdict, ignore, duplicate_ack, proceed, transition}

-- What the switch looks at of a segment.
pub record Segment : Type 0 where
  pub flags : ℕ
  pub seq : ℕ
  pub data_len : ℕ

-- The connection after the switch.
abbrev pub after : TcpConn → Verdict → TcpConn
after conn ignore = conn
after conn duplicate_ack = conn
after conn (proceed conn' send_flags closes) = conn'

unfoldable pub next : ℕ → TcpConn → Segment → TcpConn
unfolding transition
next isn conn seg = after conn (transition isn conn seg.flags seg.seq seg.data_len)

-- What becomes of a new connection by the switch of `tcp_in`, and by `tcp_send` and the answers of
-- `tcp_in`, which set its other fields.
pub data Reaches : TcpConn → Type 0 where
  start : Reaches reset_conn
  sent :
      (conn : TcpConn) (seq : ℕ) (not_send_empty_ack : Bool) (port : ℕ)
      → Reaches conn
      → Reaches (record conn { seq = seq; not_send_empty_ack = not_send_empty_ack; port = port })
  step : (conn : TcpConn) (isn : ℕ) (seg : Segment) → Reaches conn → Reaches (next isn conn seg)

abbrev pub IsSupported : TcpState → Type 0
IsSupported TcpState.listen = Unit
IsSupported TcpState.syn_received = Unit
IsSupported TcpState.established = Unit
IsSupported TcpState.last_ack = Unit
IsSupported _ = ⊥

-- The moves of the passive side of a connection.
abbrev pub Follows : TcpState → TcpState → Type 0
Follows TcpState.listen TcpState.syn_received = Unit
Follows TcpState.syn_received TcpState.established = Unit
Follows TcpState.established TcpState.last_ack = Unit
Follows a b = a ≡ b

-- The state after the switch, from a connection in a given state.
next_state :
    (isn : ℕ) (seg : Segment) (state : TcpState) (conn : TcpConn)
    → Follows state (next isn (record conn { state = state }) seg).state
unfolding next
next_state isn seg TcpState.listen conn = elim (Bool-cases (is_set seg.flags flg_syn)) [
  | inl syn ↦ rw (next, transition, syn) tt
  | inr none ↦ rw (next, transition, none) refl
]
next_state isn seg TcpState.syn_received conn = elim (Bool-cases (is_set seg.flags flg_ack)) [
  | inl ack ↦ rw (next, transition, ack) tt
  | inr none ↦ rw (next, transition, none) refl
]
next_state isn seg TcpState.established conn = elim (Bool-cases (seg.seq == conn.ack)) [
  | inl in_order ↦ elim (Bool-cases (is_set seg.flags flg_fin)) [
    | inl fin ↦ rw (next, transition, in_order, fin) tt
    | inr more ↦ rw (next, transition, in_order, more) refl
  ]
  | inr lost ↦ rw (next, transition, lost) refl
]
next_state isn seg TcpState.last_ack conn = elim (Bool-cases (is_set seg.flags flg_ack)) [
  | inl ack ↦ rw (next, transition, ack) refl
  | inr none ↦ rw (next, transition, none) refl
]
next_state isn seg TcpState.closed conn = refl
next_state isn seg TcpState.syn_sent conn = refl
next_state isn seg TcpState.fin_wait1 conn = refl
next_state isn seg TcpState.fin_wait2 conn = refl
next_state isn seg TcpState.closing conn = refl
next_state isn seg TcpState.time_wait conn = refl
next_state isn seg TcpState.close_wait conn = refl

Follows-IsSupported : (a b : TcpState) → Follows a b → IsSupported a → IsSupported b
Follows-IsSupported TcpState.listen TcpState.syn_received f s = tt
Follows-IsSupported TcpState.syn_received TcpState.established f s = tt
Follows-IsSupported TcpState.established TcpState.last_ack f s = tt
Follows-IsSupported a b f s = subst IsSupported f s

-- For a connection that the switch of `tcp_in` makes of a new one over any sequence of segments, with
-- any changes of its sequence number, its flag and its port in between, as sending makes them: the
-- connection listens, has received a SYN, is established or waits for the last ACK, and the switch
-- takes it along the passive side's states or leaves its state. So the branch for a state that is not
-- supported is never run.
pub Reaches-IsSupported :
    (conn : TcpConn)
    → Reaches conn
    → IsSupported conn.state
      × ((isn : ℕ) (seg : Segment) → Follows conn.state (next isn conn seg).state)
Reaches-IsSupported conn r = (supported conn r, λ isn seg. next_state isn seg conn.state conn)
  where
    supported : (conn : TcpConn) → Reaches conn → IsSupported conn.state
    supported _ start = tt
    supported _ (sent conn seq flag port before) = supported conn before
    supported _ (step conn isn seg before) =
        Follows-IsSupported conn.state (next isn conn seg).state
          (next_state isn seg conn.state conn) (supported conn before)

-- All the segments of a list, one after the other.
unfoldable pub run : ℕ → TcpConn → List Segment → TcpConn
unfolding next
run isn conn [] = conn
run isn conn (seg ∷ rest) = run isn (next isn conn seg) rest

-- A stream of `lens` bytes each in segments with ACK and PSH set, from the sequence number `seq` on.
unfoldable pub stream : ℕ → List ℕ → List Segment
stream seq [] = []
stream seq (len ∷ rest) =
    record { flags = 24; seq = seq; data_len = len } ∷ stream (u32 (seq + len)) rest

abbrev pub sum : List ℕ → ℕ
sum [] = 0
sum (n ∷ ns) = n + sum ns

data_segment :
    (isn : ℕ) (conn : TcpConn) (len : ℕ)
    → conn.state ≡ TcpState.established
    → next isn conn (record { flags = 24; seq = conn.ack; data_len = len })
      ≡ record conn { ack = u32 (conn.ack + len) }
unfolding next transition bytes_in_flight is_set
data_segment isn conn len e = rw (e, (==_iff conn.ack conn.ack).1 refl) refl

fin_segment :
    (isn : ℕ) (conn : TcpConn)
    → conn.state ≡ TcpState.established
    → next isn conn (record { flags = 17; seq = conn.ack; data_len = 0 })
      ≡ record conn { state = TcpState.last_ack; ack = u32 (conn.ack + 1) }
unfolding next transition bytes_in_flight is_set
fin_segment isn conn e = rw (e, (==_iff conn.ack conn.ack).1 refl) refl

run_append :
    (isn : ℕ) (conn : TcpConn) (xs ys : List Segment)
    → run isn conn (xs ++ ys) ≡ run isn (run isn conn xs) ys
unfolding run
run_append isn conn [] ys = refl
run_append isn conn (x ∷ xs) ys = run_append isn (next isn conn x) xs ys

run-stream :
    (isn seq total : ℕ) (conn : TcpConn) (lens : List ℕ)
    → conn.state ≡ TcpState.established
    → conn.ack ≡ seq
    → u32 (seq + sum lens) ≡ total
    → u32 seq ≡ seq
    → run isn conn (stream seq lens) ≡ record conn { ack = total }
unfolding run stream
run-stream isn seq total conn [] e a t small = ap (λ n. record conn { ack = n }) (omega arith)
run-stream isn seq total conn (len ∷ rest) e a t small =
    ap (λ c. run isn c (stream (u32 (seq + len)) rest))
      (ap (λ n. next isn conn (record { flags = 24; seq = n; data_len = len })) (sym a)
        ∙ data_segment isn conn len e)
    ∙ run-stream isn (u32 (seq + len)) total (record conn { ack = u32 (conn.ack + len) }) rest e
        (ap (λ n. u32 (n + len)) a) (omega arith) (omega arith)

-- A connection as the remote side leads it: SYN, ACK, data in order, FIN.
abbrev pub conversation : ℕ → List ℕ → List Segment
conversation seq lens =
    record { flags = 2; seq = seq; data_len = 0 }
    ∷ record { flags = 16; seq = u32 (seq + 1); data_len = 0 }
    ∷ (stream (u32 (seq + 1)) lens
        ++ (record { flags = 17; seq = u32 (seq + 1 + sum lens); data_len = 0 } ∷ []))

-- A SYN with sequence number `seq`, an ACK, data in any number of segments and a FIN, all in order,
-- take a new connection to LAST_ACK, and the number to acknowledge is that of the byte behind the
-- FIN: it counts the SYN, every byte and the FIN, modulo 2^32.
pub run-conversation :
    (isn seq : ℕ) (lens : List ℕ)
    → run isn reset_conn (conversation seq lens) ≡ record reset_conn {
      state = TcpState.last_ack;
      seq = isn;
      ack = u32 (seq + 1 + sum lens + 1);
    }
unfolding run next transition bytes_in_flight is_set
run-conversation isn seq lens =
    run_append isn opened (stream (u32 (seq + 1)) lens) (fin ∷ [])
    ∙ ap (λ c. run isn c (fin ∷ []))
        (run-stream isn (u32 (seq + 1)) (u32 (seq + 1 + sum lens)) opened lens refl refl
          (omega arith) (omega arith))
    ∙ fin_segment isn (record opened { ack = u32 (seq + 1 + sum lens) }) refl
    ∙ ap (λ n. record opened { state = TcpState.last_ack; ack = n }) (omega arith)
  where
    opened : TcpConn
    opened = record reset_conn { state = TcpState.established; seq = isn; ack = u32 (seq + 1) }

    fin : Segment
    fin = record { flags = 17; seq = u32 (seq + 1 + sum lens); data_len = 0 }
