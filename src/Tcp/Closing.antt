-- ===== src/Tcp/Closing.antt =====
-- `tcp_close` of src/tcp.c, which deletes entries while it walks over the table.
use hitsz_network_lab.Common.{
  ℕ, zero, suc, ◌+◌, ◌≡◌, ◌≢◌, ◌≤◌, ◌<◌, refl, sym, ap, subst, ◌∙◌, true, false, ltb, none, some,
  get_elem?, nat_eq, arith, Option-cases, Bool-cases, inl, inr, ◌==◌, ==_iff, if◌then◌else◌,
}
use hitsz_network_lab.Map.{
  Map, Slot, entry_valid, entry_valid_at, foreach, foreach_from, find, delete, lookup,
}
use hitsz_network_lab.Map.Lookup.{lookup-eq}
use hitsz_network_lab.Map.Cases.{delete_cases}
use hitsz_network_lab.Map.Invariant.{IsValid, delete-IsValid}
use hitsz_network_lab.Map.Laws.{lookup-delete}
use hitsz_network_lab.Map.Lifetime.{beq_self}
use hitsz_network_lab.Map.Uniqueness.{lookup_slots-none}
use hitsz_network_lab.Map.Sweep.{get_elem?-modify, find-slot, find-first}
use hitsz_network_lab.Stack.{Stack}
use hitsz_network_lab.Stack.Tables.{TcpKey, TcpConn, tcp_key_Eq}
use hitsz_network_lab.Tcp.{close_port_fn, tcp_close}

module _ (now port : ℕ) where
  -- The slots in front of `i` hold no connection of the port.
  abbrev IsCleared : ℕ → Map TcpKey TcpConn → Type 0
  IsCleared i m =
      (j : ℕ) (s : Slot TcpKey TcpConn)
      → j < i
      → get_elem? m.slots j ≡ some s
      → entry_valid now m.timeout s ≡ true
      → (s.key.host_port == port) ≡ false

  -- What holds when the slots in front of `i` have been visited.
  record Swept (start : Map TcpKey TcpConn) (i : ℕ) (m : Map TcpKey TcpConn) : Type 0 where
    valid : IsValid now m
    sized : m.max_size ≡ start.max_size
    cleared : IsCleared i m
    kept :
        (key : TcpKey) → (key.host_port == port) ≡ false → lookup now m key ≡ lookup now start key

  IsCleared-next :
      (i : ℕ) (m : Map TcpKey TcpConn)
      → IsCleared i m
      → ((s : Slot TcpKey TcpConn)
          → get_elem? m.slots i ≡ some s
          → entry_valid now m.timeout s ≡ true
          → (s.key.host_port == port) ≡ false)
      → IsCleared (i + 1) m
  IsCleared-next i m cleared last j s below at valid = elim (Bool-cases (j == i)) [
    | inl here ↦ last s (subst (λ k. get_elem? m.slots k ≡ some s) ((==_iff j i).0 here) at) valid
    | inr before ↦ cleared j s (ground arith) at valid
  ]

  -- The connection in slot `i` is the one that `map_get` finds by its key.
  find-next :
      (i p : ℕ) (m : Map TcpKey TcpConn) (s : Slot TcpKey TcpConn)
      → IsCleared i m
      → get_elem? m.slots i ≡ some s
      → entry_valid now m.timeout s ≡ true
      → (s.key.host_port == port) ≡ true
      → find now m.timeout s.key m.slots ≡ some p
      → p ≡ i
  find-next i p m s cleared at valid ours hit =
      let (q, hit', le) = find-first now m.timeout s.key m.slots i s at valid (beq_self s.key) in
      let (t, at', valid', same, _) = find-slot now m.timeout s.key m.slots p hit in
      elim (Bool-cases (ltb p i)) [
        | inl before ↦ absurd (
            differ t ((tcp_key_Eq.beq_iff s.key t.key).0 same)
              (cleared p t (ground arith) at' valid'))
        | inr here ↦ omega (arith, not_before here, unique q hit', le)
      ]
    where
      differ : (t : Slot TcpKey TcpConn) → s.key ≡ t.key → (t.key.host_port == port) ≢ false
      differ t e b = cc (ap (λ k. k.host_port == port) e)

      unique : (q : ℕ) → find now m.timeout s.key m.slots ≡ some q → p ≡ q
      unique q hit' = cc

      not_before : ltb p i ≡ false → i ≤ p
      not_before here = ground arith

  free_slot :
      (timeout : ℕ) (t s : Slot TcpKey TcpConn)
      → record t { stamp = 0 } ≡ s
      → entry_valid now timeout s ≢ true
  unfolding entry_valid
  free_slot timeout t s made valid = ground (arith, ap (λ x. x.stamp) made)

  delete-IsCleared :
      (i : ℕ) (m : Map TcpKey TcpConn) (s : Slot TcpKey TcpConn)
      → IsCleared i m
      → get_elem? m.slots i ≡ some s
      → entry_valid now m.timeout s ≡ true
      → (s.key.host_port == port) ≡ true
      → IsCleared (i + 1) (delete now m s.key)
  delete-IsCleared i m s cleared at valid ours =
      delete_cases (λ m'. IsCleared (i + 1) m') now m s.key
        (λ p hit j s' below at' valid'.
          let here = find-next i p m s cleared at valid ours hit in
          elim (get_elem?-modify p j _ m.slots s' at') [
            | inl (e, (t, before, made)) ↦ absurd (free_slot m.timeout t s' made valid')
            | inr (elsewhere, same) ↦ cleared j s' (apart p j here elsewhere below) same valid'
          ])
        (λ miss. absurd (found miss))
    where
      apart : (p j : ℕ) → p ≡ i → p ≢ j → j < i + 1 → j < i
      apart p j here elsewhere below = omega arith

      found : find now m.timeout s.key m.slots ≢ none
      found miss =
          let (q, hit, le) = find-first now m.timeout s.key m.slots i s at valid (beq_self s.key) in
          clash q hit miss
        where
          clash :
              (q : ℕ)
              → find now m.timeout s.key m.slots ≡ some q
              → find now m.timeout s.key m.slots ≢ none
          clash q a b = cc

  other_key :
      (s : Slot TcpKey TcpConn) (key : TcpKey)
      → (s.key.host_port == port) ≡ true
      → (key.host_port == port) ≡ false
      → tcp_key_Eq.beq s.key key ≡ false
  other_key s key ours differs = elim (Bool-cases (tcp_key_Eq.beq s.key key)) [
    | inr different ↦ different
    | inl alike ↦ absurd (clashing ((tcp_key_Eq.beq_iff s.key key).0 alike))
  ]
    where
      clashing : s.key ≢ key
      clashing e = cc (ap (λ k. k.host_port == port) e)

  -- One round of `map_foreach`.
  round-Swept :
      (start : Map TcpKey TcpConn) (i : ℕ) (m : Map TcpKey TcpConn)
      → Swept start i m
      → Swept start
          (i + 1)
          (if entry_valid_at now m (get_elem? m.slots i) then close_port_fn now port i m else m)
  unfolding entry_valid_at close_port_fn
  round-Swept start i m w = elim (Option-cases (get_elem? m.slots i)) [
    | inl outside ↦ rw (outside, entry_valid_at) (stays (λ s at valid. absurd (clash s outside at)))
    | inr (s, at) ↦ elim (Bool-cases (entry_valid now m.timeout s)) [
      | inr free ↦
          rw (at, entry_valid_at, free)
            (stays (λ s' at' valid. absurd (idle s s' at at' free valid)))
      | inl used ↦ elim (Bool-cases (s.key.host_port == port)) [
        | inr other ↦
            rw (at, entry_valid_at, used, close_port_fn, other)
              (stays (λ s' at' valid. rw (unique s s' at at') other))
        | inl ours ↦ rw (at, entry_valid_at, used, close_port_fn, ours) (closes s at used ours)
      ]
    ]
  ]
    where
      clash : (s : Slot TcpKey TcpConn) → get_elem? m.slots i ≡ none → get_elem? m.slots i ≢ some s
      clash s a b = cc

      stays :
          ((s : Slot TcpKey TcpConn)
            → get_elem? m.slots i ≡ some s
            → entry_valid now m.timeout s ≡ true
            → (s.key.host_port == port) ≡ false)
          → Swept start (i + 1) m
      stays last = record {
        valid = w.valid;
        sized = w.sized;
        cleared = IsCleared-next i m w.cleared last;
        kept = w.kept;
      }

      unique :
          (s s' : Slot TcpKey TcpConn)
          → get_elem? m.slots i ≡ some s
          → get_elem? m.slots i ≡ some s'
          → s' ≡ s
      unique s s' a b = cc

      idle :
          (s s' : Slot TcpKey TcpConn)
          → get_elem? m.slots i ≡ some s
          → get_elem? m.slots i ≡ some s'
          → entry_valid now m.timeout s ≡ false
          → entry_valid now m.timeout s' ≢ true
      idle s s' a b free used = cc

      closes :
          (s : Slot TcpKey TcpConn)
          → get_elem? m.slots i ≡ some s
          → entry_valid now m.timeout s ≡ true
          → (s.key.host_port == port) ≡ true
          → Swept start (i + 1) (delete now m s.key)
      closes s at used ours = record {
        valid = delete-IsValid now m s.key w.valid;
        sized =
            delete_cases (λ m'. m'.max_size ≡ start.max_size) now m s.key (λ _ _. w.sized)
              (λ _. w.sized);
        cleared = delete-IsCleared i m s w.cleared at used ours;
        kept = λ key differs.
            lookup-delete now m s.key key w.valid
            ∙ ap (λ b. if b then none else lookup now m key) (other_key s key ours differs)
            ∙ w.kept key differs;
      }

  foreach-Swept :
      (start : Map TcpKey TcpConn) (n i k : ℕ) (m : Map TcpKey TcpConn)
      → k ≡ i + n
      → Swept start i m
      → Swept start k (foreach_from now (close_port_fn now port) n i m)
  unfolding foreach_from
  foreach-Swept start zero i k m e w = subst (λ j. Swept start j m) (omega arith) w
  foreach-Swept start (suc n) i k m e w =
      foreach-Swept start n (i + 1) k _ (omega arith) (round-Swept start i m w)

  -- A table where all slots are cleared has no connection of the port.
  cleared-none :
      (m : Map TcpKey TcpConn) (key : TcpKey)
      → IsValid now m
      → IsCleared m.max_size m
      → (key.host_port == port) ≡ true
      → lookup now m key ≡ none
  cleared-none m key valid cleared ours = elim (Option-cases (find now m.timeout key m.slots)) [
    | inl miss ↦ lookup-eq now m key ∙ lookup_slots-none now m.timeout key m.slots miss
    | inr (p, hit) ↦
        let (t, at, used, same, below) = find-slot now m.timeout key m.slots p hit in
        absurd (
          clash t ((tcp_key_Eq.beq_iff key t.key).0 same)
            (cleared p t (omega (arith, valid.full)) at used))
  ]
    where
      clash : (t : Slot TcpKey TcpConn) → key ≡ t.key → (t.key.host_port == port) ≢ false
      clash t e b = cc (ap (λ k. k.host_port == port) e)

-- With valid tables, `tcp_close` removes every connection of the port, although it deletes entries
-- of the table while it walks over it, and the handler of the port; every other connection and every
-- other handler stays.
pub tcp_close_lem :
    (s : Stack) (port : ℕ) (key : TcpKey) (other : ℕ)
    → IsValid s.now s.tcp_conn_table
    → IsValid s.now s.tcp_handler_table
    → (lookup s.now (tcp_close s port).tcp_conn_table key
        ≡ (if key.host_port == port then none else lookup s.now s.tcp_conn_table key))
      × (lookup s.now (tcp_close s port).tcp_handler_table other
          ≡ (if port == other then none else lookup s.now s.tcp_handler_table other))
unfolding tcp_close foreach
tcp_close_lem s port key other conns handlers =
    let swept = foreach s.now (close_port_fn s.now port) s.tcp_conn_table in
    let w =
      foreach-Swept s.now port s.tcp_conn_table s.tcp_conn_table.max_size 0
        s.tcp_conn_table.max_size s.tcp_conn_table (omega arith)
        (record {
          valid = conns;
          sized = refl;
          cleared = λ j slot below at used. absurd (omega arith);
          kept = λ k differs. refl;
        }) in
    (
      elim (Bool-cases (key.host_port == port)) [
        | inl ours ↦ rw ours (
            cleared-none s.now port swept key w.valid
              (subst (λ n. IsCleared s.now port n swept) (sym w.sized) w.cleared) ours)
        | inr differs ↦ rw differs (w.kept key differs)
      ],
      lookup-delete s.now s.tcp_handler_table port other handlers,
    )
