-- ===== src/Ethernet/Poll.antt =====
-- The receive buffer of src/ethernet.c from one `ethernet_poll` to the next.
use hitsz_network_lab.Common.{
  ℕ, ◌+◌, ◌*◌, ◌≤◌, ◌≡◌, refl, ap, ◌∙◌, List, [], ◌∷◌, length, lt→ltb, le→ltb, arith, some, Status,
}
use hitsz_network_lab.Buf.{Buf, put, fetch}
use hitsz_network_lab.Buf.Fields.{fetch16}
use hitsz_network_lab.Stack.Stats.{count_received}
use hitsz_network_lab.Utils.{swap16}
use hitsz_network_lab.Buf.Contents.{remove_header_fits}
use hitsz_network_lab.Buf
use hitsz_network_lab.Stack.{Stack, Outcome, done, ◌>>=◌}
use hitsz_network_lab.Ethernet.{ethernet_in, ethernet_poll, driver_recv}

-- The receive buffer with a frame in it, and the stack once `ethernet_in` has counted the frame.
abbrev pub arrived : Stack → List ℕ → Buf
arrived s f = record (put s.rxbuf 0 f) { len = length f }

abbrev pub counted : Stack → List ℕ → Stack
counted s f = record s {
  rxbuf = arrived s f;
  ethernet_stats = count_received (length f) s.ethernet_stats;
}

-- `net_in` returns from the calls that these frames lead to, one after the other, and no call moves
-- the data pointer back.
abbrev pub KeepsPlace :
    (Stack → Buf → ℕ → List ℕ → Outcome (Stack × Buf)) → Stack → List (List ℕ) → Type 0
KeepsPlace net_in s [] = Unit
KeepsPlace net_in s (f ∷ rest) =
    let b = (Buf.remove_header (arrived s f) 14).1 in
    (r : Stack × Buf) × (net_in (counted s f) b (swap16 (fetch16 (arrived s f) 12))
        (fetch (arrived s f) 6 6)
      ≡ done r)
    × (b.off ≤ r.1.off)
    × KeepsPlace net_in (record r.0 { rxbuf = r.1 }) rest

-- Frames that hold at least a header.
abbrev pub AreFrames : List (List ℕ) → Type 0
AreFrames [] = Unit
AreFrames (f ∷ rest) = (14 ≤ length f) × AreFrames rest

-- One `ethernet_poll` for each frame.
unfoldable pub polls :
    (Stack → Buf → ℕ → List ℕ → Outcome (Stack × Buf)) → Stack → List (List ℕ) → Outcome Stack
polls net_in s [] = done s
polls net_in s (f ∷ rest) = ethernet_poll net_in s (some f) >>= λ s'. polls net_in s' rest

poll_drift :
    (net_in : Stack → Buf → ℕ → List ℕ → Outcome (Stack × Buf)) (s : Stack) (f : List ℕ)
    (r : Stack × Buf)
    → net_in
        (counted s f)
        (Buf.remove_header (arrived s f) 14).1
        (swap16 (fetch16 (arrived s f) 12))
        (fetch (arrived s f) 6 6)
      ≡ done r
    → (Buf.remove_header (arrived s f) 14).1.off ≤ r.1.off
    → 14 ≤ length f
    → (ethernet_poll net_in s (some f) ≡ done (record r.0 { rxbuf = r.1 }))
      × (s.rxbuf.off + 14 ≤ r.1.off)
unfolding ethernet_poll ethernet_in driver_recv
poll_drift net_in s f r call keeps long = (
  rw (lt→ltb 0 (length f) (omega (arith, long)), le→ltb (length f) 14 long, call) refl,
  omega (
    arith,
    keeps,
    ap (λ (q : Status × Buf). q.1.off) (remove_header_fits (arrived s f) 14 long),
    arrived_place,
  ),
)
  where
    arrived_place : (arrived s f).off ≡ s.rxbuf.off
    arrived_place = unfold put in refl

-- After every frame of at least 14 bytes that `ethernet_poll` receives, the data pointer of `rxbuf`
-- stands 14 bytes further on or more, if `net_in` returns for these frames and does not move the
-- pointer back: nothing sets it up anew.
pub polls_drift :
    (net_in : Stack → Buf → ℕ → List ℕ → Outcome (Stack × Buf)) (s : Stack) (frames : List (List ℕ))
    → KeepsPlace net_in s frames
    → AreFrames frames
    → (s' : Stack) × (polls net_in s frames ≡ done s')
      × (s.rxbuf.off + 14 * length frames ≤ s'.rxbuf.off)
unfolding polls
polls_drift net_in s [] keeps long = (s, refl, omega arith)
polls_drift net_in s (f ∷ rest) (r, call, place, later) long =
    let (polled, drift) = poll_drift net_in s f r call place long.0 in
    let (t, end, total) = polls_drift net_in (record r.0 { rxbuf = r.1 }) rest later long.1 in
    (t, ap (λ o. o >>= λ u. polls net_in u rest) polled ∙ end, omega (arith, drift, total))
