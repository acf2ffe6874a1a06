-- ===== src/Ip/Fragments.antt =====
-- What `ip_out` of src/ip.c sends for a packet of any length, once the address is resolved.
use hitsz_network_lab.Common.{
  ℕ, zero, suc, ◌+◌, ◌-◌, ◌*◌, ◌/◌, ◌%◌, ◌^◌, ◌≤◌, ◌<◌, ◌≡◌, refl, ap, ap₂, ◌∙◌, List, ◌∷◌, arith,
  take, drop, read, Bool, true, false, if◌then◌else◌, ltb, lt→ltb, le→ltb, read-drop, read-take,
  bytes_eq, bytes_Eq,
}
use hitsz_network_lab.Buf.{Buf, contents}
use hitsz_network_lab.Stack.{Stack, Config, Outcome, done, BufPointer, rx, tx, own, deref, ◌>>=◌}
use hitsz_network_lab.Ip.{loopback_ip}
use hitsz_network_lab.Ip.Send.{send_fragment, send_last, send_fragments, ip_out}
use hitsz_network_lab.Ip.Fragment.{
  IsResolved, fragment_frame, with_fragment, send_fragment-resolved,
}

-- The frames of what is left of a packet from fragment `i` on, in front of those sent before: so many
-- whole fragments of 1480 bytes, and the rest.
unfoldable pub fragment_frames :
    ℕ → Config → ℕ → List ℕ → List ℕ → ℕ → ℕ → List ℕ → List (List ℕ) → List (List ℕ)
fragment_frames zero c id ip mac protocol i bytes before =
    fragment_frame c id ip mac protocol i bytes false ∷ before
fragment_frames (suc more) c id ip mac protocol i bytes before =
    fragment_frames more c id ip mac protocol (i + 1) (drop 1480 bytes)
      (fragment_frame c id ip mac protocol i (take 1480 bytes) true ∷ before)

-- What is left of a packet from fragment `i` on.
abbrev left : Buf → ℕ → List ℕ
left src i = read src.payload (src.off + i * 1480) (src.len - i * 1480)

-- The outcome of the rounds that are left.
abbrev Sends : Outcome Stack → Stack → List ℕ → List ℕ → ℕ → ℕ → ℕ → Buf → Type 0
Sends outcome s ip mac protocol more i src =
    (t : Stack) × (outcome ≡ done t)
    × (t.sent ≡ fragment_frames more s.config s.ip_id ip mac protocol i (left src i) s.sent)
    × (t.ip_id ≡ s.ip_id + 1)

send_last-resolved :
    (s : Stack) (buf : BufPointer) (ip mac : List ℕ) (protocol i : ℕ) (src : Buf)
    → IsResolved s ip mac
    → deref s buf ≡ src
    → i * 1480 < src.len
    → src.len ≤ i * 1480 + 1480
    → src.len ≤ 65515
    → Sends (send_last s buf ip protocol i) s ip mac protocol 0 i src
unfolding send_last fragment_frames
send_last-resolved s buf ip mac protocol i src r e low high fits = (
  record last { ip_id = last.ip_id + 1 },
  ap (λ n. send_fragment s buf ip protocol i n false >>= finish)
        (ap (λ (b : Buf). (b.len + 2 ^ 64 - i * 1480) % 2 ^ 64) e ∙ omega arith)
      ∙ ap (λ o. o >>= finish)
          (send_fragment-resolved s buf ip mac protocol i (src.len - i * 1480) false r (omega arith)
            (omega arith))
      ∙ ap
          (λ (b : Buf). done (
            finished (
              with_fragment s ip mac protocol i
                (read b.payload (b.off + i * 1480) (src.len - i * 1480)) false)))
          e,
  refl,
  refl,
)
  where
    last : Stack
    last = with_fragment s ip mac protocol i (left src i) false

    finished : Stack → Stack
    finished t = record t { ip_id = t.ip_id + 1 }

    finish : Stack → Outcome Stack
    finish t = done (finished t)

deref-with_fragment :
    (s : Stack) (buf : BufPointer) (ip mac : List ℕ) (protocol i : ℕ) (bytes : List ℕ) (mf : Bool)
    → deref (with_fragment s ip mac protocol i bytes mf) buf ≡ deref s buf
unfolding deref
deref-with_fragment s rx ip mac protocol i bytes mf = refl
deref-with_fragment s tx ip mac protocol i bytes mf = refl
deref-with_fragment s (own b) ip mac protocol i bytes mf = refl

-- One whole fragment, and the rest of the loop behind it.
send_fragments-step :
    (fuel : ℕ) (s : Stack) (buf : BufPointer) (ip mac : List ℕ) (protocol i more : ℕ) (src : Buf)
    → IsResolved s ip mac
    → deref s buf ≡ src
    → (i + 1) * 1480 < src.len
    → src.len ≤ 65515
    → let s' = with_fragment s ip mac protocol i (take 1480 (left src i)) true in
      Sends (send_fragments fuel s' buf ip protocol (i + 1)) s' ip mac protocol more (i + 1) src
      → Sends (send_fragments (suc fuel) s buf ip protocol i) s ip mac protocol (suc more) i src
unfolding send_fragments fragment_frames
send_fragments-step fuel s buf ip mac protocol i more src r e room fits behind = (
  behind.0,
  ap (λ b. if b then round else send_last s buf ip protocol i)
        (ap (λ (q : Buf). ltb ((i + 1) * 1480) q.len) e ∙ lt→ltb ((i + 1) * 1480) src.len room)
      ∙ ap (λ o. o >>= λ t. send_fragments fuel t buf ip protocol (i + 1))
          (send_fragment-resolved s buf ip mac protocol i 1480 true r (omega arith) (omega arith)
            ∙ ap
                (λ (q : Buf).
                  done (
                    with_fragment s ip mac protocol i (read q.payload (q.off + i * 1480) 1480)
                      true))
                e
            ∙ ap (λ bytes. done (with_fragment s ip mac protocol i bytes true)) taken)
      ∙ behind.1,
  behind.2
      ∙ ap
          (λ rest. fragment_frames more s.config s.ip_id ip mac protocol (i + 1) rest (
            fragment_frame s.config s.ip_id ip mac protocol i (take 1480 (left src i)) true
            ∷ s.sent))
          dropped,
  behind.3,
)
  where
    round : Outcome Stack
    round = send_fragment s buf ip protocol i 1480 true >>= λ t.
        send_fragments fuel t buf ip protocol (i + 1)

    taken : read src.payload (src.off + i * 1480) 1480 ≡ take 1480 (left src i)
    taken = read-take src.payload (src.off + i * 1480) (src.len - i * 1480) 1480 (omega arith)

    dropped : left src (i + 1) ≡ drop 1480 (left src i)
    dropped =
        ap₂ (read src.payload) {x = src.off + (i + 1) * 1480} {y = src.off + i * 1480 + 1480}
          {u = src.len - (i + 1) * 1480} {v = src.len - i * 1480 - 1480} (omega arith) (omega arith)
        ∙ read-drop src.payload (src.off + i * 1480) (src.len - i * 1480) 1480 (omega arith)

send_fragments-resolved :
    (more fuel : ℕ) (s : Stack) (buf : BufPointer) (ip mac : List ℕ) (protocol i : ℕ) (src : Buf)
    → IsResolved s ip mac
    → deref s buf ≡ src
    → more < fuel
    → (i + more) * 1480 < src.len
    → src.len ≤ (i + more) * 1480 + 1480
    → src.len ≤ 65515
    → Sends (send_fragments fuel s buf ip protocol i) s ip mac protocol more i src
unfolding send_fragments
send_fragments-resolved more zero s buf ip mac protocol i src r e enough low high fits =
    absurd (omega arith)
send_fragments-resolved zero (suc fuel) s buf ip mac protocol i src r e enough low high fits = (
  last.0,
  ap (λ b. if b then round else send_last s buf ip protocol i)
        (ap (λ (q : Buf). ltb ((i + 1) * 1480) q.len) e
          ∙ le→ltb ((i + 1) * 1480) src.len (omega arith))
      ∙ last.1,
  last.2,
  last.3,
)
  where
    round : Outcome Stack
    round = send_fragment s buf ip protocol i 1480 true >>= λ t.
        send_fragments fuel t buf ip protocol (i + 1)

    last : Sends (send_last s buf ip protocol i) s ip mac protocol 0 i src
    last = send_last-resolved s buf ip mac protocol i src r e (omega arith) (omega arith) fits
send_fragments-resolved (suc more) (suc fuel) s buf ip mac protocol i src r e enough low high fits =
    send_fragments-step fuel s buf ip mac protocol i more src r e (omega arith) fits (
      send_fragments-resolved more fuel
        (with_fragment s ip mac protocol i (take 1480 (left src i)) true) buf ip mac protocol
        (i + 1) src r
        (deref-with_fragment s buf ip mac protocol i (take 1480 (left src i)) true ∙ e)
        (omega arith) (omega arith) (omega arith) fits)

-- A packet of 1 to 65515 bytes to an address other than the loopback one, once the hardware address
-- is known and the addresses have the right lengths: `ip_out` returns, and has sent the packet in
-- order in frames with an IP header each, cut after every 1480 bytes as RFC 791 asks for: offsets in
-- units of eight bytes, the flag for more fragments in all but the last, the same identifier, and
-- right checksums. The identifier is then counted up.
pub ip_out-sends :
    (ip_in : Stack → BufPointer → Outcome Stack) (s : Stack) (buf : BufPointer) (ip mac : List ℕ)
    (protocol : ℕ)
    → IsResolved s ip mac
    → bytes_eq ip loopback_ip ≡ false
    → 0 < (deref s buf).len
    → (deref s buf).len ≤ 65515
    → (t : Stack) × (ip_out ip_in s buf ip protocol ≡ done t)
      × (t.sent
          ≡ fragment_frames
              (((deref s buf).len - 1) / 1480)
              s.config
              s.ip_id
              ip
              mac
              protocol
              0
              (contents (deref s buf))
              s.sent)
      × (t.ip_id ≡ s.ip_id + 1)
unfolding ip_out
ip_out-sends ip_in s buf ip mac protocol r away some_bytes fits = (
  sends.0,
  rw (ip_out, away) sends.1,
  sends.2
      ∙ ap
          (λ bytes.
            fragment_frames (((deref s buf).len - 1) / 1480) s.config s.ip_id ip mac protocol 0
              bytes s.sent)
          whole,
  sends.3,
)
  where
    sends :
        Sends
          (send_fragments (suc ((deref s buf).len / 1480)) s buf ip protocol 0)
          s
          ip
          mac
          protocol
          (((deref s buf).len - 1) / 1480)
          0
          (deref s buf)
    sends =
        send_fragments-resolved (((deref s buf).len - 1) / 1480) (suc ((deref s buf).len / 1480)) s
          buf ip mac protocol 0 (deref s buf) r refl (omega arith) (omega arith) (omega arith) fits

    whole : left (deref s buf) 0 ≡ contents (deref s buf)
    whole =
        ap₂ (read (deref s buf).payload) {x = (deref s buf).off + 0 * 1480} {y = (deref s buf).off}
          {u = (deref s buf).len - 0 * 1480} {v = (deref s buf).len} (omega arith) (omega arith)
