-- ===== src/Ip/Send.antt =====
-- The sending side of src/ip.c. `ip_in` is a parameter, for the packets to the loopback address. In
-- `ip_out` the packet may stand in the global `txbuf`, which `arp_req` sets up anew between two
-- fragments: its length and its bytes are read again in each round. A local buffer that `buf_init`
-- refuses has no data pointer: to copy into it is a fault.
use Prim.Native.Nat.{bit_or}
use hitsz_network_lab.Common.{
  ℕ, zero, suc, ◌+◌, ◌-◌, ◌*◌, ◌/◌, ◌%◌, ◌^◌, Bool, true, false, List, ltb, if◌then◌else◌, bytes_eq,
  ok, failed, read,
}
use hitsz_network_lab.Buf.{Buf, put}
use hitsz_network_lab.Buf
use hitsz_network_lab.Stack.{
  Stack, Outcome, done, fault, uninitialised_pointer, out_of_fuel, ◌>>=◌, BufPointer, deref, store,
}
use hitsz_network_lab.Stack.Stats.{count_sent}
use hitsz_network_lab.Utils.{swap16, ◌>>>◌}
use hitsz_network_lab.Arp.{arp_out}
use hitsz_network_lab.Ip.{hdr_len, more_fragment, loopback_ip, fill_hdr}

-- The MTU less the header.
abbrev pub max_load_length : ℕ
max_load_length = 1500 - hdr_len

-- `buf` is a local variable of the caller, which does not look at it again.
unfoldable pub ip_fragment_out : Stack → Buf → List ℕ → ℕ → ℕ → ℕ → Bool → Stack
unfolding fill_hdr
ip_fragment_out s buf ip protocol id offset mf =
    let hdr = (Buf.add_header buf hdr_len).1 in
    let flags = swap16 (bit_or (if mf then more_fragment else 0) offset) in
    let filled = fill_hdr s hdr ip protocol (swap16 id) flags in
    let counted = record s { ip_stats = count_sent filled.len s.ip_stats } in
    (arp_out counted filled ip).0

-- Fragment number `i`, of `len` bytes.
unfoldable pub send_fragment : Stack → BufPointer → List ℕ → ℕ → ℕ → ℕ → Bool → Outcome Stack
unfolding ip_fragment_out
send_fragment s buf ip protocol i len mf =
    let (status, ip_buf) = Buf.init s.garbage len in
    let source = deref s buf in
    let bytes = read source.payload (source.off + i * max_load_length) len in
    elim status [
      | failed ↦ fault uninitialised_pointer
      | ok ↦ done (
          ip_fragment_out s (put ip_buf 0 bytes) ip protocol s.ip_id
            (i * (max_load_length >>> 3) % 2 ^ 16) mf)
    ]

-- The last fragment: the length is a `size_t`, and wraps if the packet has become shorter.
unfoldable pub send_last : Stack → BufPointer → List ℕ → ℕ → ℕ → Outcome Stack
unfolding send_fragment
send_last s buf ip protocol i =
    let len = ((deref s buf).len + 2 ^ 64 - i * max_load_length) % 2 ^ 64 in
    send_fragment s buf ip protocol i len false >>= λ s'. done (record s' { ip_id = s'.ip_id + 1 })

-- The `for` loop, with fuel for its rounds.
unfoldable pub send_fragments : ℕ → Stack → BufPointer → List ℕ → ℕ → ℕ → Outcome Stack
unfolding send_last
send_fragments zero s buf ip protocol i = fault out_of_fuel
send_fragments (suc fuel) s buf ip protocol i =
    let further = send_fragment s buf ip protocol i max_load_length true >>= λ s'.
    send_fragments fuel s' buf ip protocol (i + 1) in
    if ltb ((i + 1) * max_load_length) (deref s buf).len
    then further
    else send_last s buf ip protocol i

-- The fuel is one round for each whole fragment, and one for the last.
unfoldable pub ip_out :
    (Stack → BufPointer → Outcome Stack) → Stack → BufPointer → List ℕ → ℕ → Outcome Stack
unfolding fill_hdr send_fragments
ip_out ip_in s buf ip protocol =
    if bytes_eq ip loopback_ip
    then (let hdr = (Buf.add_header (deref s buf) hdr_len).1 in
        let (s', buf') = store s buf (fill_hdr s hdr ip protocol 0 0) in ip_in s' buf')
    else send_fragments (suc ((deref s buf).len / max_load_length)) s buf ip protocol 0
