-- ===== src/Ip/Tests.antt =====
-- The theorems about src/ip.c at a datagram of three pieces and at short packets.
use mathlib.Core.List.{Perm}
use mathlib.Core.List.Perm
use hitsz_network_lab.Common.{
  ◌-◌, ◌/◌, ◌%◌, ◌++◌, bytes_eq, bytes_Eq, ◌+◌, ◌≡◌, refl, List, [], ◌∷◌, length, replicate, Memory,
  read, true, false, not, ◌&&◌, ltb, if◌then◌else◌, arith,
}
use hitsz_network_lab.Stack.Tables.{IpFragment, ReassembleNode}
use hitsz_network_lab.Buf.{Buf, contents}
use hitsz_network_lab.Buf
use hitsz_network_lab.Map
use hitsz_network_lab.Stack.{Stack, Outcome, done, BufPointer, own, deref}
use hitsz_network_lab.Stack.Example.{example, example_ip, remote_ip, remote_mac, resolved}
use hitsz_network_lab.Ip.{fill_hdr}
use hitsz_network_lab.Ip.Header.{ip_header, contents-fill_hdr}
use hitsz_network_lab.Ip.Send.{ip_out}
use hitsz_network_lab.Ip.Receive.{ip_in}
use hitsz_network_lab.Ip.Datagram.{whole_header}
use hitsz_network_lab.Ip.Deliver.{hand_up, ip_in-delivers}
use hitsz_network_lab.Stack.{store}
use hitsz_network_lab.Common.{Bool, ℕ, get_or}
use hitsz_network_lab.Utils.{checksum16}
use hitsz_network_lab.Ip.Fragment.{IsResolved}
use hitsz_network_lab.Ip.Fragments.{fragment_frames, ip_out-sends}
use hitsz_network_lab.Ip.Reassembly.{
  insert_fragment, is_complete, merge_fragments, ip_frag_max_fragments,
}
use hitsz_network_lab.Ip.Reassembly.Insert.{insert_fragment_lem, insert_sorted, has_fragment}
use hitsz_network_lab.Ip.Reassembly.Tiling.{joined}
use hitsz_network_lab.Ip.Reassembly.Arrivals.{insert_all, reassemble_any_order}

abbrev first_piece : IpFragment
first_piece = record { offset = 0; len = 2; bytes = 1 ∷ 2 ∷ []; is_last = false }

abbrev second_piece : IpFragment
second_piece = record { offset = 2; len = 2; bytes = 3 ∷ 4 ∷ []; is_last = false }

abbrev last_piece : IpFragment
last_piece = record { offset = 4; len = 1; bytes = 5 ∷ []; is_last = true }

abbrev empty_node : ReassembleNode
empty_node = record {
  src_ip = replicate 4 0;
  dst_ip = replicate 4 0;
  id = 0;
  protocol = 0;
  arrival_time = 0;
  total_len = 0;
  has_last_fragment = false;
  fragments = [];
}

abbrev zero_memory : Memory
zero_memory i = 0

abbrev pieces : List IpFragment
pieces = first_piece ∷ second_piece ∷ last_piece ∷ []

-- The last piece comes first.
abbrev arrivals : List IpFragment
arrivals = last_piece ∷ first_piece ∷ second_piece ∷ []

reordered : Perm arrivals pieces
reordered =
    Perm.trans (Perm.swap first_piece last_piece (second_piece ∷ []))
      (Perm.cons first_piece (Perm.swap second_piece last_piece []))

reassemble_any_order_example :
    let (memory', merged_len) =
      merge_fragments zero_memory 65657 (insert_all empty_node arrivals) in
    (is_complete (insert_all empty_node arrivals) ≡ true)
    × (merged_len ≡ 5)
    × (read memory' 65657 (length (joined pieces)) ≡ joined pieces)
reassemble_any_order_example =
    reassemble_any_order 5 empty_node pieces arrivals zero_memory 65657 (refl, refl) (ground arith)
      reordered (omega arith) (omega arith) (omega arith)

insert_fragment_lem_example :
    let new : IpFragment = record { offset = 2; len = 2; bytes = 3 ∷ 4 ∷ []; is_last = false } in
    let (inserted, node') =
      insert_fragment true
        (record empty_node { fragments = first_piece ∷ last_piece ∷ [] })
        2
        2
        (3 ∷ 4 ∷ [])
        false in
    (inserted ≡ (
      ltb (length (first_piece ∷ last_piece ∷ [])) ip_frag_max_fragments
      && (true && not (has_fragment 2 2 (first_piece ∷ last_piece ∷ [])))))
    × (node'.fragments ≡ (
        if inserted
        then insert_sorted new (first_piece ∷ last_piece ∷ [])
        else (first_piece ∷ last_piece ∷ [])))
insert_fragment_lem_example =
    insert_fragment_lem true (record empty_node { fragments = first_piece ∷ last_piece ∷ [] }) 2 2
      (3 ∷ 4 ∷ []) false (omega arith, (omega arith, tt))

-- A packet that takes three fragments.
abbrev long_packet : BufPointer
long_packet = own (record { len = 3000; off = 62662; payload = λ i. i % 256 })

abbrev no_loopback : Stack → BufPointer → Outcome Stack
no_loopback s pointer = done s

remote-IsResolved : IsResolved resolved remote_ip remote_mac
unfolding Map.lookup Map.set Map.init Map.entry_valid bytes_eq
remote-IsResolved = (refl, refl, refl, refl, refl)

ip_out-sends_example :
    (t : Stack) × (ip_out no_loopback resolved long_packet remote_ip 17 ≡ done t)
    × (t.sent
        ≡ fragment_frames
            (((deref resolved long_packet).len - 1) / 1480)
            resolved.config
            resolved.ip_id
            remote_ip
            remote_mac
            17
            0
            (contents (deref resolved long_packet))
            resolved.sent)
    × (t.ip_id ≡ resolved.ip_id + 1)
ip_out-sends_example =
    ip_out-sends no_loopback resolved long_packet remote_ip remote_mac 17 remote-IsResolved
      (unfold bytes_eq in refl) (unfold deref in omega arith) (unfold deref in omega arith)

abbrev short_packet : Buf
short_packet = record { len = 3; off = 65659; payload = λ i. i % 256 }

contents-fill_hdr_example :
    contents (fill_hdr example (Buf.add_header short_packet 20).1 remote_ip 17 256 64)
    ≡ ip_header 23 256 64 17 example_ip remote_ip ++ contents short_packet
contents-fill_hdr_example =
    contents-fill_hdr example short_packet remote_ip 17 256 64 refl refl (omega arith)

-- A datagram of five bytes for the interface, with one byte of padding behind it.
abbrev short_datagram : List ℕ
short_datagram =
    whole_header 0 25 7 true 128 17 remote_ip example_ip ++ ((1 ∷ 2 ∷ 3 ∷ 4 ∷ 5 ∷ []) ++ (0 ∷ []))

abbrev received : BufPointer
received = own (record { len = 26; off = 14; payload = λ i. get_or short_datagram (i - 14) 0 })

received-contents : contents (deref example received) ≡ short_datagram
unfolding deref checksum16 read
received-contents = refl

abbrev no_handler : Stack → BufPointer → ℕ → List ℕ → Outcome (Bool × Stack)
no_handler s pointer protocol src = done (false, s)

abbrev no_answer : Stack → BufPointer → List ℕ → ℕ → Outcome Stack
no_answer s pointer ip code = done s

abbrev no_ping : Stack → ℕ → Buf → Outcome Stack
no_ping s ttl buf = done s

ip_in-delivers_example :
    (buf : Buf) × (contents buf ≡ 1 ∷ 2 ∷ 3 ∷ 4 ∷ 5 ∷ [])
    × (ip_in no_handler no_answer no_ping (λ size. true) example received ≡ (
        let (s', pointer') = store example received buf in
        hand_up no_handler no_answer s' pointer'
          (Buf.copy example.garbage (deref example received))
          17
          remote_ip
          25))
ip_in-delivers_example =
    ip_in-delivers no_handler no_answer no_ping (λ size. true) example received remote_ip
      (1 ∷ 2 ∷ 3 ∷ 4 ∷ 5 ∷ []) (0 ∷ []) 0 7 128 17 true received-contents (refl, refl) (omega arith)
      refl
