-- ===== src/Ip/Receive.antt =====
-- The receiving side of src/ip.c. `net_in` of src/net.c, whose result tells whether a handler is
-- registered, and the functions of src/icmp.c are parameters, and so is whether `malloc` returns
-- memory for a fragment. `ip_reassemble_init` has been called by `ip_init` and does nothing again.
use Prim.Native.Nat.{bit_and}
use hitsz_network_lab.Common.{
  ℕ, ◌-◌, ◌*◌, ◌/◌, ◌%◌, Bool, false, not, ◌&&◌, ◌||◌, List, [], replicate, ltb, ◌==◌,
  if◌then◌else◌, bytes_eq, Option, none, some, read,
}
use hitsz_network_lab.Buf.{Buf, fetch, contents}
use hitsz_network_lab.Buf.Fields.{fetch8, fetch16, put16}
use hitsz_network_lab.Buf
use hitsz_network_lab.Map.{Map, modify, value_at}
use hitsz_network_lab.Map
use hitsz_network_lab.Stack.{Stack, Outcome, done, ◌>>=◌, BufPointer, own, deref, store}
use hitsz_network_lab.Stack.Stats.{count_received}
use hitsz_network_lab.Stack.Tables.{NetHandler, ReassembleNode, ReassembleKey, reassemble_key_Eq}
use hitsz_network_lab.Utils.{swap16, checksum16}
use hitsz_network_lab.Arp.{net_add_protocol, protocol_ip}
use hitsz_network_lab.Ip.{
  hdr_len, version_4, more_fragment, frag_timeout_sec, loopback_ip, protocol_icmp,
}
use hitsz_network_lab.Ip.Reassembly.{u16, insert_fragment, is_complete, merge_fragments, free_node}

abbrev pub zero_node : ReassembleNode
zero_node = record {
  src_ip = replicate 4 0;
  dst_ip = replicate 4 0;
  id = 0;
  protocol = 0;
  arrival_time = 0;
  total_len = 0;
  has_last_fragment = false;
  fragments = [];
}

-- The slot of the node, if the map has it or takes it.
unfoldable pub get_node : Stack → ReassembleKey → Stack × Option ℕ
get_node s key = elim (Map.get s.now s.ip_reassemble_map key) [
  | some p ↦ (
    record s {
      ip_reassemble_map = record s.ip_reassemble_map {
        slots =
            modify p (λ slot. record slot { value = record slot.value { arrival_time = s.now } })
              s.ip_reassemble_map.slots;
      };
    },
    some p,
  )
  | none ↦
      let new_node = record zero_node {
        src_ip = key.src_ip;
        dst_ip = key.dst_ip;
        id = key.id;
        arrival_time = s.now;
      } in
      let nodes = (Map.set s.now s.ip_reassemble_map key new_node).1 in
      (record s { ip_reassemble_map = nodes }, Map.get s.now nodes key)
]

-- The node behind the pointer changed.
abbrev pub set_node : Stack → ℕ → ReassembleNode → Stack
set_node s p node = record s {
  ip_reassemble_map = record s.ip_reassemble_map {
    slots = modify p (λ slot. record slot { value = node }) s.ip_reassemble_map.slots;
  };
}

-- What `ip_in` reads from the header.
pub record Header : Type 0 where
  pub protocol : ℕ
  pub src_ip : List ℕ
  pub dst_ip : List ℕ
  pub ttl : ℕ
  pub total_len : ℕ
  pub id : ℕ
  pub mf : Bool
  pub frag_offset : ℕ

unfoldable pub header : Buf → Header
header hdr =
    let flags_fragment = swap16 (fetch16 hdr 6) in
    record {
      protocol = fetch8 hdr 9;
      src_ip = fetch hdr 12 4;
      dst_ip = fetch hdr 16 4;
      ttl = fetch8 hdr 8;
      total_len = swap16 (fetch16 hdr 2);
      id = swap16 (fetch16 hdr 4);
      mf = not (bit_and flags_fragment more_fragment == 0);
      frag_offset = u16 (bit_and flags_fragment 0x1fff * 8);
    }

unfoldable pub is_our_packet : Stack → Buf → Bool
is_our_packet s hdr = bytes_eq (fetch hdr 16 4) s.net_if_ip || bytes_eq (fetch hdr 16 4) loopback_ip

module _ (net_in : Stack → BufPointer → ℕ → List ℕ → Outcome (Bool × Stack))
    (icmp_unreachable : Stack → BufPointer → List ℕ → ℕ → Outcome Stack)
    (set_ping_req_ttl : Stack → ℕ → Buf → Outcome Stack) (malloc : ℕ → Bool) where
  -- A datagram handed up, with the answer if nobody takes it.
  unfoldable pub deliver : Stack → BufPointer → Buf → Header → ℕ → Outcome Stack
  deliver s buf copy hdr len =
      (if hdr.protocol == protocol_icmp && s.ping
        then set_ping_req_ttl s hdr.ttl (deref s buf)
        else done s)
      >>= λ s'.
          net_in (record s' { ip_stats = count_received len s'.ip_stats }) buf hdr.protocol
            hdr.src_ip
          >>= λ r. if r.0 then done r.1 else icmp_unreachable r.1 (own copy) hdr.src_ip 2

  -- A fragment, in the buffer without its header.
  unfoldable pub reassemble : Stack → Buf → Buf → Header → Outcome Stack
  reassemble s buf copy hdr =
      let key : ReassembleKey = record { src_ip = hdr.src_ip; dst_ip = hdr.dst_ip; id = hdr.id } in
      let (s', slot) = get_node s key in
      elim slot [
        | none ↦ done s'
        | some p ↦ (elim (value_at s'.ip_reassemble_map.slots p) [
          | none ↦ done s'
          | some node ↦
              let payload_len = u16 buf.len in
              let bytes = read buf.payload buf.off payload_len in
              let (inserted, filled) =
                insert_fragment (malloc payload_len) node hdr.frag_offset payload_len bytes
                  (not hdr.mf) in
              if inserted
              then if is_complete filled
                then (let reassembled = (Buf.init s'.garbage filled.total_len).1 in
                    let merged = record reassembled {
                      payload = (merge_fragments reassembled.payload reassembled.off filled).0;
                    } in
                    let freed = set_node s' p (free_node filled) in
                    let cleared = record freed {
                      ip_reassemble_map = Map.delete s.now freed.ip_reassemble_map key;
                    } in
                    deliver cleared (own merged) copy hdr filled.total_len)
                else done (set_node s' p filled)
              else done s'
        ])
      ]

  -- The packet once it is accepted.
  unfoldable pub accept : Stack → BufPointer → Buf → Buf → Outcome Stack
  accept s pointer copy buf =
      let hdr = header buf in
      let trimmed =
        if ltb hdr.total_len buf.len
        then (Buf.remove_padding buf (buf.len - hdr.total_len)).1
        else buf in
      let stripped = (Buf.remove_header trimmed (fetch8 buf 0 % 16 * 4)).1 in
      let (s', pointer') = store s pointer stripped in
      if not hdr.mf && hdr.frag_offset == 0
      then deliver s' pointer' copy hdr hdr.total_len
      else reassemble s' stripped copy hdr

  -- `src_mac` is not used.
  unfoldable pub ip_in : Stack → BufPointer → Outcome Stack
  ip_in s pointer =
      let buf = deref s pointer in
      let zeroed = put16 buf 10 0 in
      let restored = put16 zeroed 10 (fetch16 buf 10) in
      if ltb buf.len hdr_len
      then done s
      else if not (fetch8 buf 0 / 16 == version_4)
      then done s
      else if ltb buf.len (swap16 (fetch16 buf 2))
      then done s
      else if not (checksum16 (fetch zeroed 0 hdr_len) == fetch16 buf 10)
      then done (store s pointer zeroed).0
      else if is_our_packet s restored
      then accept s pointer (Buf.copy s.garbage buf) restored
      else done (store s pointer restored).0

-- `sizeof` of a node: 32 bytes before an array of 100 fragments of 24 bytes.
unfoldable pub ip_init : Stack → Stack
unfolding net_add_protocol
ip_init s =
    let registered = net_add_protocol s protocol_ip NetHandler.ip_in in
    record registered {
      ip_reassemble_map =
          Map.init 10 2432 0 frag_timeout_sec Map.memcpy
            (record { src_ip = replicate 4 0; dst_ip = replicate 4 0; id = 0 }) zero_node;
    }
