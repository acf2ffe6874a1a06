-- ===== src/Stack/Json.antt =====
-- `protocol_stats_to_json` of src/protocol_stats.c, and the getters of the counters.
pub mod Contents
use hitsz_network_lab.Common.{ℕ, ◌-◌, List, [], ◌∷◌, ◌++◌, length, take}
use hitsz_network_lab.Stack.{Stack}
use hitsz_network_lab.Stack.Stats.{ProtocolStats}
use hitsz_network_lab.Text.{codes, decimal}

unfoldable pub get_ip_stats : Stack → ProtocolStats
get_ip_stats s = s.ip_stats

unfoldable pub get_tcp_stats : Stack → ProtocolStats
get_tcp_stats s = s.tcp_stats

unfoldable pub get_udp_stats : Stack → ProtocolStats
get_udp_stats s = s.udp_stats

unfoldable pub get_icmp_stats : Stack → ProtocolStats
get_icmp_stats s = s.icmp_stats

unfoldable pub get_ethernet_stats : Stack → ProtocolStats
get_ethernet_stats s = s.ethernet_stats

-- The text of the format up to a `%llu`, and the number that is printed there.
abbrev pub Piece : Type 0
Piece = List ℕ × ℕ

-- The part of the format for one protocol, up to its last number, with the text in front of it.
abbrev pub stats_pieces : List ℕ → ProtocolStats → List Piece → List Piece
stats_pieces text t rest =
    (text ++ codes "\"packets_sent\":", t.packets_sent)
    ∷ (codes ",\"packets_received\":", t.packets_received)
    ∷ (codes ",\"bytes_sent\":", t.bytes_sent)
    ∷ (codes ",\"bytes_received\":", t.bytes_received)
    ∷ (codes ",\"errors\":", t.errors)
    ∷ rest

abbrev pub json_pieces : Stack → List Piece
json_pieces s = stats_pieces (codes "{\"ip\":{") s.ip_stats (
    stats_pieces (codes "},\"tcp\":{") s.tcp_stats (
      stats_pieces (codes "},\"udp\":{") s.udp_stats (
        stats_pieces (codes "},\"icmp\":{") s.icmp_stats
          (stats_pieces (codes "},\"ethernet\":{") s.ethernet_stats []))))

-- What `snprintf` writes for the pieces, with `closing` behind the last.
unfoldable pub print_pieces : List ℕ → List Piece → List ℕ
print_pieces closing [] = closing
print_pieces closing ((text, n) ∷ rest) = text ++ (decimal n ++ print_pieces closing rest)

-- The length of the whole text, and what the buffer holds of it.
unfoldable pub protocol_stats_to_json : Stack → ℕ → ℕ × List ℕ
unfolding print_pieces
protocol_stats_to_json s buf_size =
    let text = print_pieces (codes "}}") (json_pieces s) in (length text, take (buf_size - 1) text)
