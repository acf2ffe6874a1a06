-- ===== src/Stack/Tests.antt =====
-- The text of src/protocol_stats.c for some counters.
use hitsz_network_lab.Common.{◌<◌, ◌≡◌, refl, arith, length, none}
use hitsz_network_lab.Stack.{Stack}
use hitsz_network_lab.Stack.Example.{example}
use hitsz_network_lab.Stack.Stats.{zero_stats}
use hitsz_network_lab.Stack.Json.{protocol_stats_to_json}
use hitsz_network_lab.Stack.Json.Contents.{all_counters, protocol_stats_to_json_lem}
use hitsz_network_lab.Text.{codes}
use hitsz_network_lab.Text.Decimal.{numbers}

abbrev counted : Stack
counted = record example { udp_stats = record zero_stats { packets_sent = 3; bytes_sent = 120 } }

protocol_stats_to_json_lem_example :
    let (len, text) = protocol_stats_to_json counted 8190 in
    (len ≡ length text) × (len < 2048) × (numbers none text ≡ all_counters counted)
protocol_stats_to_json_lem_example =
    protocol_stats_to_json_lem counted 8190 (omega arith) (omega arith)

-- A buffer that is too small holds the beginning, with room for the closing zero.
cut_off : (protocol_stats_to_json counted 8).1 ≡ codes "{\"ip\":{"
unfolding protocol_stats_to_json
cut_off = refl
