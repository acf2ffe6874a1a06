-- ===== src/Stack/Stats.antt =====
-- include/protocol_stats.h and src/protocol_stats.c: the counters of a protocol, 64 bits wide.
use hitsz_network_lab.Common.{ℕ, ◌+◌, ◌%◌, ◌^◌}

pub record ProtocolStats : Type 0 where
  pub packets_sent : ℕ
  pub packets_received : ℕ
  pub bytes_sent : ℕ
  pub bytes_received : ℕ
  pub errors : ℕ

abbrev pub zero_stats : ProtocolStats
zero_stats = record {
  packets_sent = 0;
  packets_received = 0;
  bytes_sent = 0;
  bytes_received = 0;
  errors = 0;
}

abbrev pub u64 : ℕ → ℕ
u64 n = n % 2 ^ 64

-- `packets_sent++; bytes_sent += bytes`
unfoldable pub count_sent : ℕ → ProtocolStats → ProtocolStats
count_sent bytes t = record t {
  packets_sent = u64 (t.packets_sent + 1);
  bytes_sent = u64 (t.bytes_sent + bytes);
}

-- `packets_received++; bytes_received += bytes`
unfoldable pub count_received : ℕ → ProtocolStats → ProtocolStats
count_received bytes t = record t {
  packets_received = u64 (t.packets_received + 1);
  bytes_received = u64 (t.bytes_received + bytes);
}

-- `errors++`
unfoldable pub count_error : ProtocolStats → ProtocolStats
count_error t = record t { errors = u64 (t.errors + 1) }
