-- ===== src/Icmp/Ping/Progress.antt =====
-- A ping of src/icmp.c comes to its end: every round of `ping_req` that is due makes progress.
use hitsz_network_lab.Common.{
  ℕ, ◌+◌, ◌-◌, ◌≤◌, ◌<◌, ◌≡◌, List, leb, if◌then◌else◌, some, bytes_Eq, nat_eq,
}
use hitsz_network_lab.Map.{Map, value_at}
use hitsz_network_lab.Map
use hitsz_network_lab.Stack.{Stack, Outcome, done, BufPointer}
use hitsz_network_lab.Stack.Tables.{Ping, PingReq}
use hitsz_network_lab.Icmp.{icmp_req_out}
use hitsz_network_lab.Icmp.Ping.{test_time, count_reply, store_ping}

-- How many rounds a ping still takes: one for each request, and one that finishes it.
abbrev pub rounds_left : Ping → ℕ
rounds_left ping = if ping.is_finished then 0 else test_time - ping.ping_time + 1

-- A stored ping that goes on, and how it stands afterwards.
abbrev pub Progress : ℕ → Ping → Outcome (ℕ × Stack) → Type 0
Progress p ping outcome =
    (s' : Stack) × (ping' : Ping) × (outcome ≡ done (0, s'))
    × (value_at s'.map_ping.slots p ≡ some ping')
    × (rounds_left ping' < rounds_left ping)
    × (ping'.ping_time ≤ test_time)

-- The ping once the last request has been checked.
abbrev pub checked : PingReq → Ping → Ping
checked entry ping = if leb 1 ping.ping_time then count_reply entry ping else ping

module _ (ip_out : Stack → BufPointer → List ℕ → ℕ → Outcome Stack) where
  -- Sending the next request returns, and leaves the table of pings alone.
  abbrev pub Sends : Stack → ℕ → Ping → List ℕ → Type 0
  Sends s p ping dst_ip =
      let s1 = store_ping s (some p) (record ping { ping_time = ping.ping_time + 1 }) in
      (s' : Stack) × (icmp_req_out ip_out s1 dst_ip (ping.ping_time + 1) ≡ done s')
      × (s'.map_ping ≡ s1.map_ping)
