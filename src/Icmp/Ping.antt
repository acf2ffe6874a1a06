-- ===== src/Icmp/Ping.antt =====
-- `ping_req` and `ping_req_check` of src/icmp.c, which send echo requests once a second and keep the
-- statistics of the replies. What they print is left out, and so is `ip_to_string`.
pub mod Statistics
pub mod Progress
use hitsz_network_lab.Common.{
  ℕ, ◌+◌, ◌-◌, ◌*◌, ◌/◌, ◌%◌, ◌^◌, Bool, true, false, not, ◌&&◌, List, ltb, leb, ◌==◌,
  if◌then◌else◌, Option, none, some, bytes_Eq, nat_eq,
}
use hitsz_network_lab.Common.Int.{ℤ, pos, sub_ℕ, ◌+ℤ◌, ltℤ, to_int}
use hitsz_network_lab.Map.{Map, Slot, modify, value_at}
use hitsz_network_lab.Map
use hitsz_network_lab.Stack.{Stack, Outcome, done, fault, null_pointer, ◌>>=◌, BufPointer}
use hitsz_network_lab.Stack.Tables.{Ping, PingReq, TimeVal}
use hitsz_network_lab.Icmp.{icmp_req_out}

-- PING_TEST_TIME
abbrev pub test_time : ℕ
test_time = 4

-- The milliseconds between two times, a `long` that is put into an `int`. The division of the
-- microseconds cuts towards zero.
unfoldable pub time_interval : TimeVal → TimeVal → ℤ
time_interval send receive = to_int (
    sub_ℕ ((receive.tv_sec - send.tv_sec) * 1000 + (receive.tv_usec - send.tv_usec) / 1000)
      ((send.tv_sec - receive.tv_sec) * 1000 + (send.tv_usec - receive.tv_usec) / 1000))

-- The statistics once the entry of the last request has been found. The sum is an `int` as well.
unfoldable pub count_reply : PingReq → Ping → Ping
count_reply entry ping =
    let interval = time_interval entry.send_time entry.receive_time in
    if entry.receive_time.tv_sec == 0 && entry.receive_time.tv_usec == 0
    then ping
    else record ping {
      shortest_time = if ltℤ interval ping.shortest_time then interval else ping.shortest_time;
      longest_time = if ltℤ ping.longest_time interval then interval else ping.longest_time;
      sum_time = to_int (ping.sum_time +ℤ interval);
      success_time = ping.success_time + 1;
    }

-- The key is the first two bytes of the `int`.
unfoldable pub ping_req_check : Stack → Ping → Outcome Ping
ping_req_check s ping = elim (Map.lookup s.now s.map_ping_req (ping.ping_time % 2 ^ 16)) [
  | none ↦ fault null_pointer
  | some entry ↦ done (count_reply entry ping)
]

-- A `ping_t *` is the slot of the entry, or `none` for the local variable of a new one.
unfoldable pub store_ping : Stack → Option ℕ → Ping → Stack
store_ping s none ping = s
store_ping s (some p) ping = record s {
  map_ping = record s.map_ping {
    slots = modify p (λ slot. record slot { value = ping }) s.map_ping.slots;
  };
}

unfoldable pub new_ping : ℕ → Ping
new_ping now = record {
  ping_time = 0;
  last_send = now;
  success_time = 0;
  shortest_time = pos 1000;
  longest_time = pos 0;
  sum_time = pos 0;
  is_finished = false;
}

module _ (ip_out : Stack → BufPointer → List ℕ → ℕ → Outcome Stack) where
  -- `ping_req` once the last request has been checked.
  unfoldable pub send_next : Stack → Option ℕ → Ping → List ℕ → Outcome (ℕ × Stack)
  send_next s place ping dst_ip =
      if ping.ping_time == test_time
      then done (0, store_ping s place (record ping { is_finished = true }))
      else (let counted = record ping { ping_time = ping.ping_time + 1 } in
          icmp_req_out ip_out (store_ping s place counted) dst_ip counted.ping_time >>= λ s'.
          done (0, store_ping s' place (record counted { last_send = s.now })))

  -- `ping_req` from the test of `is_finished` on.
  unfoldable pub ping_round : Stack → Option ℕ → Ping → List ℕ → Outcome (ℕ × Stack)
  ping_round s place ping dst_ip =
      if ping.is_finished
      then done (1, s)
      else if not (leb (ping.last_send + 1) s.now)
      then done (0, s)
      else ((if leb 1 ping.ping_time then ping_req_check s ping else done ping) >>= λ checked.
          send_next s place checked dst_ip)

  -- The result is 1 once the ping is finished.
  unfoldable pub ping_req : Stack → List ℕ → Outcome (ℕ × Stack)
  unfolding ping_round new_ping
  ping_req s dst_ip = elim (Map.get s.now s.map_ping dst_ip) [
    | none ↦
        let ping = new_ping s.now in
        ping_round (record s { map_ping = (Map.set s.now s.map_ping dst_ip ping).1 }) none ping
          dst_ip
    | some p ↦ elim (value_at s.map_ping.slots p) [
      | none ↦ fault null_pointer
      | some ping ↦ ping_round s (some p) ping dst_ip
    ]
  ]
