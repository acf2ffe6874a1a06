-- ===== src/Icmp/Ping/Statistics.antt =====
-- What the statistics of `ping_req` in src/icmp.c are, and that a ping comes to its end.
use hitsz_network_lab.Common.{
  ℕ, ◌≡◌, refl, ◌⊎◌, inl, Bool, false, not, ◌&&◌, List, [], ◌∷◌, length, ◌==◌, arith, bytes_Eq,
  nat_eq,
}
use hitsz_network_lab.Common.Int.{ℤ, pos, ◌+ℤ◌, ltℤ, to_int, int_of, residue}
use hitsz_network_lab.Map.{Map, Slot, modify, value_at}
use hitsz_network_lab.Map
use hitsz_network_lab.Stack.{Stack}
use hitsz_network_lab.Stack.Tables.{Ping, PingReq}
use hitsz_network_lab.Icmp.Ping.{count_reply, new_ping}

-- No number of a list is less than `m`, or more.
abbrev pub NoneBelow : List ℤ → ℤ → Type 0
NoneBelow [] m = Unit
NoneBelow (x ∷ xs) m = (ltℤ x m ≡ false) × NoneBelow xs m

abbrev pub NoneAbove : List ℤ → ℤ → Type 0
NoneAbove [] m = Unit
NoneAbove (x ∷ xs) m = (ltℤ m x ≡ false) × NoneAbove xs m

abbrev pub Among : List ℤ → ℤ → Type 0
Among [] m = ⊥
Among (x ∷ xs) m = (m ≡ x) ⊎ Among xs m

-- The sum, without a bound.
abbrev pub total : List ℤ → ℤ
total [] = pos 0
total (x ∷ xs) = total xs +ℤ x

-- The statistics of a list of round trip times: how many; the least of them and 1000; the greatest
-- of them and 0; and the sum, as an `int`.
pub record IsSummary (ping : Ping) (intervals : List ℤ) : Type 0 where
  pub replies : ping.success_time ≡ length intervals
  pub shortest : NoneBelow (pos 1000 ∷ intervals) ping.shortest_time
  pub shortest_among : Among (pos 1000 ∷ intervals) ping.shortest_time
  pub longest : NoneAbove (pos 0 ∷ intervals) ping.longest_time
  pub longest_among : Among (pos 0 ∷ intervals) ping.longest_time
  pub summed : ping.sum_time ≡ to_int (total intervals)

-- A request is answered once its entry has a time of reception.
abbrev pub is_answered : PingReq → Bool
is_answered entry = not (entry.receive_time.tv_sec == 0 && entry.receive_time.tv_usec == 0)

new_ping-IsSummary : (now : ℕ) → IsSummary (new_ping now) []
unfolding new_ping int_of residue
new_ping-IsSummary now = record {
  replies = refl;
  shortest = (refl, tt);
  shortest_among = inl refl;
  longest = (refl, tt);
  longest_among = inl refl;
  summed = refl;
}

pub count_reply-keeps :
    (entry : PingReq) (ping : Ping)
    → let ping' = count_reply entry ping in
      (ping'.ping_time ≡ ping.ping_time)
      × (ping'.last_send ≡ ping.last_send)
      × (ping'.is_finished ≡ ping.is_finished)
unfolding count_reply
count_reply-keeps entry ping = ground arith
