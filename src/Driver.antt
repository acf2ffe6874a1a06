-- ===== src/Driver.antt =====
-- src/driver.c: which interface is opened, and with which filter. The interfaces that pcap finds, and
-- whether its calls succeed, are parameters. `driver_recv` and `driver_send` are in Ethernet.
pub mod Choice
pub mod Tests
use hitsz_network_lab.Common.{
  ℕ, ◌+◌, ◌/◌, ◌%◌, Bool, true, false, not, List, [], ◌∷◌, ◌++◌, length, get_elem?, ltb, leb, ◌==◌,
  if◌then◌else◌, Option, none, some, replicate, Status, ok, failed, ◌-◌,
}
use hitsz_network_lab.Stack.{Config, Outcome, done, fault, null_pointer, out_of_bounds, ◌>>=◌}
use hitsz_network_lab.Text.{codes}
use hitsz_network_lab.Utils.Prefix.{ip_prefix_match}

-- A `pcap_addr_t`: whether it is an IPv4 address, and the bytes of the address and of its mask, which
-- is taken not to be NULL.
pub record Address : Type 0 where
  pub is_inet : Bool
  pub addr : List ℕ
  pub netmask : List ℕ

-- A `pcap_if_t`.
pub record Interface : Type 0 where
  pub name : List ℕ
  pub addresses : List Address

-- PCAP_BUF_SIZE, and the bytes of PCAP_NETMASK_UNKNOWN.
abbrev pub buf_size : ℕ
buf_size = 1024

abbrev pub mask_all : List ℕ
mask_all = replicate 4 255

-- The inner loop over the addresses of an interface: its entry of `match`.
unfoldable pub match_of : List ℕ → List Address → ℕ → ℕ
match_of ip [] match = match
match_of ip (a ∷ addresses) match =
    let m = ip_prefix_match ip a.addr in
    match_of ip addresses
      (if a.is_inet then if ltb m (ip_prefix_match mask_all a.netmask) then 0 else m else match)

-- The outer loop, which fills the array.
unfoldable pub matches : List ℕ → List Interface → List ℕ
matches ip [] = []
matches ip (d ∷ alldevs) = match_of ip d.addresses 0 ∷ matches ip alldevs

-- The loop for the largest entry, from index `i` on.
unfoldable pub best_from : List ℕ → ℕ → ℕ → ℕ → ℕ × ℕ
best_from [] i max_if max_match = (max_if, max_match)
best_from (m ∷ ms) i max_if max_match =
    best_from ms (i + 1) (if ltb max_match m then i else max_if)
      (if ltb max_match m then m else max_match)

-- The last loop: the mask of the last IPv4 address.
unfoldable pub last_mask : List Address → List ℕ → List ℕ
last_mask [] mask = mask
last_mask (a ∷ addresses) mask = last_mask addresses (if a.is_inet then a.netmask else mask)

-- The name and the mask, or `none` for -1. `alldevs` is `none` if `pcap_findalldevs` fails; `mask`
-- is what stood in the variable for the mask.
unfoldable pub driver_find :
    List ℕ → List ℕ → Option (List Interface) → Outcome (Option (List ℕ × List ℕ))
driver_find ip mask none = done none
driver_find ip mask (some alldevs) =
    let (max_if, max_match) = best_from (matches ip alldevs) 0 0 0 in
    if ltb buf_size (length alldevs)
    then fault out_of_bounds
    else if length alldevs == 0
    then done none
    else if max_match == 0
    then done none
    else (elim (get_elem? alldevs max_if) [
      | none ↦ fault null_pointer
      | some d ↦
          if max_match == 32
          then done none
          else if leb buf_size (length d.name)
          then fault out_of_bounds
          else done (some (d.name, last_mask d.addresses mask))
    ])

hex_digit : ℕ → ℕ
hex_digit d = if ltb d 10 then b'0' + d else b'a' + (d - 10)

-- `%02x:%02x:...` over the bytes of an address.
unfoldable pub colon_hex : List ℕ → List ℕ
unfolding hex_digit
colon_hex [] = []
colon_hex (b ∷ []) = hex_digit (b / 16 % 16) ∷ hex_digit (b % 16) ∷ []
colon_hex (b ∷ bs) = hex_digit (b / 16 % 16) ∷ hex_digit (b % 16) ∷ b':' ∷ colon_hex bs

-- Frames to the host or to all, and none of its own unless the build is for PING.
unfoldable pub filter_exp : Bool → List ℕ → List ℕ
unfolding colon_hex
filter_exp true mac_addr =
    codes "(ether dst " ++ (colon_hex mac_addr ++ codes " or ether broadcast)")
filter_exp false mac_addr =
    codes "(ether dst "
    ++ (colon_hex mac_addr
        ++ (codes " or ether broadcast) and (not ether src " ++ (colon_hex mac_addr ++ codes ")")))

-- What pcap finds, and which of its calls succeed.
pub record Pcap : Type 0 where
  pub findalldevs : Option (List Interface)
  pub open_live : List ℕ → Bool
  pub setnonblock : Bool
  pub compile : List ℕ → List ℕ → Bool
  pub setfilter : Bool

-- The device that is open afterwards, and the filter that is set on it.
pub record Device : Type 0 where
  pub if_name : List ℕ
  pub filter : Option (List ℕ)

-- The status, and what is open. A failure behind `pcap_open_live` leaves the device open.
unfoldable pub driver_open : Config → List ℕ → Pcap → Outcome (Status × Option Device)
unfolding driver_find filter_exp
driver_open config mask pcap = driver_find config.net_if_ip mask pcap.findalldevs >>= λ found.
    elim found [
      | none ↦ done (failed, none)
      | some (if_name, mask') ↦
          let opened : Device = record { if_name = if_name; filter = none } in
          let program = filter_exp config.ping config.net_if_mac in
          if not (pcap.open_live if_name)
          then done (failed, none)
          else if not pcap.setnonblock
          then done (failed, some opened)
          else if not (pcap.compile program mask')
          then done (failed, some opened)
          else if not pcap.setfilter
          then done (failed, some opened)
          else done (ok, some (record opened { filter = some program }))
    ]

unfoldable pub driver_close : Option Device → Option Device
driver_close device = none
