-- ===== src/Driver/Choice.antt =====
-- Which interface `driver_find` of src/driver.c chooses.
use hitsz_network_lab.Common.{
  Option, leb, ℕ, ◌+◌, ◌≤◌, ◌<◌, List, [], ◌∷◌, length, get_elem?, if◌then◌else◌, none, some, arith,
  ◌≡◌, ◌≢◌, ◌⊎◌,
}
use hitsz_network_lab.Stack.{done}
use hitsz_network_lab.Utils.Prefix.{ip_prefix_match}
use hitsz_network_lab.Driver.{
  Address, mask_all, Interface, buf_size, matches, best_from, last_mask, driver_find,
}

-- The last of the IPv4 addresses of an interface.
abbrev pub last_inet : List Address → Option Address → Option Address
last_inet [] latest = latest
last_inet (a ∷ addresses) latest = last_inet addresses (if a.is_inet then some a else latest)

-- The prefix of an address in common with `ip`, if it is as long as the network mask says, else 0.
abbrev pub prefix_in_network : List ℕ → Option Address → ℕ
prefix_in_network ip none = 0
prefix_in_network ip (some a) =
    if leb (ip_prefix_match mask_all a.netmask) (ip_prefix_match ip a.addr)
    then ip_prefix_match ip a.addr
    else 0

-- What counts for an interface: the prefix of its last IPv4 address.
abbrev pub score : List ℕ → Interface → ℕ
score ip d = prefix_in_network ip (last_inet d.addresses none)

-- No interface has a larger score.
abbrev pub IsBest : List ℕ → List Interface → ℕ → Type 0
IsBest ip alldevs m = (j : ℕ) (d : Interface) → get_elem? alldevs j ≡ some d → score ip d ≤ m

-- Where a result of the loop comes from: the values it began with, or an interface.
abbrev pub ComesFrom : List ℕ → List Interface → ℕ → ℕ → ℕ → ℕ × ℕ → Type 0
ComesFrom ip devs i k m r =
    (r ≡ (k, m))
    ⊎ ((j : ℕ) × (d : Interface) × (get_elem? devs j ≡ some d) × (r.0 ≡ i + j) × (score ip d ≡ r.1))

-- No name is too long for the array that it is copied to.
abbrev pub NamesFit : List Interface → Type 0
NamesFit [] = Unit {0}
NamesFit (d ∷ devs) = (length d.name < buf_size) × NamesFit devs

length-get_elem? :
    (devs : List Interface) (j : ℕ) (d : Interface) → get_elem? devs j ≡ some d → length devs ≢ 0
length-get_elem? [] j d e = cc
length-get_elem? (x ∷ devs) j d e = omega arith

-- The three ways that the function ends.
module _ (ip mask : List ℕ) (alldevs : List Interface) where
  found :
      (d : Interface)
      → length alldevs ≤ buf_size
      → get_elem? alldevs (best_from (matches ip alldevs) 0 0 0).0 ≡ some d
      → (best_from (matches ip alldevs) 0 0 0).1 ≢ 0
      → (best_from (matches ip alldevs) 0 0 0).1 ≢ 32
      → length d.name < buf_size
      → driver_find ip mask (some alldevs) ≡ done (some (d.name, last_mask d.addresses mask))
  unfolding driver_find
  found d few at e f short = ground (arith, length-get_elem? alldevs _ d at)
