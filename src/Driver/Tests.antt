-- ===== src/Driver/Tests.antt =====
-- The theorem about src/driver.c at two interfaces, and runs of `driver_open`.
use hitsz_network_lab.Common.{ℕ, ◌≡◌, refl, true, false, List, [], ◌∷◌, none, some, failed, ok}
use hitsz_network_lab.Stack.{done}
use hitsz_network_lab.Stack.Example.{example, example_ip}
use hitsz_network_lab.Text.{codes}
use hitsz_network_lab.Utils.Prefix.{ip_prefix_match}
use hitsz_network_lab.Driver.{
  Interface, Pcap, matches, match_of, best_from, last_mask, driver_find, driver_open,
}

abbrev mask_24 : List ℕ
mask_24 = 255 ∷ 255 ∷ 255 ∷ 0 ∷ []

abbrev two_interfaces : List Interface
two_interfaces =
    record {
      name = codes "lo";
      addresses =
          record { is_inet = true; addr = 127 ∷ 0 ∷ 0 ∷ 1 ∷ []; netmask = 255 ∷ 0 ∷ 0 ∷ 0 ∷ [] }
          ∷ [];
    }
    ∷ record {
      name = codes "eth0";
      addresses =
          record { is_inet = false; addr = []; netmask = [] }
          ∷ record { is_inet = true; addr = 192 ∷ 168 ∷ 163 ∷ 1 ∷ []; netmask = mask_24 }
          ∷ [];
    }
    ∷ []

eth0_found : driver_find example_ip [] (some two_interfaces) ≡ done (some (codes "eth0", mask_24))
unfolding driver_find matches match_of best_from last_mask ip_prefix_match
eth0_found = refl

abbrev working : Pcap
working = record {
  findalldevs = some two_interfaces;
  open_live = λ name. true;
  setnonblock = true;
  compile = λ text mask. true;
  setfilter = true;
}

eth0_opened :
    driver_open example.config [] working
    ≡ done (
      ok,
      some (record {
        if_name = codes "eth0";
        filter = some (
            codes
              "(ether dst 11:22:33:44:55:66 or ether broadcast) and (not ether src 11:22:33:44:55:66)");
      }),
    )
unfolding driver_open driver_find matches match_of best_from last_mask ip_prefix_match
eth0_opened = refl

-- A filter that is refused leaves the device open without one.
filter_refused :
    driver_open example.config [] (record working { setfilter = false })
    ≡ done (failed, some (record { if_name = codes "eth0"; filter = none }))
unfolding driver_open driver_find matches match_of best_from last_mask ip_prefix_match
filter_refused = refl
