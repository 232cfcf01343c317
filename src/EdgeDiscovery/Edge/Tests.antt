-- ===== src/EdgeDiscovery/Edge/Tests.antt =====
-- The edge with one IPv4 and one IPv6 address in a region, and one IPv4 address in the other.
use shitflared.Prelude.{◌≡◌, refl, true, false, [], ◌∷◌, some, arith, lookup, insert}
use shitflared.EdgeDiscovery.AddrSet.{
  EdgeAddr, addr_eq, v4, v6, unused, in_use, pick, used_by_conn, unused_but, addr_used_by,
  available_addrs, get_unused_ip,
}
use shitflared.EdgeDiscovery.AddrSet.Counts.{uses}
use shitflared.EdgeDiscovery.Region.{
  Region, auto, primary_set, collect, new_region, region_addr_used_by, region_available_addrs,
  assign_any_address,
}
use shitflared.EdgeDiscovery.Regions.{
  Regions, regions_addr_used_by, get_addrs, prefers_1, get_unused_addr,
}
use shitflared.EdgeDiscovery.Regions.Flat.{total}
use shitflared.EdgeDiscovery.Edge.{Chance, get_addr}
use shitflared.EdgeDiscovery.Edge.Invariant.{Inv}
use shitflared.EdgeDiscovery.Edge.History.{gets, changes, returns, run, run-Inv}

abbrev a1 : EdgeAddr
a1 = record { pointer = 1; ip_version = v6 }

abbrev a2 : EdgeAddr
a2 = record { pointer = 2; ip_version = v4 }

abbrev a3 : EdgeAddr
a3 = record { pointer = 3; ip_version = v4 }

abbrev region_1 : Region
region_1 = record {
  primary_is_active = true;
  active = primary_set;
  primary = (a1, in_use 0) ∷ [];
  secondary = (a2, unused) ∷ [];
  primary_timeout = 0;
  timeout_duration = 600;
}

abbrev region_2 : Region
region_2 = record {
  primary_is_active = true;
  active = primary_set;
  primary = (a3, unused) ∷ [];
  secondary = [];
  primary_timeout = 0;
  timeout_duration = 600;
}

abbrev edge : Regions
edge = record { region1 = region_1; region2 = region_2 }

abbrev chance : Chance
chance = record { held = 0; free = 0; coin = true }

first_is_primary : (new_region (a1 ∷ a2 ∷ []) auto).primary ≡ (a1, unused) ∷ []
unfolding new_region collect insert
first_is_primary = refl

edge-Inv : Inv (total edge)
unfolding lookup uses
edge-Inv = record { distinct = (refl, (refl, (refl, tt))); one_each = λ conn. ground arith }

run-Inv_example :
    Inv (total (run edge (gets chance 7 ∷ changes chance 0 true 10 ∷ returns a3 false 20 ∷ [])))
run-Inv_example =
    run-Inv edge (gets chance 7 ∷ changes chance 0 true 10 ∷ returns a3 false 20 ∷ []) edge-Inv

gives_a3 : (get_addr chance edge 7).1 ≡ some a3
unfolding get_addr regions_addr_used_by region_addr_used_by addr_used_by pick used_by_conn
    get_unused_addr prefers_1 region_available_addrs available_addrs get_addrs assign_any_address
    get_unused_ip unused_but
gives_a3 = refl
