-- ===== src/EdgeDiscovery/Regions.antt =====
-- edgediscovery/allregions/regions.go: the two regions of the edge, between which addresses are taken
-- evenly. `coin` is the random choice that is made when both have as many left.
pub mod Flat
use shitflared.Prelude.{
  ℕ, zero, suc, ◌+◌, Bool, true, false, List, [], ◌∷◌, Option, none, some, ltb, ◌==◌, if◌then◌else◌,
}
use shitflared.EdgeDiscovery.AddrSet.{EdgeAddr}
use shitflared.EdgeDiscovery.Region.{
  Region, ConfigIpVersion, auto, new_region, or_else, region_addr_used_by, region_available_addrs,
  region_get_any_address, assign_any_address, region_give_back,
}

pub record Regions : Type 0 where
  pub region1 : Region
  pub region2 : Region

-- The addresses at even and at odd places.
unfoldable pub evens : List EdgeAddr → List EdgeAddr
evens [] = []
evens (a ∷ []) = a ∷ []
evens (a ∷ b ∷ rest) = a ∷ evens rest

unfoldable pub odds : List EdgeAddr → List EdgeAddr
odds [] = []
odds (a ∷ []) = []
odds (a ∷ b ∷ rest) = b ∷ odds rest

unfoldable pub new_no_resolve : List EdgeAddr → Regions
new_no_resolve addrs = record {
  region1 = new_region (evens addrs) auto;
  region2 = new_region (odds addrs) auto;
}

-- `ResolveEdge` from the addresses that the discovery found for each region; with fewer than two
-- regions it fails.
unfoldable pub resolve_edge : List (List EdgeAddr) → ConfigIpVersion → Option Regions
resolve_edge [] override = none
resolve_edge (a ∷ []) override = none
resolve_edge (a ∷ b ∷ rest) override =
    some (record { region1 = new_region a override; region2 = new_region b override })

unfoldable pub regions_get_any_address : ℕ → Regions → Option EdgeAddr
regions_get_any_address choice rs =
    or_else (region_get_any_address choice rs.region1) (region_get_any_address choice rs.region2)

unfoldable pub regions_addr_used_by : ℕ → Regions → ℕ → Option EdgeAddr
regions_addr_used_by choice rs conn =
    or_else (region_addr_used_by choice rs.region1 conn)
      (region_addr_used_by choice rs.region2 conn)

pub record Taken : Type 0 where
  pub first : Region
  pub second : Region
  pub addr : Option EdgeAddr

abbrev from_second : Region → Region × Option EdgeAddr → Taken
from_second first (second, addr) = record { first = first; second = second; addr = addr }

abbrev from_first : ℕ → Option EdgeAddr → ℕ → Region → Region × Option EdgeAddr → Taken
from_first choice excluding conn second (first, some a) = record {
  first = first;
  second = second;
  addr = some a;
}
from_first choice excluding conn second (first, none) =
    from_second first (assign_any_address choice second conn excluding)

unfoldable pub get_addrs : ℕ → Option EdgeAddr → ℕ → Region → Region → Taken
get_addrs choice excluding conn first second =
    from_first choice excluding conn second (assign_any_address choice first conn excluding)

abbrev first_is_1 : Taken → Regions × Option EdgeAddr
first_is_1 t = (record { region1 = t.first; region2 = t.second }, t.addr)

abbrev first_is_2 : Taken → Regions × Option EdgeAddr
first_is_2 t = (record { region1 = t.second; region2 = t.first }, t.addr)

-- Whether region 1 is asked first.
unfoldable pub prefers_1 : Bool → Regions → Bool
prefers_1 coin rs =
    let n1 = region_available_addrs rs.region1 in
    let n2 = region_available_addrs rs.region2 in if n1 == n2 then coin else ltb n2 n1

unfoldable pub get_unused_addr :
    ℕ → Bool → Regions → Option EdgeAddr → ℕ → Regions × Option EdgeAddr
get_unused_addr choice coin rs excluding conn =
    if prefers_1 coin rs
    then first_is_1 (get_addrs choice excluding conn rs.region1 rs.region2)
    else first_is_2 (get_addrs choice excluding conn rs.region2 rs.region1)

unfoldable pub regions_available_addrs : Regions → ℕ
regions_available_addrs rs = region_available_addrs rs.region1 + region_available_addrs rs.region2

abbrev give_back_2 : Regions → Region × Bool → Regions × Bool
give_back_2 rs (r, ok) = (record rs { region2 = r }, ok)

abbrev give_back_1 : Regions → EdgeAddr → Bool → ℕ → Region × Bool → Regions × Bool
give_back_1 rs addr err now (r, true) = (record rs { region1 = r }, true)
give_back_1 rs addr err now (r, false) =
    give_back_2 (record rs { region1 = r }) (region_give_back rs.region2 addr err now)

unfoldable pub regions_give_back : Regions → EdgeAddr → Bool → ℕ → Regions × Bool
regions_give_back rs addr has_connectivity_error now =
    give_back_1 rs addr has_connectivity_error now
      (region_give_back rs.region1 addr has_connectivity_error now)
