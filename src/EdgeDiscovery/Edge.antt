-- ===== src/EdgeDiscovery/Edge.antt =====
-- edgediscovery/edgediscovery.go: the edge, behind a mutex, so that each method is one step. Logs are
-- left out.
pub mod Invariant
pub mod History
pub mod Failover
mod Tests
use shitflared.Prelude.{ℕ, Bool, true, false, List, [], ◌∷◌, Option, none, some}
use shitflared.EdgeDiscovery.AddrSet.{EdgeAddr}
use shitflared.EdgeDiscovery.Regions.{
  Regions, regions_get_any_address, regions_addr_used_by, get_unused_addr, regions_give_back,
}

-- The random choices of one call: which addresses the ranges over maps stop at, and the coin.
pub record Chance : Type 0 where
  pub held : ℕ
  pub free : ℕ
  pub coin : Bool

-- `none` is `ErrNoAddressesLeft`.
unfoldable pub get_addr_for_rpc : ℕ → Regions → Option EdgeAddr
get_addr_for_rpc choice rs = regions_get_any_address choice rs

unfoldable pub get_addr : Chance → Regions → ℕ → Regions × Option EdgeAddr
get_addr c rs conn = elim (regions_addr_used_by c.held rs conn) [
  | some a ↦ (rs, some a)
  | none ↦ get_unused_addr c.free c.coin rs none conn
]

unfoldable pub get_different_addr : Chance → Regions → ℕ → Bool → ℕ → Regions × Option EdgeAddr
get_different_addr c rs conn has_connectivity_error now =
    elim (regions_addr_used_by c.held rs conn) [
      | none ↦ get_unused_addr c.free c.coin rs none conn
      | some old ↦
          get_unused_addr c.free c.coin (regions_give_back rs old has_connectivity_error now).0
            (some old) conn
    ]

unfoldable pub edge_give_back : Regions → EdgeAddr → Bool → ℕ → Regions × Bool
edge_give_back rs addr has_connectivity_error now =
    regions_give_back rs addr has_connectivity_error now
