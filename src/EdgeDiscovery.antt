-- ===== src/EdgeDiscovery.antt =====
-- edgediscovery: which edge address each connection of the tunnel uses.
pub mod AddrSet
pub mod Region
pub mod Regions
pub mod Edge
