-- ===== src/EdgeDiscovery/Edge/Failover.antt =====
-- When a region changes between its two address families.
use shitflared.Prelude.{ℕ, ◌+◌, ◌<◌, ◌≡◌, ◌↔◌, ◌⊎◌, Bool, true, false, arith, length}
use shitflared.EdgeDiscovery.AddrSet.{v4, v6, EdgeAddr}
use shitflared.EdgeDiscovery.Region.{
  Region, Active, primary_set, secondary_set, after_give_back, activate_primary,
}

abbrev is_primary : Active → Bool
is_primary primary_set = true
is_primary secondary_set = false

-- The flag says which set is active.
abbrev pub IsConsistent : Region → Type 0
IsConsistent r = r.primary_is_active ≡ is_primary r.active

-- An address that comes back with a connectivity error moves the region to its secondary addresses
-- exactly if the primary ones were active, the address is an IPv6 one and there are secondary ones;
-- and back to the primary ones exactly if they were not active and the address is an IPv4 one or the
-- timeout has passed. With no connectivity error nothing changes, and the flag stays right.
pub after_give_back_failover :
    (r : Region) (a : EdgeAddr) (err : Bool) (now : ℕ)
    → IsConsistent r
    → let r' = after_give_back r a err now in
      IsConsistent r'
      × (err ≡ false → r' ≡ r)
      × (r.active ≡ primary_set
          → (r'.active ≡ secondary_set)
            ↔ ((err ≡ true) × (a.ip_version ≡ v6) × (0 < length r.secondary)))
      × (r.active ≡ primary_set
          → r'.active ≡ secondary_set
          → r'.primary_timeout ≡ now + r.timeout_duration)
      × (r.active ≡ secondary_set
          → (r'.active ≡ primary_set)
            ↔ ((err ≡ true) × ((a.ip_version ≡ v4) ⊎ (r.primary_timeout < now))))
unfolding after_give_back activate_primary
after_give_back_failover r a err now c = (
  ground arith,
  λ e. ground arith,
  λ e. (λ h. ground arith, λ h. ground arith),
  λ e h. ground arith,
  λ e. (λ h. ground arith, λ h. ground arith),
)
