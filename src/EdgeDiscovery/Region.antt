-- ===== src/EdgeDiscovery/Region.antt =====
-- edgediscovery/allregions/region.go: a region with a primary and a secondary set, one of them active.
-- `active` is a reference to one of the two sets, so it is a name here, and a change of the active
-- set is a change of that set. Time is an argument.
pub mod Flat
use shitflared.Prelude.{
  ℕ, ◌+◌, Bool, true, false, not, ◌&&◌, List, [], ◌∷◌, Option, none, some, ltb, length,
  if◌then◌else◌, insert,
}
use shitflared.EdgeDiscovery.AddrSet.{
  IpVersion, v4, v6, same_version, EdgeAddr, addr_eq, UsedBy, unused, AddrSet, addr_used_by,
  available_addrs, get_unused_ip, assign, get_any_address, give_back,
}

pub data ConfigIpVersion : Type 0 where
  auto ipv4_only ipv6_only : ConfigIpVersion

pub data Active : Type 0 where
  primary_set secondary_set : Active

pub record Region : Type 0 where
  pub primary_is_active : Bool
  pub active : Active
  pub primary : AddrSet
  pub secondary : AddrSet
  pub primary_timeout : ℕ
  pub timeout_duration : ℕ

-- Ten minutes, in nanoseconds.
abbrev pub default_timeout : ℕ
default_timeout = 600000000000

unfoldable pub collect : IpVersion → AddrSet → List EdgeAddr → AddrSet
collect v set [] = set
collect v set (a ∷ rest) =
    collect v (if same_version a.ip_version v then insert a unused set else set) rest

-- The family of the first address is the system's preference.
abbrev pub system_preference : List EdgeAddr → IpVersion
system_preference [] = v6
system_preference (a ∷ rest) = a.ip_version

abbrev pub sets_for : ConfigIpVersion → IpVersion → AddrSet → AddrSet → AddrSet × AddrSet
sets_for ipv4_only v conn_for_v4 conn_for_v6 = (conn_for_v4, [])
sets_for ipv6_only v conn_for_v4 conn_for_v6 = (conn_for_v6, [])
sets_for auto v4 conn_for_v4 conn_for_v6 = (conn_for_v4, conn_for_v6)
sets_for auto v6 conn_for_v4 conn_for_v6 = (conn_for_v6, conn_for_v4)

unfoldable pub new_region : List EdgeAddr → ConfigIpVersion → Region
new_region addrs override =
    let sets =
      sets_for override (system_preference addrs) (collect v4 [] addrs) (collect v6 [] addrs) in
    record {
      primary_is_active = true;
      active = primary_set;
      primary = sets.0;
      secondary = sets.1;
      primary_timeout = 0;
      timeout_duration = default_timeout;
    }

abbrev set_of : Active → Region → AddrSet
set_of primary_set r = r.primary
set_of secondary_set r = r.secondary

abbrev pub active_set : Region → AddrSet
active_set r = set_of r.active r

abbrev put_set : Active → Region → AddrSet → Region
put_set primary_set r set = record r { primary = set }
put_set secondary_set r set = record r { secondary = set }

abbrev pub put_active : Region → AddrSet → Region
put_active r set = put_set r.active r set

abbrev pub or_else : Option EdgeAddr → Option EdgeAddr → Option EdgeAddr
or_else none b = b
or_else (some a) b = some a

unfoldable pub region_addr_used_by : ℕ → Region → ℕ → Option EdgeAddr
region_addr_used_by choice r conn =
    or_else (addr_used_by choice r.primary conn) (addr_used_by choice r.secondary conn)

unfoldable pub region_available_addrs : Region → ℕ
region_available_addrs r = available_addrs (active_set r)

abbrev assign_found : Region → ℕ → Option EdgeAddr → Region × Option EdgeAddr
assign_found r conn none = (r, none)
assign_found r conn (some a) = (put_active r (assign (active_set r) (some a) conn), some a)

unfoldable pub assign_any_address : ℕ → Region → ℕ → Option EdgeAddr → Region × Option EdgeAddr
assign_any_address choice r conn excluding =
    assign_found r conn (get_unused_ip choice (active_set r) excluding)

unfoldable pub region_get_any_address : ℕ → Region → Option EdgeAddr
region_get_any_address choice r = get_any_address choice (active_set r)

unfoldable pub activate_primary : ℕ → Region → Region
activate_primary now r = record r {
  active = primary_set;
  primary_is_active = true;
  primary_timeout = now;
}

-- What `GiveBack` does to the active set once the address is free.
unfoldable pub after_give_back : Region → EdgeAddr → Bool → ℕ → Region
after_give_back r addr has_connectivity_error now =
    if not has_connectivity_error
    then r
    else if r.primary_is_active && same_version addr.ip_version v6 && ltb 0 (length r.secondary)
    then record r {
      active = secondary_set;
      primary_is_active = false;
      primary_timeout = now + r.timeout_duration;
    }
    else if r.primary_is_active
    then r
    else if same_version addr.ip_version v4
    then activate_primary now r
    else if ltb r.primary_timeout now
    then activate_primary now r
    else r

abbrev give_back_secondary : Region → EdgeAddr → Bool → ℕ → AddrSet × Bool → Region × Bool
give_back_secondary r addr err now (set, false) = (r, false)
give_back_secondary r addr err now (set, true) =
    (after_give_back (record r { secondary = set }) addr err now, true)

abbrev give_back_primary : Region → EdgeAddr → Bool → ℕ → AddrSet × Bool → Region × Bool
give_back_primary r addr err now (set, true) =
    (after_give_back (record r { primary = set }) addr err now, true)
give_back_primary r addr err now (set, false) =
    give_back_secondary r addr err now (give_back r.secondary addr)

unfoldable pub region_give_back : Region → EdgeAddr → Bool → ℕ → Region × Bool
region_give_back r addr has_connectivity_error now =
    give_back_primary r addr has_connectivity_error now (give_back r.primary addr)
