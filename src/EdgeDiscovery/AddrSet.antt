-- ===== src/EdgeDiscovery/AddrSet.antt =====
-- edgediscovery/allregions/address.go, usedby.go: the addresses of one IP version of a region, with
-- the connection that uses each. A Go map is ranged over in any order, so where the source returns
-- the first address that fits, the model takes an argument `choice` that picks among all that fit.
pub mod Counts
use shitflared.Prelude.{
  ℕ, zero, suc, ◌+◌, ◌≡◌, ◌↔◌, Bool, true, false, not, ◌&&◌, List, [], ◌∷◌, Option, none, some,
  arith, ◌==◌, if◌then◌else◌, Eq, lookup, insert,
}

pub data IpVersion : Type 0 where
  v4 v6 : IpVersion

abbrev pub same_version : IpVersion → IpVersion → Bool
same_version v4 v4 = true
same_version v6 v6 = true
same_version _ _ = false

-- An `*EdgeAddr`: the identity of the pointer, and the field that the package reads.
pub record EdgeAddr : Type 0 where
  pub pointer : ℕ
  pub ip_version : IpVersion

abbrev pub same_addr : EdgeAddr → EdgeAddr → Bool
same_addr a b = (a.pointer == b.pointer) && same_version a.ip_version b.ip_version

same_version_iff : (v w : IpVersion) → (same_version v w ≡ true) ↔ (v ≡ w)
same_version_iff v w = ground arith

pub same_addr_iff : (a b : EdgeAddr) → (same_addr a b ≡ true) ↔ (a ≡ b)
same_addr_iff a b = ground (arith, same_version_iff a.ip_version b.ip_version)

instance abbrev pub addr_eq : Eq EdgeAddr
addr_eq = record { beq = same_addr; beq_iff = same_addr_iff }

pub data UsedBy : Type 0 where
  unused : UsedBy
  in_use : ℕ → UsedBy

abbrev pub AddrSet : Type 0
AddrSet = List (EdgeAddr × UsedBy)

-- Any element of the list, by the argument; `nil` of the empty list.
unfoldable pub pick : ℕ → List EdgeAddr → Option EdgeAddr
pick choice [] = none
pick choice (a ∷ []) = some a
pick zero (a ∷ b ∷ rest) = some a
pick (suc choice) (a ∷ b ∷ rest) = pick choice (b ∷ rest)

abbrev pub is_used_by : ℕ → UsedBy → Bool
is_used_by conn unused = false
is_used_by conn (in_use c) = c == conn

abbrev pub is_unused : UsedBy → Bool
is_unused unused = true
is_unused (in_use c) = false

abbrev pub is_addr : Option EdgeAddr → EdgeAddr → Bool
is_addr none a = false
is_addr (some b) a = same_addr b a

-- The addresses that a range over the map would stop at.
unfoldable pub used_by_conn : AddrSet → ℕ → List EdgeAddr
used_by_conn [] conn = []
used_by_conn ((a, u) ∷ set) conn =
    let rest = used_by_conn set conn in if is_used_by conn u then a ∷ rest else rest

unfoldable pub unused_but : AddrSet → Option EdgeAddr → List EdgeAddr
unused_but [] excluding = []
unused_but ((a, u) ∷ set) excluding =
    let rest = unused_but set excluding in
    if is_unused u && not (is_addr excluding a) then a ∷ rest else rest

unfoldable pub all_addrs : AddrSet → List EdgeAddr
all_addrs [] = []
all_addrs ((a, u) ∷ set) = a ∷ all_addrs set

unfoldable pub addr_used_by : ℕ → AddrSet → ℕ → Option EdgeAddr
addr_used_by choice set conn = pick choice (used_by_conn set conn)

unfoldable pub available_addrs : AddrSet → ℕ
available_addrs [] = 0
available_addrs ((a, u) ∷ set) = let n = available_addrs set in if is_unused u then suc n else n

unfoldable pub get_unused_ip : ℕ → AddrSet → Option EdgeAddr → Option EdgeAddr
get_unused_ip choice set excluding = pick choice (unused_but set excluding)

unfoldable pub assign : AddrSet → Option EdgeAddr → ℕ → AddrSet
assign set none conn = set
assign set (some a) conn = insert a (in_use conn) set

unfoldable pub get_any_address : ℕ → AddrSet → Option EdgeAddr
get_any_address choice set = pick choice (all_addrs set)

unfoldable pub give_back : AddrSet → EdgeAddr → AddrSet × Bool
give_back set a = elim (lookup a set) [ none ↦ (set, false) | some u ↦ (insert a unused set, true) ]
