-- ===== src/IpAccess.antt =====
-- ipaccess/access.go: which addresses and ports a SOCKS proxy may reach. An address is the list of its
-- bytes. A port that is negative is refused as 0 is, so ports are natural numbers.
pub mod Search
pub mod Verdict
mod Tests
use Prim.Native.Nat.{bit_and}
use shitflared.Prelude.{
  ℕ, zero, suc, ◌+◌, ◌/◌, Bool, true, false, not, ◌&&◌, ◌||◌, List, [], ◌∷◌, Option, none, some,
  length, get_or, take, drop, leb, ltb, ◌==◌, if◌then◌else◌,
}
use shitflared.Prelude.Text.{Text}
use shitflared.Prelude.Sort.{sort_by}

-- net.IPNet.
pub record IpNet : Type 0 where
  pub ip : List ℕ
  pub mask : List ℕ

abbrev pub same_bytes : List ℕ → List ℕ → Bool
same_bytes [] [] = true
same_bytes (a ∷ s) (b ∷ t) = (a == b) && same_bytes s t
same_bytes _ _ = false

-- `ip.To4()`: 4 bytes, or the last 4 of 16 behind the prefix of mapped addresses.
abbrev pub mapped_prefix : List ℕ
mapped_prefix = 0 ∷ 0 ∷ 0 ∷ 0 ∷ 0 ∷ 0 ∷ 0 ∷ 0 ∷ 0 ∷ 0 ∷ 255 ∷ 255 ∷ []

unfoldable pub to_4 : List ℕ → List ℕ
to_4 ip = if (length ip == 16) && same_bytes (take 12 ip) mapped_prefix then drop 12 ip else ip

abbrev pub mask_for : List ℕ → List ℕ → List ℕ
mask_for ip mask = if (length mask == 16) && (length ip == 4) then drop 12 mask else mask

abbrev pub same_masked : List ℕ → List ℕ → List ℕ → Bool
same_masked [] [] m = true
same_masked (a ∷ s) (b ∷ t) (c ∷ m) = (bit_and a c == bit_and b c) && same_masked s t m
same_masked _ _ _ = false

-- `IPNet.Contains` of the standard library.
unfoldable pub contains : IpNet → List ℕ → Bool
contains net ip = same_masked (to_4 net.ip) (to_4 ip) (mask_for (to_4 net.ip) net.mask)

pub record Rule : Type 0 where
  pub ip_net : Option IpNet
  pub ports : List ℕ
  pub allow : Bool

pub data AccessError : Type 0 where
  no_prefix unable_to_parse no_ipnet invalid_port : AccessError

-- `sort.Search` of the standard library, for `ports[h] >= x` between `i` and `j`.
unfoldable pub search_between : ℕ → List ℕ → ℕ → ℕ → ℕ → ℕ
search_between zero ports x i j = i
search_between (suc rounds) ports x i j = elim (ltb i j) [
  | false ↦ i
  | true ↦ elim (leb x (get_or ports ((i + j) / 2) 0)) [
    | false ↦ search_between rounds ports x ((i + j) / 2 + 1) j
    | true ↦ search_between rounds ports x i ((i + j) / 2)
  ]
]

-- Each round leaves a shorter range, so there are at most as many as there are ports.
unfoldable pub search_ints : List ℕ → ℕ → ℕ
search_ints ports x = search_between (length ports) ports x 0 (length ports)

abbrev pub valid_ports : List ℕ → Bool
valid_ports [] = true
valid_ports (p ∷ rest) = not (ltb p 1 || ltb 65535 p) && valid_ports rest

-- `Validate` sorts the ports in place.
unfoldable pub validate_rule : Rule → Rule × Option AccessError
validate_rule r = elim r.ip_net [
  | none ↦ (r, some no_ipnet)
  | some net ↦ (
    record r { ports = sort_by (λ p. p) r.ports },
    if valid_ports (sort_by (λ p. p) r.ports) then none else some invalid_port,
  )
]

unfoldable pub new_rule : Option IpNet → List ℕ → Bool → Rule × Option AccessError
new_rule net ports allow = validate_rule (record { ip_net = net; ports = ports; allow = allow })

abbrev pub zero_rule : Rule
zero_rule = record { ip_net = none; ports = []; allow = false }

abbrev rule_of : Option IpNet → List ℕ → Bool → Rule × Option AccessError
rule_of none ports allow = (zero_rule, some unable_to_parse)
rule_of (some net) ports allow = new_rule (some net) ports allow

-- `parse_cidr` is `net.ParseCIDR` of the standard library.
unfoldable pub new_rule_by_cidr :
    (parse_cidr : Text → Option IpNet) → Option Text → List ℕ → Bool → Rule × Option AccessError
new_rule_by_cidr parse_cidr none ports allow = (zero_rule, some no_prefix)
new_rule_by_cidr parse_cidr (some []) ports allow = (zero_rule, some no_prefix)
new_rule_by_cidr parse_cidr (some (c ∷ text)) ports allow =
    rule_of (parse_cidr (c ∷ text)) ports allow

pub record Policy : Type 0 where
  pub default_allow : Bool
  pub rules : List Rule

-- The ports of each rule that is looked at are sorted, since the copy shares them.
unfoldable pub validate_all : List Rule → List Rule × Option AccessError
validate_all [] = ([], none)
validate_all (r ∷ rest) =
    let more = validate_all rest in
    elim (validate_rule r).1 [
      | some e ↦ ((validate_rule r).0 ∷ rest, some e)
      | none ↦ ((validate_rule r).0 ∷ more.0, more.1)
    ]

unfoldable pub new_policy : Bool → List Rule → Option Policy
new_policy default rules = elim (validate_all rules).1 [
  | some e ↦ none
  | none ↦ some (record { default_allow = default; rules = (validate_all rules).0 })
]

-- Whether the rule decides, as the loop body of `Allowed` finds out; without a network the source
-- panics, which no rule of a policy does.
unfoldable pub decides : Rule → List ℕ → ℕ → Bool
decides r ip port = elim r.ip_net [
  | none ↦ false
  | some net ↦
      contains net ip
      && ((length r.ports == 0)
          || (ltb (search_ints r.ports port) (length r.ports)
              && (get_or r.ports (search_ints r.ports port) 0 == port)))
]

abbrev pub first_decision : List Rule → List ℕ → ℕ → Bool → Bool × Option Rule
first_decision [] ip port default = (default, none)
first_decision (r ∷ rest) ip port default =
    if decides r ip port then (r.allow, some r) else first_decision rest ip port default

unfoldable pub allowed : Policy → List ℕ → ℕ → Bool × Option Rule
allowed policy ip port = first_decision policy.rules ip port policy.default_allow
