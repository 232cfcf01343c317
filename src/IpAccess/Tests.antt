-- ===== src/IpAccess/Tests.antt =====
-- A run of the theorem on policies.
use shitflared.Prelude.{ℕ, ◌≡◌, refl, true, false, List, [], ◌∷◌, some}
use shitflared.Prelude.Sort.{sort_by, insert_by}
use shitflared.IpAccess.{
  IpNet, Rule, Policy, validate_rule, validate_all, new_policy, allowed, contains, to_4,
}
use shitflared.IpAccess.Verdict.{verdict, first_that_applies, allowed-new_policy}

abbrev local_net : IpNet
local_net = record { ip = 10 ∷ 0 ∷ 0 ∷ 0 ∷ []; mask = 255 ∷ 0 ∷ 0 ∷ 0 ∷ [] }

abbrev no_ssh : Rule
no_ssh = record { ip_net = some local_net; ports = 2222 ∷ 22 ∷ []; allow = false }

abbrev sorted : Rule
sorted = record no_ssh { ports = 22 ∷ 2222 ∷ [] }

abbrev deny_ssh : Policy
deny_ssh = record { default_allow = true; rules = sorted ∷ [] }

abbrev host : List ℕ
host = 10 ∷ 1 ∷ 2 ∷ 3 ∷ []

in_local_net : contains local_net host ≡ true
unfolding contains to_4
in_local_net = refl

new_policy-deny_ssh : new_policy true (no_ssh ∷ []) ≡ some deny_ssh
unfolding new_policy validate_all validate_rule sort_by insert_by
new_policy-deny_ssh = refl

allowed-new_policy_example :
    (allowed deny_ssh host 22).0 ≡ verdict (first_that_applies (no_ssh ∷ []) host 22) true
allowed-new_policy_example =
    allowed-new_policy true (no_ssh ∷ []) deny_ssh host 22 new_policy-deny_ssh
