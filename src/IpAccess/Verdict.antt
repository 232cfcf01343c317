-- ===== src/IpAccess/Verdict.antt =====
-- ipaccess/access.go: what a policy that was made by `NewPolicy` allows.
use shitflared.Prelude.{
  ℕ, ◌≡◌, refl, sym, ◌∙◌, ap, Bool, true, false, ◌&&◌, ◌||◌, List, [], ◌∷◌, Option, none, some,
  arith, length, ltb, ◌==◌, if◌then◌else◌, Option-cases, inl, inr,
}
use mathlib.Core.Option.{some-injective, none-ne-some}
use shitflared.Prelude.Sort.{sort_by, sort_by-SortedFrom, count, count-sort_by}
use shitflared.IpAccess.{
  IpNet, Rule, Policy, AccessError, contains, validate_rule, validate_all, new_policy, decides,
  first_decision, allowed,
}
use shitflared.IpAccess.Search.{value, is_member, search_ints-is_member}

-- What a rule says, with no search: its network has the address, and it names no ports or this one.
abbrev pub applies : Rule → List ℕ → ℕ → Bool
applies r ip port = elim r.ip_net [
  | none ↦ false
  | some net ↦ contains net ip && ((length r.ports == 0) || is_member port r.ports)
]

-- The first rule of the list, as it was given, that applies.
abbrev pub first_that_applies : List Rule → List ℕ → ℕ → Option Rule
first_that_applies [] ip port = none
first_that_applies (r ∷ rest) ip port =
    if applies r ip port then some r else first_that_applies rest ip port

abbrev pub verdict : Option Rule → Bool → Bool
verdict none default = default
verdict (some r) default = r.allow

is_member-count :
    (x : ℕ) (ports : List ℕ) → is_member x ports ≡ ltb 0 (count value (λ p. p == x) ports)
unfolding count
is_member-count x [] = ground arith
is_member-count x (p ∷ rest) = ground (arith, is_member-count x rest)

is_member-sort_by :
    (x : ℕ) (ports : List ℕ) → is_member x (sort_by (λ p. p) ports) ≡ is_member x ports
is_member-sort_by x ports =
    is_member-count x (sort_by value ports)
    ∙ (ap (ltb 0) (count-sort_by value (λ p. p == x) ports) ∙ sym (is_member-count x ports))

-- The number of ports is a count too.
length-count : (ports : List ℕ) → length ports ≡ count value (λ p. true) ports
unfolding count
length-count [] = refl
length-count (p ∷ rest) = ground (arith, length-count rest)

length-sort_by : (ports : List ℕ) → length (sort_by (λ p. p) ports) ≡ length ports
length-sort_by ports =
    length-count (sort_by value ports)
    ∙ (count-sort_by value (λ p. true) ports ∙ sym (length-count ports))

decides_fields :
    (net : Option IpNet) (ports : List ℕ) (allow : Bool) (ip : List ℕ) (port : ℕ)
    → decides (validate_rule (record { ip_net = net; ports = ports; allow = allow })).0 ip port
      ≡ applies (record { ip_net = net; ports = ports; allow = allow }) ip port
unfolding decides validate_rule
decides_fields none ports allow ip port = refl
decides_fields (some net) ports allow ip port =
    ap (λ b. contains net ip && b)
      (ap (λ b. (length (sort_by (λ p. p) ports) == 0) || b)
          (search_ints-is_member (sort_by value ports) port (sort_by-SortedFrom value ports)
            ∙ is_member-sort_by port ports)
        ∙ ap (λ n. (n == 0) || is_member port ports) (length-sort_by ports))

-- A rule that was validated decides where the rule as given applies.
decides-validate_rule :
    (r : Rule) (ip : List ℕ) (port : ℕ) → decides (validate_rule r).0 ip port ≡ applies r ip port
decides-validate_rule r ip port = decides_fields r.ip_net r.ports r.allow ip port

allow_fields :
    (net : Option IpNet) (ports : List ℕ) (allow : Bool)
    → (validate_rule (record { ip_net = net; ports = ports; allow = allow })).0.allow ≡ allow
unfolding validate_rule
allow_fields none ports allow = refl
allow_fields (some net) ports allow = refl

head_fine :
    (r : Rule) (rest : List Rule)
    → (validate_rule r).1 ≡ none
    → validate_all (r ∷ rest) ≡ ((validate_rule r).0 ∷ (validate_all rest).0, (validate_all rest).1)
unfolding validate_all
head_fine r rest fine = rw (fine, validate_all) refl

head_bad :
    (r : Rule) (rest : List Rule) (e : AccessError)
    → (validate_rule r).1 ≡ some e
    → (validate_all (r ∷ rest)).1 ≡ some e
unfolding validate_all
head_bad r rest e bad = rw (bad, validate_all) refl

first_decision-cons :
    (r : Rule) (list rest : List Rule) (ip : List ℕ) (port : ℕ) (default : Bool)
    → (first_decision list ip port default).0 ≡ verdict (first_that_applies rest ip port) default
    → (first_decision ((validate_rule r).0 ∷ list) ip port default).0
      ≡ verdict (first_that_applies (r ∷ rest) ip port) default
first_decision-cons r list rest ip port default h =
    ap (λ b. chosen b) (decides-validate_rule r ip port) ∙ cases (applies r ip port)
  where
    chosen : Bool → Bool
    chosen b =
        (if b
          then ((validate_rule r).0.allow, some (validate_rule r).0)
          else first_decision list ip port default).0

    cases :
        (b : Bool)
        → chosen b ≡ verdict (if b then some r else first_that_applies rest ip port) default
    cases true = allow_fields r.ip_net r.ports r.allow
    cases false = h

validated :
    (rules : List Rule) (ip : List ℕ) (port : ℕ) (default : Bool)
    → (validate_all rules).1 ≡ none
    → (first_decision (validate_all rules).0 ip port default).0
      ≡ verdict (first_that_applies rules ip port) default
unfolding validate_all
validated [] ip port default h = refl
validated (r ∷ rest) ip port default h = elim (Option-cases (validate_rule r).1) [
  | inr (e, bad) ↦ absurd (none-ne-some e (sym h ∙ head_bad r rest e bad))
  | inl fine ↦
      ap (λ v. (first_decision v.0 ip port default).0) (head_fine r rest fine)
      ∙ first_decision-cons r (validate_all rest).0 rest ip port default
          (validated rest ip port default (ap (λ v. v.1) (sym (head_fine r rest fine)) ∙ h))
]

-- A policy that `NewPolicy` makes allows what the first of its rules that applies to the address and
-- the port says, where a rule without ports applies to all ports; where none does it is the default.
pub allowed-new_policy :
    (default : Bool) (rules : List Rule) (policy : Policy) (ip : List ℕ) (port : ℕ)
    → new_policy default rules ≡ some policy
    → (allowed policy ip port).0 ≡ verdict (first_that_applies rules ip port) default
unfolding new_policy allowed
allowed-new_policy default rules policy ip port h = elim (Option-cases (validate_all rules).1) [
  | inr (e, bad) ↦ absurd (none-ne-some policy (sym (rw (bad, new_policy) refl) ∙ h))
  | inl fine ↦
      ap (λ p. (first_decision p.rules ip port p.default_allow).0) (sym (made fine))
      ∙ validated rules ip port default fine
]
  where
    made :
        (validate_all rules).1 ≡ none
        → record { default_allow = default; rules = (validate_all rules).0 } ≡ policy
    made fine = some-injective _ policy (sym (rw (fine, new_policy) refl) ∙ h)
