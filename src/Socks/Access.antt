-- ===== src/Socks/Access.antt =====
-- socks/request_handler.go with ipaccess/access.go: what a request can reach under a policy.
use shitflared.Prelude.{
  ℕ, ◌≡◌, ◌≤◌, ◌⊎◌, refl, sym, ap, ◌∙◌, arith, Bool, true, false, ◌&&◌, List, [], ◌∷◌, Option, none,
  some, length, take, drop, length-drop, ◌==◌, if◌then◌else◌, inl, inr, All,
}
use mathlib.Core.Option.{some-injective}
use mathlib.Core.Path.{subst}
use shitflared.IpAccess.{
  Policy, Rule, IpNet, allowed, decides, contains, first_decision, to_4, same_bytes, same_masked,
  mask_for, mapped_prefix,
}
use shitflared.Socks.{
  send_reply, AddrSpec, Request, Target, by_ip, by_name, address_from, address, Dialed, connect_to,
  deny, check_access, with_resolved, under_policy, handle_connect, handle,
}

-- The policy lets the target through; a name it knows nothing of.
abbrev pub Permits : Policy → Target → Type 0
Permits policy (by_ip ip port) = (allowed policy ip port).0 ≡ true
Permits policy (by_name name port) = (name ≡ []) × ((allowed policy [] port).0 ≡ true)

check_access-Permits :
    (dial : Target → Dialed) (policy : Policy) (addr : AddrSpec) (t : Target)
    → (addr.ip ≡ [] → addr.fqdn ≡ [])
    → (check_access dial policy addr).dialed ≡ some t
    → Permits policy t
unfolding connect_to deny address
check_access-Permits dial policy addr t named h = by (allowed policy addr.ip addr.port).0 refl h
  where
    target :
        (ip : List ℕ)
        → addr.ip ≡ ip
        → (allowed policy addr.ip addr.port).0 ≡ true
        → Permits policy (address_from ip addr)
    target [] e ok = (named e, ap (λ ip. (allowed policy ip addr.port).0) (sym e) ∙ ok)
    target (b ∷ ip) e ok = ap (λ ip. (allowed policy ip addr.port).0) (sym e) ∙ ok

    by :
        (ok : Bool)
        → (allowed policy addr.ip addr.port).0 ≡ ok
        → (if ok then connect_to dial addr else deny addr).dialed ≡ some t
        → Permits policy t
    by true e h = subst (Permits policy) (some-injective _ t h) (target addr.ip refl e)
    by false e h = absurd (cc h)

-- Under a policy a request dials only an address that the policy allows, at its port; the address is
-- the one that was tested, so that a name cannot resolve to another one later. The resolver gives
-- every name that is not empty some address; with the empty name the policy is asked about no
-- address.
pub handle-Permits :
    (policy : Policy) (resolve : List ℕ → Option (List ℕ)) (dial : Target → Dialed) (req : Request)
    (t : Target)
    → ((name : List ℕ) → resolve name ≡ some [] → name ≡ [])
    → (handle (some policy) resolve dial req).dialed ≡ some t
    → Permits policy t
unfolding handle handle_connect deny
handle-Permits policy resolve dial req t found h = by (req.command == 1) h
  where
    resolved :
        (o : Option (List ℕ))
        → resolve req.dest_addr.fqdn ≡ o
        → (with_resolved dial policy req.dest_addr o).dialed ≡ some t
        → Permits policy t
    resolved none e h = absurd (cc h)
    resolved (some ip) e h =
        check_access-Permits dial policy (record req.dest_addr { ip = ip }) t
          (λ none_found. found req.dest_addr.fqdn (e ∙ ap (λ ip. some ip) none_found)) h

    with_address :
        (ip : List ℕ)
        → req.dest_addr.ip ≡ ip
        → (under_policy resolve dial policy req.dest_addr ip).dialed ≡ some t
        → Permits policy t
    with_address [] e h = resolved (resolve req.dest_addr.fqdn) refl h
    with_address (b ∷ ip) e h =
        check_access-Permits dial policy req.dest_addr t (λ none_there. absurd (cc (e, none_there)))
          h

    by :
        (b : Bool)
        → (if b
            then under_policy resolve dial policy req.dest_addr req.dest_addr.ip
            else record { dialed = none; reply = send_reply 7 none }).dialed
          ≡ some t
        → Permits policy t
    by true h = with_address req.dest_addr.ip refl h
    by false h = absurd (cc h)

-- The rule has a network, of IPv4 or IPv6.
abbrev pub HasNet : Rule → Type 0
HasNet r = (net : IpNet) × ((r.ip_net ≡ some net) × ((length net.ip ≡ 4) ⊎ (length net.ip ≡ 16)))

to_4_filled : (ip : List ℕ) → (length ip ≡ 4) ⊎ (length ip ≡ 16) → 1 ≤ length (to_4 ip)
unfolding to_4
to_4_filled ip h = by ((length ip == 16) && same_bytes (take 12 ip) mapped_prefix) (ground arith)
  where
    by : (b : Bool) → (b ≡ true → length ip ≡ 16) → 1 ≤ length (if b then drop 12 ip else ip)
    by true long = omega (arith, long refl, length-drop 12 ip)
    by false long = elim h [ inl e ↦ omega (arith, e) | inr e ↦ omega (arith, e) ]

contains_nothing :
    (net : IpNet) → (length net.ip ≡ 4) ⊎ (length net.ip ≡ 16) → contains net [] ≡ false
unfolding contains to_4
contains_nothing net h = by (to_4 net.ip) (to_4_filled net.ip h) (mask_for (to_4 net.ip) net.mask)
  where
    by : (s : List ℕ) → 1 ≤ length s → (m : List ℕ) → same_masked s [] m ≡ false
    by [] filled m = absurd (omega (arith, filled))
    by (a ∷ s) filled m = refl

first_decision_of_nothing :
    (rules : List Rule) (port : ℕ) (default : Bool)
    → All HasNet rules
    → (first_decision rules [] port default).0 ≡ default
unfolding decides
first_decision_of_nothing [] port default h = refl
first_decision_of_nothing (r ∷ rest) port default ((net, (e, wide)), h) =
    rw (e, contains_nothing net wide, decides) (first_decision_of_nothing rest port default h)

-- Under a policy that allows by default, a request for the empty name is dialed whatever the rules are,
-- by the empty name, which for the dialer is the local system; the resolver gives the empty name no
-- address and no error.
pub empty_name_passes :
    (policy : Policy) (resolve : List ℕ → Option (List ℕ)) (dial : Target → Dialed) (port : ℕ)
    → policy.default_allow ≡ true
    → All HasNet policy.rules
    → resolve [] ≡ some []
    → (handle (some policy) resolve dial (record {
      version = 5;
      command = 1;
      dest_addr = record { fqdn = []; ip = []; port = port };
    })).dialed
      ≡ some (by_name [] port)
unfolding handle handle_connect allowed connect_to address
empty_name_passes policy resolve dial port open_default nets nothing =
    let addr : AddrSpec = record { fqdn = []; ip = []; port = port } in
    let passes : (allowed policy [] port).0 ≡ true =
      first_decision_of_nothing policy.rules port policy.default_allow nets ∙ open_default in
    ap (λ o. (with_resolved dial policy addr o).dialed) nothing
    ∙ ap (λ b. (if b then connect_to dial addr else deny addr).dialed) passes
