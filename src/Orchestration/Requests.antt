-- ===== src/Orchestration/Requests.antt =====
-- orchestration/orchestrator.go with ingress/ingress.go and flow/limiter.go: what holds after every
-- history of updates.
use mathlib.Core.Path.{subst}
use shitflared.Prelude.{
  ℕ, ◌≤◌, ◌≡◌, ◌⊎◌, refl, ap, ◌∙◌, Bool, true, false, List, [], ◌∷◌, Option, none, some, arith, leb,
  length, All, if◌then◌else◌, Bool-cases, inl, inr,
}
use shitflared.Prelude.Text.{Text}
use shitflared.Flow.{set_limit}
use shitflared.Ingress.Origin.{OriginConfig}
use shitflared.Ingress.Rules.{
  Rule, Ingress, pos, negsuc, Libraries, UnvalidatedRule, right, find_matching_rule,
}
use shitflared.Ingress.HostPort.{without_port}
use shitflared.Ingress.Rules.Find.{FirstMatch, NoMatch, EndsCatchingAll, find_matching_rule_first}
use shitflared.Ingress.Validate.{validate_ingress}
use shitflared.Ingress.Validate.Shape.{validate_ingress-AllOk, AllOk-EndsCatchingAll}
use shitflared.Orchestration.{
  Orchestrator, WarpRouting, new_dialer, UpdateError, already_shut_down, or_default, replace_proxy,
  abandon_origins, start_origins, override_max_active_flows, update_ingress, applied,
  decoded_update, update_config, new_orchestrator, empty_orchestrator, shutdown,
}

-- The rules of an update passed validation, or there are none.
abbrev pub IsParsed : Libraries → Ingress → Type 0
IsParsed lib rules =
    (raw : List UnvalidatedRule) × ((defaults : OriginConfig) × (validate_ingress lib raw defaults
        ≡ right rules))

pub data Call : Type 0 where
  updates : (version : ℕ) → Option (Ingress × WarpRouting) → (starts : Bool) → Call
  shuts_down : Call

abbrev pub ParsedCall : Libraries → Call → Type 0
ParsedCall lib (updates version none starts) = Unit
ParsedCall lib (updates version (some (rules, w)) starts) = IsParsed lib rules
ParsedCall lib shuts_down = Unit

unfoldable pub call : Orchestrator → Call → Orchestrator
call o (updates version config starts) = (update_config o version config starts).0
call o shuts_down = shutdown o

-- What an orchestrator promises: its proxy runs the rules of its configuration, these let every request
-- through behind the internal ones it was made with, and the limiter and the dialer are those of the
-- configuration.
pub record Serves (internal : List Rule) (o : Orchestrator) : Type 0 where
  pub proxy : o.proxy ≡ some o.ingress
  pub all : EndsCatchingAll o.ingress.rules
  pub limit : o.limiter.max_active_flows ≡ o.warp_routing.max_active_flows
  pub dialer : o.default_dialer ≡ new_dialer o.warp_routing
  pub internal_rules : o.ingress.internal_rules ≡ o.internal_rules
  pub given : o.internal_rules ≡ internal

or_default-EndsCatchingAll :
    (lib : Libraries) (rules : Ingress)
    → IsParsed lib rules
    → EndsCatchingAll (or_default rules.rules)
or_default-EndsCatchingAll lib rules p =
    either rules.rules
      (AllOk-EndsCatchingAll rules.rules (validate_ingress-AllOk lib p.0 p.1.0 rules p.1.1).0)
  where
    either :
        (rs : List Rule) → (1 ≤ length rs → EndsCatchingAll rs) → EndsCatchingAll (or_default rs)
    either [] h = refl
    either (r ∷ rest) h = h (omega arith)

start_origins-Serves :
    {internal : List Rule} (lib : Libraries) (o : Orchestrator) (rules : Ingress) (starts : Bool)
    (w : Option WarpRouting)
    → IsParsed lib rules
    → o.internal_rules ≡ internal
    → ((start_origins o rules starts w).1 ≡ none) ⊎ Serves internal o
    → Serves internal (start_origins o rules starts w).0
unfolding abandon_origins replace_proxy set_limit
start_origins-Serves lib o rules starts none p g s = elim s [ inl h ↦ absurd cc | inr v ↦ v ]
start_origins-Serves lib o rules true (some w) p g s = record {
  proxy = refl;
  all = or_default-EndsCatchingAll lib rules p;
  limit = refl;
  dialer = refl;
  internal_rules = refl;
  given = g;
}
start_origins-Serves lib o rules false (some w) p g s = elim s [
  | inl h ↦ absurd cc
  | inr v ↦ record {
    proxy = v.proxy;
    all = v.all;
    limit = v.limit;
    dialer = v.dialer;
    internal_rules = v.internal_rules;
    given = v.given;
  }
]

update_ingress-Serves :
    {internal : List Rule} (lib : Libraries) (o : Orchestrator) (rules : Ingress) (w : WarpRouting)
    (starts : Bool)
    → IsParsed lib rules
    → o.internal_rules ≡ internal
    → ((update_ingress o rules w starts).1 ≡ none) ⊎ Serves internal o
    → Serves internal (update_ingress o rules w starts).0
unfolding update_ingress
update_ingress-Serves {internal = internal} lib o rules w starts p g s = chosen o.shut_down s
  where
    result : Bool → Orchestrator × Option UpdateError
    result b =
        if b
        then (o, some already_shut_down)
        else start_origins o rules starts (override_max_active_flows o.max_active_flows_flag w)

    chosen : (b : Bool) → ((result b).1 ≡ none) ⊎ Serves internal o → Serves internal (result b).0
    chosen true s = elim s [ inl h ↦ absurd cc | inr v ↦ v ]
    chosen false s =
        start_origins-Serves lib o rules starts
          (override_max_active_flows o.max_active_flows_flag w) p g s

applied-Serves :
    {internal : List Rule} (version : ℕ) (result : Orchestrator × Option UpdateError)
    → Serves internal result.0
    → Serves internal (applied version result).0
applied-Serves version (o, none) v = record {
  proxy = v.proxy;
  all = v.all;
  limit = v.limit;
  dialer = v.dialer;
  internal_rules = v.internal_rules;
  given = v.given;
}
applied-Serves version (o, some e) v = v

decoded_update-Serves :
    {internal : List Rule} (lib : Libraries) (o : Orchestrator) (version : ℕ)
    (config : Option (Ingress × WarpRouting)) (starts : Bool)
    → ParsedCall lib (updates version config starts)
    → Serves internal o
    → Serves internal (decoded_update o version config starts).0
decoded_update-Serves lib o version none starts p v = v
decoded_update-Serves lib o version (some (rules, w)) starts p v =
    applied-Serves version (update_ingress o rules w starts)
      (update_ingress-Serves lib o rules w starts p v.given (inr v))

call-Serves :
    {internal : List Rule} (lib : Libraries) (o : Orchestrator) (c : Call)
    → ParsedCall lib c
    → Serves internal o
    → Serves internal (call o c)
unfolding call update_config shutdown
call-Serves lib o (updates version config starts) p v =
    elim (Bool-cases (leb version o.current_version)) [
      | inl old ↦ rw (old, call, update_config) v
      | inr newer ↦
          rw (newer, call, update_config) (decoded_update-Serves lib o version config starts p v)
    ]
call-Serves lib o shuts_down p v = record {
  proxy = v.proxy;
  all = v.all;
  limit = v.limit;
  dialer = v.dialer;
  internal_rules = v.internal_rules;
  given = v.given;
}

unfoldable pub calls : Orchestrator → List Call → Orchestrator
calls o [] = o
calls o (c ∷ rest) = calls (call o c) rest

calls-Serves :
    {internal : List Rule} (lib : Libraries) (o : Orchestrator) (cs : List Call)
    → All (ParsedCall lib) cs
    → Serves internal o
    → Serves internal (calls o cs)
unfolding calls
calls-Serves lib o [] p v = v
calls-Serves lib o (c ∷ cs) p v = calls-Serves lib (call o c) cs p.1 (call-Serves lib o c p.0 v)

-- An orchestrator that was made, and then got any updates, of which some fail, with rules that passed
-- validation or with none at all, has a proxy with the rules of its configuration behind the internal
-- rules it was made with; the last of them catches all, and the limiter's limit and the dialer are
-- those of the configuration.
pub calls-new_orchestrator-Serves :
    (lib : Libraries) (rules : Ingress) (w : WarpRouting) (flag : Text) (internal : List Rule)
    (starts : Bool) (o : Orchestrator) (cs : List Call)
    → IsParsed lib rules
    → new_orchestrator rules w flag internal starts ≡ (o, none)
    → All (ParsedCall lib) cs
    → Serves internal (calls o cs)
unfolding new_orchestrator
calls-new_orchestrator-Serves lib rules w flag internal starts o cs p h q =
    calls-Serves lib o cs q (
      subst (Serves internal) (ap (λ r. r.0) h) (
        update_ingress-Serves lib (empty_orchestrator rules w flag internal) rules w starts p refl
          (inl (ap (λ r. r.1) h))))

-- The rule that the proxy finds: the first internal one that matches the hostname without its port,
-- under a negative index, or, where none does, the first of the other rules.
abbrev pub Found : Ingress → List Rule → Text → Text → Type 0
Found ing internal hostname path =
    ((r : Rule) × ((i : ℕ) × ((find_matching_rule ing hostname path ≡ some (r, negsuc i))
          × FirstMatch internal (without_port hostname) path r i)))
    ⊎ (NoMatch internal (without_port hostname) path
        × ((r : Rule) × ((i : ℕ) × ((find_matching_rule ing hostname path ≡ some (r, pos i))
                × FirstMatch ing.rules (without_port hostname) path r i))))

-- After any updates, of which some fail, and shutdowns of an orchestrator that was made, all with
-- rules that passed validation or with none, the proxy finds a rule for every request: the first of
-- the internal rules the orchestrator was made with that matches the hostname without its port, under
-- a negative index, or, where none of these does, the first of the proxy's other rules that matches.
pub every_request_finds_a_rule :
    (lib : Libraries) (rules : Ingress) (w : WarpRouting) (flag : Text) (internal : List Rule)
    (starts : Bool) (o : Orchestrator) (cs : List Call) (hostname path : Text)
    → IsParsed lib rules
    → new_orchestrator rules w flag internal starts ≡ (o, none)
    → All (ParsedCall lib) cs
    → (ing : Ingress) × (((calls o cs).proxy ≡ some ing) × Found ing internal hostname path)
every_request_finds_a_rule lib rules w flag internal starts o cs hostname path p h q =
    let v = calls-new_orchestrator-Serves lib rules w flag internal starts o cs p h q in
    let now = (calls o cs).ingress in
    (
      now,
      (
        v.proxy,
        subst (λ rs. Found now rs hostname path) (v.internal_rules ∙ v.given)
            (find_matching_rule_first now hostname path v.all),
      ),
    )
