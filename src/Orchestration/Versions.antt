-- ===== src/Orchestration/Versions.antt =====
-- orchestration/orchestrator.go: an update takes effect whole, with a higher version, or not at all.
use shitflared.Prelude.{
  ℕ, ◌<◌, ◌≤◌, ◌≡◌, refl, sym, Bool, true, false, List, [], ◌∷◌, Option, none, some, arith, leb,
  if◌then◌else◌, ◌==◌, Bool-cases, inl, inr,
}
use mathlib.Core.Option.{some-injective, none-ne-some}
use shitflared.Prelude.Text.{Text}
use shitflared.Flow.{set_limit}
use shitflared.Ingress.Rules.{Rule, Ingress}
use shitflared.Orchestration.{
  Orchestrator, WarpRouting, UpdateError, UpdateResponse, bad_flag, origin_failed, undecodable,
  already_shut_down, replace_proxy, abandon_origins, start_origins, override_max_active_flows,
  parse_uint, default_rule, or_default, with_limit, update_ingress, update_config, applied,
  decoded_update,
}

-- The flag's limit stands in for the update's, where the flag is set.
abbrev pub Overrides : Text → WarpRouting → WarpRouting → Type 0
Overrides [] w v = v ≡ w
Overrides (c ∷ s) w v =
    (n : ℕ) × ((parse_uint (c ∷ s) ≡ some n) × (v ≡ record w { max_active_flows = n }))

-- The flag is set and is no number.
abbrev pub IsBad : Text → Type 0
IsBad [] = ⊥
IsBad (c ∷ s) = parse_uint (c ∷ s) ≡ none

-- The update's own rules, or the default one where it has none.
abbrev pub OwnRules : List Rule → List Rule → Type 0
OwnRules [] installed = installed ≡ default_rule ∷ []
OwnRules (r ∷ rest) installed = installed ≡ r ∷ rest

-- The configuration of `p` is the update's.
pub record Installed (o : Orchestrator) (rules : Ingress) (v : WarpRouting) (p : Orchestrator)
    : Type 0 where
  pub proxy : p.proxy ≡ some p.ingress
  pub own_rules : OwnRules rules.rules p.ingress.rules
  pub internal_rules : p.ingress.internal_rules ≡ o.internal_rules
  pub defaults : p.ingress.defaults ≡ rules.defaults
  pub routing : p.warp_routing ≡ v
  pub limit : p.limiter.max_active_flows ≡ v.max_active_flows
  pub unlimited : p.limiter.unlimited ≡ (v.max_active_flows == 0)
  pub active : p.limiter.active_flows ≡ o.limiter.active_flows
  pub timeout : p.default_dialer.timeout ≡ v.connect_timeout
  pub keep_alive : p.default_dialer.keep_alive ≡ v.tcp_keep_alive

-- The configuration that is in force stays.
pub record SameConfig (o p : Orchestrator) : Type 0 where
  pub version : p.current_version ≡ o.current_version
  pub ingress : p.ingress ≡ o.ingress
  pub proxy : p.proxy ≡ o.proxy
  pub warp_routing : p.warp_routing ≡ o.warp_routing
  pub limiter : p.limiter ≡ o.limiter
  pub default_dialer : p.default_dialer ≡ o.default_dialer

abbrev SameConfig-refl : (o : Orchestrator) → SameConfig o o
SameConfig-refl o = record {
  version = refl;
  ingress = refl;
  proxy = refl;
  warp_routing = refl;
  limiter = refl;
  default_dialer = refl;
}

-- The answer names the version in force, and the error if there is one.
abbrev pub Refused : Orchestrator → Option UpdateError → Orchestrator × UpdateResponse → Type 0
Refused o e r =
    SameConfig o r.0 × (r.1 ≡ record { last_applied_version = o.current_version; error = e })

abbrev pub TakesEffect :
    Orchestrator → ℕ → Ingress → WarpRouting → Orchestrator × UpdateResponse → Type 0
TakesEffect o version rules v r =
    Installed o rules v r.0
    × ((r.0.current_version ≡ version)
        × (r.1 ≡ record { last_applied_version = version; error = none }))

-- What becomes of an update, by its version, its configuration and whether the origins start.
pub data Outcome (o : Orchestrator) (version : ℕ)
    : Option (Ingress × WarpRouting) → Bool → Orchestrator × UpdateResponse → Type 0 where
  is_old :
      {config : Option (Ingress × WarpRouting)} {starts : Bool} {r : Orchestrator × UpdateResponse}
      → version ≤ o.current_version
      → Refused o none r
      → Outcome o version config starts r
  is_undecodable :
      {starts : Bool} {r : Orchestrator × UpdateResponse}
      → o.current_version < version
      → Refused o (some undecodable) r
      → Outcome o version none starts r
  is_late :
      {rules : Ingress} {w : WarpRouting} {starts : Bool} {r : Orchestrator × UpdateResponse}
      → o.current_version < version
      → o.shut_down ≡ true
      → Refused o (some already_shut_down) r
      → Outcome o version (some (rules, w)) starts r
  has_bad_flag :
      {rules : Ingress} {w : WarpRouting} {starts : Bool} {r : Orchestrator × UpdateResponse}
      → o.current_version < version
      → o.shut_down ≡ false
      → IsBad o.max_active_flows_flag
      → Refused o (some bad_flag) r
      → Outcome o version (some (rules, w)) starts r
  has_failed :
      {rules : Ingress} {w : WarpRouting} {r : Orchestrator × UpdateResponse} (v : WarpRouting)
      → o.current_version < version
      → o.shut_down ≡ false
      → Overrides o.max_active_flows_flag w v
      → Refused o (some origin_failed) r
      → Outcome o version (some (rules, w)) false r
  takes_effect :
      {rules : Ingress} {w : WarpRouting} {r : Orchestrator × UpdateResponse} (v : WarpRouting)
      → o.current_version < version
      → o.shut_down ≡ false
      → Overrides o.max_active_flows_flag w v
      → TakesEffect o version rules v r
      → Outcome o version (some (rules, w)) true r

override-IsBad :
    (flag : Text) (w : WarpRouting) → override_max_active_flows flag w ≡ none → IsBad flag
unfolding override_max_active_flows
override-IsBad [] w h = absurd cc
override-IsBad (c ∷ s) w h = parsed (parse_uint (c ∷ s)) h
  where
    parsed : (o : Option ℕ) → with_limit w o ≡ none → o ≡ none
    parsed none h = refl
    parsed (some n) h = absurd cc

override-Overrides :
    (flag : Text) (w v : WarpRouting)
    → override_max_active_flows flag w ≡ some v
    → Overrides flag w v
unfolding override_max_active_flows
override-Overrides [] w v h = sym (some-injective w v h)
override-Overrides (c ∷ s) w v h = parsed (parse_uint (c ∷ s)) h
  where
    parsed :
        (o : Option ℕ)
        → with_limit w o ≡ some v
        → (n : ℕ) × ((o ≡ some n) × (v ≡ record w { max_active_flows = n }))
    parsed none h = absurd (none-ne-some v h)
    parsed (some n) h = (n, (refl, sym (some-injective (record w { max_active_flows = n }) v h)))

or_default-OwnRules : (rules : List Rule) → OwnRules rules (or_default rules)
or_default-OwnRules [] = refl
or_default-OwnRules (r ∷ rest) = refl

module _ (o : Orchestrator) (version : ℕ) (newer : o.current_version < version) where
  start_origins-Outcome :
      (rules : Ingress) (w : WarpRouting) (starts : Bool) (chosen : Option WarpRouting)
      → o.shut_down ≡ false
      → override_max_active_flows o.max_active_flows_flag w ≡ chosen
      → Outcome o version
          (some (rules, w))
          starts
          (applied version (start_origins o rules starts chosen))
  unfolding replace_proxy abandon_origins set_limit
  start_origins-Outcome rules w starts none alive flag =
      has_bad_flag newer alive (override-IsBad o.max_active_flows_flag w flag)
        (SameConfig-refl o, refl)
  start_origins-Outcome rules w false (some v) alive flag =
      has_failed v newer alive (override-Overrides o.max_active_flows_flag w v flag) (
        record {
          version = refl;
          ingress = refl;
          proxy = refl;
          warp_routing = refl;
          limiter = refl;
          default_dialer = refl;
        },
        refl,
      )
  start_origins-Outcome rules w true (some v) alive flag =
      takes_effect v newer alive (override-Overrides o.max_active_flows_flag w v flag) (
        record {
          proxy = refl;
          own_rules = or_default-OwnRules rules.rules;
          internal_rules = refl;
          defaults = refl;
          routing = refl;
          limit = refl;
          unlimited = refl;
          active = refl;
          timeout = refl;
          keep_alive = refl;
        },
        (refl, refl),
      )

  update_ingress-Outcome :
      (rules : Ingress) (w : WarpRouting) (starts : Bool)
      → Outcome o version
          (some (rules, w))
          starts
          (applied version (update_ingress o rules w starts))
  unfolding update_ingress
  update_ingress-Outcome rules w starts = chosen o.shut_down refl
    where
      chosen :
          (b : Bool)
          → o.shut_down ≡ b
          → Outcome o version (some (rules, w)) starts (
              applied version (
                if b
                then (o, some already_shut_down)
                else start_origins o rules starts
                    (override_max_active_flows o.max_active_flows_flag w)))
      chosen true late = is_late newer late (SameConfig-refl o, refl)
      chosen false alive =
          start_origins-Outcome rules w starts (override_max_active_flows o.max_active_flows_flag w)
            alive refl

  decoded_update-Outcome :
      (config : Option (Ingress × WarpRouting)) (starts : Bool)
      → Outcome o version config starts (decoded_update o version config starts)
  decoded_update-Outcome none starts = is_undecodable newer (SameConfig-refl o, refl)
  decoded_update-Outcome (some (rules, w)) starts = update_ingress-Outcome rules w starts

-- An update whose version is not higher than the one in force, that cannot be decoded, that comes
-- after the shutdown, whose limit the flag cannot override, or with which an origin does not start,
-- keeps the version, the rules, the proxy, the routing, the limiter and the dialer, and the answer
-- has that version and the error, which an old version does not have. Any other update is in force:
-- its version, its own rules (the default rule where it has none) behind the internal ones, and its
-- routing, with the flag's limit where the flag is set; the limiter has that limit, and the dialer
-- the times of the routing.
pub update_config-Outcome :
    (o : Orchestrator) (version : ℕ) (config : Option (Ingress × WarpRouting)) (starts : Bool)
    → Outcome o version config starts (update_config o version config starts)
unfolding update_config
update_config-Outcome o version config starts = elim (Bool-cases (leb version o.current_version)) [
  | inl old ↦ rw (old, update_config) (is_old (ground (arith, old)) (SameConfig-refl o, refl))
  | inr newer ↦
      rw (newer, update_config)
        (decoded_update-Outcome o version (ground (arith, newer)) config starts)
]
