-- ===== src/Orchestration/Tests.antt =====
-- Runs of the theorems on updates.
use shitflared.Prelude.{◌+◌, ◌≡◌, refl, arith, true, false, List, [], ◌∷◌, none, some, length}
use mathlib.Core.Option.{some-injective}
use shitflared.Prelude.Text.{codes}
use shitflared.Flow.{new_limiter, set_limit}
use shitflared.Ingress.Origin.{default_config}
use shitflared.Ingress.Rules.{Ingress, Libraries}
use shitflared.Ingress.Validate.{validate_ingress, validate_from}
use shitflared.Orchestration.{
  Orchestrator, WarpRouting, default_rule, parse_uint, override_max_active_flows, replace_proxy,
  update_ingress, update_config, new_orchestrator, shutdown,
}
use shitflared.Orchestration.Requests.{
  IsParsed, Call, updates, shuts_down, calls, Serves, calls-new_orchestrator-Serves,
  every_request_finds_a_rule, Found,
}
use shitflared.Orchestration.Versions.{Outcome, update_config-Outcome}
use shitflared.Orchestration.Channels.{failed_updates, failed_updates_leak}

-- Libraries that know nothing.
abbrev no_libraries : Libraries
no_libraries = record {
  parse_url = λ text. none;
  compile = λ text. none;
  parse_cidr = λ text. none;
  to_ascii = λ text. none;
}

abbrev no_rules : Ingress
no_rules = record { internal_rules = []; rules = []; defaults = default_config }

abbrev routing : WarpRouting
routing = record { connect_timeout = 5; max_active_flows = 10; tcp_keep_alive = 30 }

no_rules-IsParsed : IsParsed no_libraries no_rules
unfolding validate_ingress validate_from
no_rules-IsParsed = ([], (default_config, refl))

abbrev begun : Orchestrator
begun = record {
  current_version = 0;
  internal_rules = [];
  max_active_flows_flag = codes "7";
  ingress = record no_rules { rules = default_rule ∷ [] };
  proxy = some (record no_rules { rules = default_rule ∷ [] });
  warp_routing = record routing { max_active_flows = 7 };
  limiter = record { active_flows = 0; max_active_flows = 7; unlimited = false };
  default_dialer = record { timeout = 5; keep_alive = 30 };
  shut_down = false;
  next_channel = 1;
  opened = 0 ∷ [];
  current = some 0;
}

new_orchestrator-begun : new_orchestrator no_rules routing (codes "7") [] true ≡ (begun, none)
unfolding new_orchestrator update_ingress override_max_active_flows parse_uint replace_proxy
    set_limit new_limiter
new_orchestrator-begun = refl

abbrev some_calls : List Call
some_calls =
    updates 1 none true
    ∷ updates 2 (some (no_rules, routing)) false
    ∷ updates 3 (some (no_rules, routing)) true
    ∷ shuts_down
    ∷ []

calls-new_orchestrator-Serves_example : Serves [] (calls begun some_calls)
calls-new_orchestrator-Serves_example =
    calls-new_orchestrator-Serves no_libraries no_rules routing (codes "7") [] true begun some_calls
      no_rules-IsParsed new_orchestrator-begun
      (tt, (no_rules-IsParsed, (no_rules-IsParsed, (tt, tt))))

every_request_finds_a_rule_example :
    (ing : Ingress) × (((calls begun some_calls).proxy ≡ some ing)
      × Found ing [] (codes "a.example:1") (codes "/"))
every_request_finds_a_rule_example =
    every_request_finds_a_rule no_libraries no_rules routing (codes "7") [] true begun some_calls
      (codes "a.example:1") (codes "/") no_rules-IsParsed new_orchestrator-begun
      (tt, (no_rules-IsParsed, (no_rules-IsParsed, (tt, tt))))

update_config-Outcome_example :
    Outcome begun 4
      (some (no_rules, routing))
      true
      (update_config begun 4 (some (no_rules, routing)) true)
update_config-Outcome_example = update_config-Outcome begun 4 (some (no_rules, routing)) true

failed_updates_leak_example :
    length (shutdown (failed_updates 2 begun 1 no_rules routing)).opened
    ≡ length (shutdown begun).opened + 2
unfolding override_max_active_flows parse_uint
failed_updates_leak_example =
    failed_updates_leak 2 begun 1 no_rules routing (record routing { max_active_flows = 7 })
      (omega arith) refl refl (λ c h. let e : 0 ≡ c = some-injective 0 c h in omega (arith, e))
