-- ===== src/Ingress/Origin/Tests.antt =====
-- Runs of the theorems on the settings of origins.
use shitflared.Prelude.{refl, true, false, [], ◌∷◌, Option, some}
use shitflared.Prelude.Text.{Text, codes}
use shitflared.Prelude.Sort.{sort_by, insert_by}
use shitflared.IpAccess.{IpNet, new_rule_by_cidr, new_rule, validate_rule}
use shitflared.IpAccess
use shitflared.Ingress.Origin.{no_settings, RawConfig, OriginConfig, default_config, from_config}
use shitflared.Ingress.Origin.Override.{set_config}
use shitflared.Ingress.Origin.Precedence.{Precedence, set_config-from_config}

abbrev any_net : IpNet
any_net = record { ip = 0 ∷ 0 ∷ 0 ∷ 0 ∷ []; mask = 0 ∷ 0 ∷ 0 ∷ 0 ∷ [] }

-- A parser that knows one network, and its printer.
abbrev parse_any : Text → Option IpNet
parse_any text = some any_net

abbrev print_any : Option IpNet → Text
print_any net = codes "0.0.0.0/0"

abbrev overall : RawConfig
overall = record no_settings { keep_alive_connections = some 5; no_tls_verify = some true }

abbrev of_rule : RawConfig
of_rule = record no_settings {
  no_tls_verify = some false;
  ip_rules = record { prefix = some (codes "0.0.0.0/0"); ports = 80 ∷ []; allow = true } ∷ [];
}

set_config-from_config_example :
    Precedence parse_any of_rule overall
      (set_config parse_any (from_config parse_any overall) of_rule)
unfolding new_rule_by_cidr new_rule validate_rule sort_by insert_by
set_config-from_config_example = set_config-from_config parse_any overall of_rule (refl, tt) tt

abbrev web_only : IpAccess.Rule
web_only = record { ip_net = some any_net; ports = 80 ∷ 443 ∷ []; allow = true }

abbrev settings : OriginConfig
settings = record default_config { ip_rules = web_only ∷ []; proxy_port = 1080 }
