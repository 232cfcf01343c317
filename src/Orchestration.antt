-- ===== src/Orchestration.antt =====
-- orchestration/orchestrator.go: the configuration that the proxy runs with, and its updates, over the
-- rules of ingress and the limiter of flow. A method under the lock is one step. Logs are left out.
pub mod Versions
pub mod Requests
pub mod Channels
mod Tests
use shitflared.Prelude.{
  ℕ, suc, ◌+◌, ◌-◌, ◌*◌, ◌^◌, Bool, true, false, ◌&&◌, List, [], ◌∷◌, Option, none, some, leb, ltb,
  ◌==◌, if◌then◌else◌,
}
use shitflared.Prelude.Text.{Text, codes}
use shitflared.Flow.{Limiter, new_limiter, set_limit}
use shitflared.Ingress.Origin.{default_config}
use shitflared.Ingress.Rules.{Rule, Ingress, status_code}

pub record WarpRouting : Type 0 where
  pub connect_timeout : ℕ
  pub max_active_flows : ℕ
  pub tcp_keep_alive : ℕ

-- `ingress.Dialer`, made from the routing.
pub record Dialer : Type 0 where
  pub timeout : ℕ
  pub keep_alive : ℕ

abbrev pub new_dialer : WarpRouting → Dialer
new_dialer w = record { timeout = w.connect_timeout; keep_alive = w.tcp_keep_alive }

-- A version is one more than the source's, so that the lowest, -1, is 0; lower ones are refused as 0
-- is. `proxy` has the rules that the proxy was made with, if there is one. A channel that closes the
-- origins of a proxy is a number: those below `next_channel` were made, those of `opened` are not
-- closed, and `current` belongs to the proxy.
pub record Orchestrator : Type 0 where
  pub current_version : ℕ
  pub internal_rules : List Rule
  pub max_active_flows_flag : Text
  pub ingress : Ingress
  pub proxy : Option Ingress
  pub warp_routing : WarpRouting
  pub limiter : Limiter
  pub default_dialer : Dialer
  pub shut_down : Bool
  pub next_channel : ℕ
  pub opened : List ℕ
  pub current : Option ℕ

pub data UpdateError : Type 0 where
  already_shut_down bad_flag origin_failed undecodable : UpdateError

abbrev digits : ℕ → Text → Option ℕ
digits n [] = if ltb n (2 ^ 64) then some n else none
digits n (c ∷ s) = if leb 48 c && leb c 57 then digits (n * 10 + (c - 48)) s else none

-- `strconv.ParseUint(text, 10, 64)`.
unfoldable pub parse_uint : Text → Option ℕ
parse_uint [] = none
parse_uint (c ∷ s) = digits 0 (c ∷ s)

abbrev pub with_limit : WarpRouting → Option ℕ → Option WarpRouting
with_limit w none = none
with_limit w (some n) = some (record w { max_active_flows = n })

-- `none` is an error of the flag.
unfoldable pub override_max_active_flows : Text → WarpRouting → Option WarpRouting
override_max_active_flows [] w = some w
override_max_active_flows (c ∷ s) w = with_limit w (parse_uint (c ∷ s))

-- `GetDefaultIngressRules`.
abbrev pub default_rule : Rule
default_rule = record {
  hostname = [];
  punycode_hostname = [];
  path = none;
  service = status_code 503;
  verifies_access = false;
  config = default_config;
}

abbrev pub or_default : List Rule → List Rule
or_default [] = default_rule ∷ []
or_default (r ∷ rest) = r ∷ rest

abbrev pub close : Option ℕ → List ℕ → List ℕ
close none opened = opened
close (some c) [] = []
close (some c) (d ∷ opened) = let rest = close (some c) opened in if d == c then rest else d ∷ rest

-- What follows the start of the origins.
unfoldable pub replace_proxy : Orchestrator → Ingress → WarpRouting → Orchestrator
replace_proxy o rules w = record o {
  ingress = rules;
  proxy = some rules;
  warp_routing = w;
  limiter = set_limit o.limiter w.max_active_flows;
  default_dialer = new_dialer w;
  next_channel = suc o.next_channel;
  opened = o.next_channel ∷ close o.current o.opened;
  current = some o.next_channel;
}

-- The origins got a channel, and one of them could not start.
unfoldable pub abandon_origins : Orchestrator → Orchestrator
abandon_origins o = record o {
  next_channel = suc o.next_channel;
  opened = o.next_channel ∷ o.opened;
}

abbrev pub start_origins :
    Orchestrator
    → Ingress
    → (starts : Bool) → Option WarpRouting
    → Orchestrator × Option UpdateError
start_origins o rules starts none = (o, some bad_flag)
start_origins o rules true (some w) = (
  replace_proxy o
      (record rules { internal_rules = o.internal_rules; rules = or_default rules.rules }) w,
  none,
)
start_origins o rules false (some w) = (abandon_origins o, some origin_failed)

-- `starts` is whether every origin starts.
unfoldable pub update_ingress :
    Orchestrator → Ingress → WarpRouting → (starts : Bool) → Orchestrator × Option UpdateError
update_ingress o rules w starts =
    if o.shut_down
    then (o, some already_shut_down)
    else start_origins o rules starts (override_max_active_flows o.max_active_flows_flag w)

pub record UpdateResponse : Type 0 where
  pub last_applied_version : ℕ
  pub error : Option UpdateError

abbrev pub applied : ℕ → Orchestrator × Option UpdateError → Orchestrator × UpdateResponse
applied version (o, none) = (
  record o { current_version = version },
  record { last_applied_version = version; error = none },
)
applied version (o, some e) =
    (o, record { last_applied_version = o.current_version; error = some e })

abbrev pub decoded_update :
    Orchestrator → ℕ → Option (Ingress × WarpRouting) → Bool → Orchestrator × UpdateResponse
decoded_update o version none starts =
    (o, record { last_applied_version = o.current_version; error = some undecodable })
decoded_update o version (some (rules, w)) starts =
    applied version (update_ingress o rules w starts)

-- `config` is what the bytes decode to.
unfoldable pub update_config :
    Orchestrator
    → (version : ℕ) → Option (Ingress × WarpRouting)
    → Bool
    → Orchestrator × UpdateResponse
update_config o version config starts =
    if leb version o.current_version
    then (o, record { last_applied_version = o.current_version; error = none })
    else decoded_update o version config starts

-- The dialer service was made with the dialer of the same routing.
abbrev pub empty_orchestrator : Ingress → WarpRouting → Text → List Rule → Orchestrator
empty_orchestrator rules w flag internal = record {
  current_version = 0;
  internal_rules = internal;
  max_active_flows_flag = flag;
  ingress = rules;
  proxy = none;
  warp_routing = w;
  limiter = new_limiter w.max_active_flows;
  default_dialer = new_dialer w;
  shut_down = false;
  next_channel = 0;
  opened = [];
  current = none;
}

unfoldable pub new_orchestrator :
    Ingress → WarpRouting → Text → List Rule → (starts : Bool) → Orchestrator × Option UpdateError
new_orchestrator rules w flag internal starts =
    update_ingress (empty_orchestrator rules w flag internal) rules w starts

-- The context is done, and `waitToCloseLastProxy` closes the channel of the last proxy.
unfoldable pub shutdown : Orchestrator → Orchestrator
shutdown o = record o { shut_down = true; opened = close o.current o.opened; current = none }
