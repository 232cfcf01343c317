-- ===== src/Ingress/Origin.antt =====
-- ingress/config.go, the types of config/configuration.go: the settings of requests to origins. A
-- duration and a signed number are their 64-bit patterns.
pub mod Override
pub mod Precedence
pub mod Raw
mod Tests
use shitflared.Prelude.{
  ℕ, Bool, true, false, not, List, [], ◌∷◌, Option, none, some, ltb, ◌==◌, if◌then◌else◌, length,
}
use shitflared.Prelude.Text.{Text, codes, same_text, is_empty}
use shitflared.IpAccess.{IpNet, AccessError, zero_rule, new_rule_by_cidr}
use shitflared.IpAccess

pub record AccessConfig : Type 0 where
  pub required : Bool
  pub team_name : Text
  pub aud_tag : List Text
  pub environment : Text

pub record IngressIpRule : Type 0 where
  pub prefix : Option Text
  pub ports : List ℕ
  pub allow : Bool

-- The settings as users write them: `none` where a pointer is nil.
pub record RawConfig : Type 0 where
  pub connect_timeout : Option ℕ
  pub tls_timeout : Option ℕ
  pub tcp_keep_alive : Option ℕ
  pub no_happy_eyeballs : Option Bool
  pub keep_alive_connections : Option ℕ
  pub keep_alive_timeout : Option ℕ
  pub http_host_header : Option Text
  pub origin_server_name : Option Text
  pub match_sni_to_host : Option Bool
  pub ca_pool : Option Text
  pub no_tls_verify : Option Bool
  pub disable_chunked_encoding : Option Bool
  pub bastion_mode : Option Bool
  pub proxy_address : Option Text
  pub proxy_port : Option ℕ
  pub proxy_type : Option Text
  pub ip_rules : List IngressIpRule
  pub http2_origin : Option Bool
  pub access : Option AccessConfig

-- `config.OriginRequestConfig{}`.
abbrev pub no_settings : RawConfig
no_settings = record {
  connect_timeout = none;
  tls_timeout = none;
  tcp_keep_alive = none;
  no_happy_eyeballs = none;
  keep_alive_connections = none;
  keep_alive_timeout = none;
  http_host_header = none;
  origin_server_name = none;
  match_sni_to_host = none;
  ca_pool = none;
  no_tls_verify = none;
  disable_chunked_encoding = none;
  bastion_mode = none;
  proxy_address = none;
  proxy_port = none;
  proxy_type = none;
  ip_rules = [];
  http2_origin = none;
  access = none;
}

pub record OriginConfig : Type 0 where
  pub connect_timeout : ℕ
  pub tls_timeout : ℕ
  pub tcp_keep_alive : ℕ
  pub no_happy_eyeballs : Bool
  pub keep_alive_connections : ℕ
  pub keep_alive_timeout : ℕ
  pub http_host_header : Text
  pub origin_server_name : Text
  pub match_sni_to_host : Bool
  pub ca_pool : Text
  pub no_tls_verify : Bool
  pub disable_chunked_encoding : Bool
  pub bastion_mode : Bool
  pub proxy_address : Text
  pub proxy_port : ℕ
  pub proxy_type : Text
  pub ip_rules : List IpAccess.Rule
  pub http2_origin : Bool
  pub access : AccessConfig

abbrev pub zero_access : AccessConfig
zero_access = record { required = false; team_name = []; aud_tag = []; environment = [] }

-- The defaults of the team, and the zero values of the types for the other fields.
abbrev pub default_config : OriginConfig
default_config = record {
  connect_timeout = 30000000000;
  tls_timeout = 10000000000;
  tcp_keep_alive = 30000000000;
  no_happy_eyeballs = false;
  keep_alive_connections = 100;
  keep_alive_timeout = 90000000000;
  http_host_header = [];
  origin_server_name = [];
  match_sni_to_host = false;
  ca_pool = [];
  no_tls_verify = false;
  disable_chunked_encoding = false;
  bastion_mode = false;
  proxy_address = codes "127.0.0.1";
  proxy_port = 0;
  proxy_type = [];
  ip_rules = [];
  http2_origin = false;
  access = zero_access;
}

abbrev pub or_else {ℓ} : {A : Type ℓ} → Option A → A → A
or_else none d = d
or_else (some a) d = a

-- Each rule that could be made; the others are left out.
abbrev pub keep_made : IpAccess.Rule × Option AccessError → List IpAccess.Rule → List IpAccess.Rule
keep_made (r, none) rest = r ∷ rest
keep_made (r, some e) rest = rest

module _ (parse_cidr : Text → Option IpNet) where
  unfoldable pub made_rules : List IngressIpRule → List IpAccess.Rule
  made_rules [] = []
  made_rules (r ∷ rest) =
      keep_made (new_rule_by_cidr parse_cidr r.prefix r.ports r.allow) (made_rules rest)

  -- `originRequestFromConfig`: each field that is set, over the defaults.
  unfoldable pub from_config : RawConfig → OriginConfig
  from_config c = record {
    connect_timeout = or_else c.connect_timeout default_config.connect_timeout;
    tls_timeout = or_else c.tls_timeout default_config.tls_timeout;
    tcp_keep_alive = or_else c.tcp_keep_alive default_config.tcp_keep_alive;
    no_happy_eyeballs = or_else c.no_happy_eyeballs default_config.no_happy_eyeballs;
    keep_alive_connections = or_else c.keep_alive_connections default_config.keep_alive_connections;
    keep_alive_timeout = or_else c.keep_alive_timeout default_config.keep_alive_timeout;
    http_host_header = or_else c.http_host_header default_config.http_host_header;
    origin_server_name = or_else c.origin_server_name default_config.origin_server_name;
    match_sni_to_host = or_else c.match_sni_to_host default_config.match_sni_to_host;
    ca_pool = or_else c.ca_pool default_config.ca_pool;
    no_tls_verify = or_else c.no_tls_verify default_config.no_tls_verify;
    disable_chunked_encoding =
        or_else c.disable_chunked_encoding default_config.disable_chunked_encoding;
    bastion_mode = or_else c.bastion_mode default_config.bastion_mode;
    proxy_address = or_else c.proxy_address default_config.proxy_address;
    proxy_port = or_else c.proxy_port default_config.proxy_port;
    proxy_type = or_else c.proxy_type default_config.proxy_type;
    ip_rules = made_rules c.ip_rules;
    http2_origin = or_else c.http2_origin default_config.http2_origin;
    access = or_else c.access default_config.access;
  }

abbrev pub unless_same : Bool → ℕ → Option ℕ
unless_same true n = none
unless_same false n = some n

abbrev pub bool_to_nil : Bool → Option Bool
bool_to_nil false = none
bool_to_nil true = some true

abbrev pub text_to_nil : Text → Option Text
text_to_nil [] = none
text_to_nil (c ∷ s) = some (c ∷ s)

abbrev pub zero_to_nil : ℕ → Option ℕ
zero_to_nil n = unless_same (n == 0) n

-- `print_cidr` is `String` of the standard library's IPNet, and of nil.
unfoldable pub raw_rules :
    (print_cidr : Option IpNet → Text) → List IpAccess.Rule → List IngressIpRule
raw_rules print_cidr [] = []
raw_rules print_cidr (r ∷ rest) =
    record { prefix = some (print_cidr r.ip_net); ports = r.ports; allow = r.allow }
    ∷ raw_rules print_cidr rest

-- `ConvertToRawOriginConfig`.
unfoldable pub to_raw : (print_cidr : Option IpNet → Text) → OriginConfig → RawConfig
to_raw print_cidr c = record {
  connect_timeout =
      unless_same (c.connect_timeout == default_config.connect_timeout) c.connect_timeout;
  tls_timeout = unless_same (c.tls_timeout == default_config.tls_timeout) c.tls_timeout;
  tcp_keep_alive = unless_same (c.tcp_keep_alive == default_config.tcp_keep_alive) c.tcp_keep_alive;
  no_happy_eyeballs = bool_to_nil c.no_happy_eyeballs;
  keep_alive_connections =
      unless_same (c.keep_alive_connections == default_config.keep_alive_connections)
        c.keep_alive_connections;
  keep_alive_timeout =
      unless_same (c.keep_alive_timeout == default_config.keep_alive_timeout) c.keep_alive_timeout;
  http_host_header = text_to_nil c.http_host_header;
  origin_server_name = text_to_nil c.origin_server_name;
  match_sni_to_host = bool_to_nil c.match_sni_to_host;
  ca_pool = text_to_nil c.ca_pool;
  no_tls_verify = bool_to_nil c.no_tls_verify;
  disable_chunked_encoding = bool_to_nil c.disable_chunked_encoding;
  bastion_mode = bool_to_nil c.bastion_mode;
  proxy_address =
      (if same_text c.proxy_address default_config.proxy_address
        then none
        else some c.proxy_address);
  proxy_port = zero_to_nil c.proxy_port;
  proxy_type = text_to_nil c.proxy_type;
  ip_rules = raw_rules print_cidr c.ip_rules;
  http2_origin = bool_to_nil c.http2_origin;
  access = (if c.access.required then some c.access else none);
}
