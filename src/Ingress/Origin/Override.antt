-- ===== src/Ingress/Origin/Override.antt =====
-- ingress/config.go: the settings of a rule over those of the whole ingress, a setter for each field.
use shitflared.Prelude.{List, [], ◌∷◌, Option, none, some}
use shitflared.Prelude.Text.{Text}
use shitflared.IpAccess.{IpNet, AccessError, zero_rule, new_rule_by_cidr}
use shitflared.IpAccess
use shitflared.Ingress.Origin.{RawConfig, IngressIpRule, OriginConfig, or_else}

abbrev pub set_connect_timeout : RawConfig → OriginConfig → OriginConfig
set_connect_timeout overrides defaults = record defaults {
  connect_timeout = or_else overrides.connect_timeout defaults.connect_timeout;
}

abbrev pub set_tls_timeout : RawConfig → OriginConfig → OriginConfig
set_tls_timeout overrides defaults = record defaults {
  tls_timeout = or_else overrides.tls_timeout defaults.tls_timeout;
}

abbrev pub set_no_happy_eyeballs : RawConfig → OriginConfig → OriginConfig
set_no_happy_eyeballs overrides defaults = record defaults {
  no_happy_eyeballs = or_else overrides.no_happy_eyeballs defaults.no_happy_eyeballs;
}

abbrev pub set_keep_alive_connections : RawConfig → OriginConfig → OriginConfig
set_keep_alive_connections overrides defaults = record defaults {
  keep_alive_connections = or_else overrides.keep_alive_connections defaults.keep_alive_connections;
}

abbrev pub set_keep_alive_timeout : RawConfig → OriginConfig → OriginConfig
set_keep_alive_timeout overrides defaults = record defaults {
  keep_alive_timeout = or_else overrides.keep_alive_timeout defaults.keep_alive_timeout;
}

abbrev pub set_tcp_keep_alive : RawConfig → OriginConfig → OriginConfig
set_tcp_keep_alive overrides defaults = record defaults {
  tcp_keep_alive = or_else overrides.tcp_keep_alive defaults.tcp_keep_alive;
}

abbrev pub set_http_host_header : RawConfig → OriginConfig → OriginConfig
set_http_host_header overrides defaults = record defaults {
  http_host_header = or_else overrides.http_host_header defaults.http_host_header;
}

abbrev pub set_origin_server_name : RawConfig → OriginConfig → OriginConfig
set_origin_server_name overrides defaults = record defaults {
  origin_server_name = or_else overrides.origin_server_name defaults.origin_server_name;
}

abbrev pub set_match_sni_to_host : RawConfig → OriginConfig → OriginConfig
set_match_sni_to_host overrides defaults = record defaults {
  match_sni_to_host = or_else overrides.match_sni_to_host defaults.match_sni_to_host;
}

abbrev pub set_ca_pool : RawConfig → OriginConfig → OriginConfig
set_ca_pool overrides defaults = record defaults {
  ca_pool = or_else overrides.ca_pool defaults.ca_pool;
}

abbrev pub set_no_tls_verify : RawConfig → OriginConfig → OriginConfig
set_no_tls_verify overrides defaults = record defaults {
  no_tls_verify = or_else overrides.no_tls_verify defaults.no_tls_verify;
}

abbrev pub set_disable_chunked_encoding : RawConfig → OriginConfig → OriginConfig
set_disable_chunked_encoding overrides defaults = record defaults {
  disable_chunked_encoding =
      or_else overrides.disable_chunked_encoding defaults.disable_chunked_encoding;
}

abbrev pub set_bastion_mode : RawConfig → OriginConfig → OriginConfig
set_bastion_mode overrides defaults = record defaults {
  bastion_mode = or_else overrides.bastion_mode defaults.bastion_mode;
}

abbrev pub set_proxy_port : RawConfig → OriginConfig → OriginConfig
set_proxy_port overrides defaults = record defaults {
  proxy_port = or_else overrides.proxy_port defaults.proxy_port;
}

abbrev pub set_proxy_address : RawConfig → OriginConfig → OriginConfig
set_proxy_address overrides defaults = record defaults {
  proxy_address = or_else overrides.proxy_address defaults.proxy_address;
}

abbrev pub set_proxy_type : RawConfig → OriginConfig → OriginConfig
set_proxy_type overrides defaults = record defaults {
  proxy_type = or_else overrides.proxy_type defaults.proxy_type;
}

abbrev pub set_http2_origin : RawConfig → OriginConfig → OriginConfig
set_http2_origin overrides defaults = record defaults {
  http2_origin = or_else overrides.http2_origin defaults.http2_origin;
}

abbrev pub set_access : RawConfig → OriginConfig → OriginConfig
set_access overrides defaults = record defaults {
  access = or_else overrides.access defaults.access;
}

-- A rule that could not be made stays the zero value.
abbrev pub zero_if_failed : IpAccess.Rule × Option AccessError → IpAccess.Rule
zero_if_failed (r, none) = r
zero_if_failed (r, some e) = zero_rule

module _ (parse_cidr : Text → Option IpNet) where
  unfoldable pub rules_or_zero : List IngressIpRule → List IpAccess.Rule
  rules_or_zero [] = []
  rules_or_zero (r ∷ rest) =
      zero_if_failed (new_rule_by_cidr parse_cidr r.prefix r.ports r.allow) ∷ rules_or_zero rest

  abbrev pub replaced_rules : List IngressIpRule → List IpAccess.Rule → List IpAccess.Rule
  replaced_rules [] rules = rules
  replaced_rules (r ∷ rest) rules = rules_or_zero (r ∷ rest)

  abbrev pub set_ip_rules : RawConfig → OriginConfig → OriginConfig
  set_ip_rules overrides defaults = record defaults {
    ip_rules = replaced_rules overrides.ip_rules defaults.ip_rules;
  }

  -- `setConfig`, whose calls run from the innermost to the outermost here.
  unfoldable pub set_config : OriginConfig → RawConfig → OriginConfig
  set_config defaults overrides = set_access overrides (
      set_http2_origin overrides (
        set_ip_rules overrides (
          set_proxy_type overrides (
            set_proxy_address overrides (
              set_proxy_port overrides (
                set_bastion_mode overrides (
                  set_disable_chunked_encoding overrides (
                    set_no_tls_verify overrides (
                      set_ca_pool overrides (
                        set_match_sni_to_host overrides (
                          set_origin_server_name overrides (
                            set_http_host_header overrides (
                              set_tcp_keep_alive overrides (
                                set_keep_alive_timeout overrides (
                                  set_keep_alive_connections overrides (
                                    set_no_happy_eyeballs overrides (
                                      set_tls_timeout overrides
                                        (set_connect_timeout overrides defaults))))))))))))))))))
