-- ===== src/Ingress/Origin/Precedence.antt =====
-- ingress/config.go: the precedence that the comment on `setConfig` states: the setting of the rule,
-- then that of the whole ingress, then the default.
use shitflared.Prelude.{◌≡◌, refl, ◌∙◌, ap, false, List, [], ◌∷◌, Option, none, some, All, map}
use shitflared.Prelude.Text.{Text, codes}
use shitflared.IpAccess.{IpNet, AccessError, new_rule_by_cidr}
use shitflared.IpAccess
use shitflared.Ingress.Origin.{
  RawConfig, IngressIpRule, OriginConfig, zero_access, or_else, keep_made, made_rules, from_config,
}
use shitflared.Ingress.Origin.Override.{zero_if_failed, rules_or_zero, replaced_rules, set_config}

-- The setting of the rule, else that of the whole ingress, else the default.
abbrev pub first_set {ℓ} : {A : Type ℓ} → (rule overall : Option A) → A → A
first_set (some a) overall d = a
first_set none (some b) d = b
first_set none none d = d

module _ (parse : Text → Option IpNet) where
  abbrev making : IngressIpRule → IpAccess.Rule × Option AccessError
  making r = new_rule_by_cidr parse r.prefix r.ports r.allow

  -- Every rule can be made.
  abbrev pub CanBeMade : List IngressIpRule → Type 0
  CanBeMade = All (λ r. (making r).1 ≡ none)

  -- The rules of the rule where it has some, else those of the whole ingress.
  abbrev pub first_rules : (rule overall : List IngressIpRule) → List IpAccess.Rule
  first_rules [] overall = map (λ r. (making r).0) overall
  first_rules (r ∷ rest) overall = map (λ q. (making q).0) (r ∷ rest)

  -- Field by field, what the comment promises, with the values that the team has chosen.
  pub record Precedence (rule overall : RawConfig) (made : OriginConfig) : Type 0 where
    pub connect_timeout :
        made.connect_timeout ≡ first_set rule.connect_timeout overall.connect_timeout 30000000000
    pub tls_timeout : made.tls_timeout ≡ first_set rule.tls_timeout overall.tls_timeout 10000000000
    pub tcp_keep_alive :
        made.tcp_keep_alive ≡ first_set rule.tcp_keep_alive overall.tcp_keep_alive 30000000000
    pub no_happy_eyeballs :
        made.no_happy_eyeballs ≡ first_set rule.no_happy_eyeballs overall.no_happy_eyeballs false
    pub keep_alive_connections :
        made.keep_alive_connections
        ≡ first_set rule.keep_alive_connections overall.keep_alive_connections 100
    pub keep_alive_timeout :
        made.keep_alive_timeout
        ≡ first_set rule.keep_alive_timeout overall.keep_alive_timeout 90000000000
    pub http_host_header :
        made.http_host_header ≡ first_set rule.http_host_header overall.http_host_header []
    pub origin_server_name :
        made.origin_server_name ≡ first_set rule.origin_server_name overall.origin_server_name []
    pub match_sni_to_host :
        made.match_sni_to_host ≡ first_set rule.match_sni_to_host overall.match_sni_to_host false
    pub ca_pool : made.ca_pool ≡ first_set rule.ca_pool overall.ca_pool []
    pub no_tls_verify :
        made.no_tls_verify ≡ first_set rule.no_tls_verify overall.no_tls_verify false
    pub disable_chunked_encoding :
        made.disable_chunked_encoding
        ≡ first_set rule.disable_chunked_encoding overall.disable_chunked_encoding false
    pub bastion_mode : made.bastion_mode ≡ first_set rule.bastion_mode overall.bastion_mode false
    pub proxy_address :
        made.proxy_address ≡ first_set rule.proxy_address overall.proxy_address (codes "127.0.0.1")
    pub proxy_port : made.proxy_port ≡ first_set rule.proxy_port overall.proxy_port 0
    pub proxy_type : made.proxy_type ≡ first_set rule.proxy_type overall.proxy_type []
    pub ip_rules : made.ip_rules ≡ first_rules rule.ip_rules overall.ip_rules
    pub http2_origin : made.http2_origin ≡ first_set rule.http2_origin overall.http2_origin false
    pub access : made.access ≡ first_set rule.access overall.access zero_access

  made_rules-map :
      (rules : List IngressIpRule)
      → CanBeMade rules
      → made_rules parse rules ≡ map (λ r. (making r).0) rules
  unfolding made_rules
  made_rules-map [] h = refl
  made_rules-map (r ∷ rest) h =
      kept (making r) h.0 ∙ ap (λ x. (making r).0 ∷ x) (made_rules-map rest h.1)
    where
      kept :
          (x : IpAccess.Rule × Option AccessError)
          → x.1 ≡ none
          → keep_made x (made_rules parse rest) ≡ x.0 ∷ made_rules parse rest
      kept (q, none) h = refl
      kept (q, some e) h = absurd cc

  rules_or_zero-map :
      (rules : List IngressIpRule)
      → CanBeMade rules
      → rules_or_zero parse rules ≡ map (λ r. (making r).0) rules
  unfolding rules_or_zero
  rules_or_zero-map [] h = refl
  rules_or_zero-map (r ∷ rest) h =
      ap (λ x. x ∷ rules_or_zero parse rest) (same (making r) h.0)
      ∙ ap (λ x. (making r).0 ∷ x) (rules_or_zero-map rest h.1)
    where
      same : (x : IpAccess.Rule × Option AccessError) → x.1 ≡ none → zero_if_failed x ≡ x.0
      same (q, none) h = refl
      same (q, some e) h = absurd cc

  replaced_rules-first :
      (rule overall : List IngressIpRule)
      → CanBeMade rule
      → CanBeMade overall
      → replaced_rules parse rule (made_rules parse overall) ≡ first_rules rule overall
  replaced_rules-first [] overall h k = made_rules-map overall k
  replaced_rules-first (r ∷ rest) overall h k = rules_or_zero-map (r ∷ rest) h

or_else-first {ℓ} :
    {A : Type ℓ} (a b : Option A) (d : A) → or_else a (or_else b d) ≡ first_set a b d
or_else-first (some a) b d = refl
or_else-first none (some b) d = refl
or_else-first none none d = refl

-- Where all IP rules of both can be made, the settings of a rule over those of the whole ingress have
-- in each field the rule's setting, where it has none the ingress's, and where neither has one the
-- default.
pub set_config-from_config :
    (parse : Text → Option IpNet) (overall rule : RawConfig)
    → CanBeMade parse rule.ip_rules
    → CanBeMade parse overall.ip_rules
    → Precedence parse rule overall (set_config parse (from_config parse overall) rule)
unfolding set_config from_config
set_config-from_config parse g o h k = record {
  connect_timeout = or_else-first o.connect_timeout g.connect_timeout 30000000000;
  tls_timeout = or_else-first o.tls_timeout g.tls_timeout 10000000000;
  tcp_keep_alive = or_else-first o.tcp_keep_alive g.tcp_keep_alive 30000000000;
  no_happy_eyeballs = or_else-first o.no_happy_eyeballs g.no_happy_eyeballs false;
  keep_alive_connections = or_else-first o.keep_alive_connections g.keep_alive_connections 100;
  keep_alive_timeout = or_else-first o.keep_alive_timeout g.keep_alive_timeout 90000000000;
  http_host_header = or_else-first o.http_host_header g.http_host_header [];
  origin_server_name = or_else-first o.origin_server_name g.origin_server_name [];
  match_sni_to_host = or_else-first o.match_sni_to_host g.match_sni_to_host false;
  ca_pool = or_else-first o.ca_pool g.ca_pool [];
  no_tls_verify = or_else-first o.no_tls_verify g.no_tls_verify false;
  disable_chunked_encoding =
      or_else-first o.disable_chunked_encoding g.disable_chunked_encoding false;
  bastion_mode = or_else-first o.bastion_mode g.bastion_mode false;
  proxy_address = or_else-first o.proxy_address g.proxy_address (codes "127.0.0.1");
  proxy_port = or_else-first o.proxy_port g.proxy_port 0;
  proxy_type = or_else-first o.proxy_type g.proxy_type [];
  ip_rules = replaced_rules-first parse o.ip_rules g.ip_rules h k;
  http2_origin = or_else-first o.http2_origin g.http2_origin false;
  access = or_else-first o.access g.access zero_access;
}
