-- ===== src/Ingress/Origin/Raw.antt =====
-- ingress/config.go: the settings are written out as users would write them, and read back.
use shitflared.Prelude.{
  ℕ, ◌≡◌, refl, sym, ◌∙◌, ap, Bool, true, false, ◌⊎◌, inl, inr, List, [], ◌∷◌, Option, none, some,
  All, ◌==◌, if◌then◌else◌, arith,
}
use shitflared.Prelude.Text.{Text, same_text, same_text_iff}
use shitflared.IpAccess.{IpNet, new_rule_by_cidr}
use shitflared.IpAccess
use shitflared.Ingress.Origin.{
  OriginConfig, AccessConfig, zero_access, default_config, or_else, keep_made, made_rules,
  from_config, to_raw, raw_rules, unless_same, bool_to_nil, text_to_nil,
}

-- The rule is made again from its own text, ports and verdict.
abbrev pub IsPrinted : (Text → Option IpNet) → (Option IpNet → Text) → IpAccess.Rule → Type 0
IsPrinted parse print r = new_rule_by_cidr parse (some (print r.ip_net)) r.ports r.allow ≡ (r, none)

number_back : (n d : ℕ) → or_else (unless_same (n == d) n) d ≡ n
number_back n d = ground arith

bool_back : (b : Bool) → or_else (bool_to_nil b) false ≡ b
bool_back true = refl
bool_back false = refl

text_back : (s : Text) → or_else (text_to_nil s) [] ≡ s
text_back [] = refl
text_back (c ∷ s) = refl

address_back : (s d : Text) → or_else (if same_text s d then none else some s) d ≡ s
address_back s d = ground (arith, same_text_iff s d)

access_back :
    (a : AccessConfig)
    → (a.required ≡ true) ⊎ (a ≡ zero_access)
    → or_else (if a.required then some a else none) zero_access ≡ a
access_back a (inl h) = ap (λ b. or_else (if b then some a else none) zero_access) h
access_back a (inr h) =
    ap (λ x. or_else (if x.required then some x else none) zero_access) h ∙ sym h

rules_back :
    (parse : Text → Option IpNet) (print : Option IpNet → Text) (rules : List IpAccess.Rule)
    → All (IsPrinted parse print) rules
    → made_rules parse (raw_rules print rules) ≡ rules
unfolding made_rules raw_rules
rules_back parse print [] h = refl
rules_back parse print (r ∷ rest) h =
    ap (λ x. keep_made x (made_rules parse (raw_rules print rest))) h.0
    ∙ ap (◌∷◌ r) (rules_back parse print rest h.1)

-- Settings whose IP rules are made again from their text, and whose access settings either are required
-- or are those that nobody set, are the same after they were written out and read back.
pub from_config-to_raw :
    (parse : Text → Option IpNet) (print : Option IpNet → Text) (c : OriginConfig)
    → All (IsPrinted parse print) c.ip_rules
    → (c.access.required ≡ true) ⊎ (c.access ≡ zero_access)
    → from_config parse (to_raw print c) ≡ c
unfolding from_config to_raw
from_config-to_raw parse print c rules access = λ i. record {
  connect_timeout = number_back c.connect_timeout default_config.connect_timeout i;
  tls_timeout = number_back c.tls_timeout default_config.tls_timeout i;
  tcp_keep_alive = number_back c.tcp_keep_alive default_config.tcp_keep_alive i;
  no_happy_eyeballs = bool_back c.no_happy_eyeballs i;
  keep_alive_connections =
      number_back c.keep_alive_connections default_config.keep_alive_connections i;
  keep_alive_timeout = number_back c.keep_alive_timeout default_config.keep_alive_timeout i;
  http_host_header = text_back c.http_host_header i;
  origin_server_name = text_back c.origin_server_name i;
  match_sni_to_host = bool_back c.match_sni_to_host i;
  ca_pool = text_back c.ca_pool i;
  no_tls_verify = bool_back c.no_tls_verify i;
  disable_chunked_encoding = bool_back c.disable_chunked_encoding i;
  bastion_mode = bool_back c.bastion_mode i;
  proxy_address = address_back c.proxy_address default_config.proxy_address i;
  proxy_port = number_back c.proxy_port 0 i;
  proxy_type = text_back c.proxy_type i;
  ip_rules = rules_back parse print c.ip_rules rules i;
  http2_origin = bool_back c.http2_origin i;
  access = access_back c.access access i;
}
