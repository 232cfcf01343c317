-- ===== src/Ingress/Validate.antt =====
-- ingress/ingress.go: user-written rules are checked and made into rules (validateIngress).
pub mod Shape
pub mod Wildcard
mod Tests
use shitflared.Prelude.{
  ℕ, ◌+◌, Bool, true, false, not, ◌||◌, List, [], ◌∷◌, Option, none, some, drop, length, ltb,
  if◌then◌else◌,
}
use shitflared.Prelude.Text.{Text, codes, same_text, has_prefix, is_empty}
use shitflared.IpAccess.{AccessError, new_rule_by_cidr, new_policy}
use shitflared.IpAccess
use shitflared.Ingress.Origin.{OriginConfig, IngressIpRule, AccessConfig}
use shitflared.Ingress.Origin.Override.{set_config}
use shitflared.Ingress.Rules.{
  Url, Libraries, Service, unix_socket, status_code, hello_world, socks_proxy, bastion,
  http_service, tcp_over_ws, Rule, Ingress, UnvalidatedRule, invalid_status_code, invalid_ip_rule,
  invalid_url, invalid_address, address_with_path, invalid_regexp, Checked, right, wrong, ◌>>=◌,
  from_option, checked, parse_status, is_catch_all, validate_hostname, validate_access,
  is_http_scheme,
}

abbrev checked_rule : IpAccess.Rule × Option AccessError → Checked IpAccess.Rule
checked_rule (r, none) = right r
checked_rule (r, some e) = wrong invalid_ip_rule

abbrev pub mode_bastion : OriginConfig → OriginConfig
mode_bastion cfg = record cfg { bastion_mode = true }

-- The status code after "http_status:", from 100 to 999.
unfoldable pub status_service : Text → Checked Service
status_service text = do
  code ← from_option invalid_status_code (parse_status text)
  a ← checked invalid_status_code (not (ltb code 100 || ltb 999 code))
  right (status_code code)

unfoldable pub url_service : Option Url → Checked Service
url_service parsed = do
  u ← from_option invalid_url parsed
  a ← checked invalid_address (not (is_empty u.scheme || is_empty u.hostname))
  b ← checked address_with_path (is_empty u.path)
  right (if is_http_scheme u.scheme then http_service u else tcp_over_ws u)

abbrev with_config : OriginConfig → Checked Service → Checked (Service × OriginConfig)
with_config cfg s = s >>= λ made. right (made, cfg)

module _ (lib : Libraries) where
  unfoldable pub make_ip_rules : List IngressIpRule → Checked (List IpAccess.Rule)
  make_ip_rules [] = right []
  make_ip_rules (r ∷ rest) =
      checked_rule (new_rule_by_cidr lib.parse_cidr r.prefix r.ports r.allow) >>= λ made.
      make_ip_rules rest >>= λ more. right (made ∷ more)

  unfoldable pub socks_service : List IngressIpRule → Checked Service
  socks_service ip_rules = do
    rules ← make_ip_rules ip_rules
    policy ← from_option invalid_ip_rule (new_policy false rules)
    right (socks_proxy policy)

  -- The service, and whether the rule is in bastion mode because of it.
  unfoldable pub parse_service :
      Text → List IngressIpRule → OriginConfig → Checked (Service × OriginConfig)
  parse_service text ip_rules cfg =
      if has_prefix text (codes "unix:")
      then right (unix_socket (drop 5 text) (codes "http"), cfg)
      else if has_prefix text (codes "unix+tls:")
      then right (unix_socket (drop 9 text) (codes "https"), cfg)
      else if has_prefix text (codes "http_status:")
      then with_config cfg (status_service (drop 12 text))
      else if same_text text (codes "hello-world") || same_text text (codes "hello_world")
      then right (hello_world, cfg)
      else if same_text text (codes "socks-proxy")
      then with_config cfg (socks_service ip_rules)
      else if same_text text (codes "bastion") || cfg.bastion_mode
      then right (bastion, mode_bastion cfg)
      else with_config cfg (url_service (lib.parse_url text))

  unfoldable pub check_access : Option AccessConfig → Checked Bool
  check_access none = right false
  check_access (some access) = validate_access access >>= λ a. right access.required

  abbrev other_than : Text → Option Text → Text
  other_than hostname none = []
  other_than hostname (some ascii) = if same_text ascii hostname then [] else ascii

  unfoldable pub punycode : UnvalidatedRule → Text
  punycode r =
      if is_catch_all r.hostname r.path then [] else other_than r.hostname (lib.to_ascii r.hostname)

  unfoldable pub compile_path : Text → Checked (Option (Text → Bool))
  compile_path [] = right none
  compile_path (c ∷ s) = from_option invalid_regexp (lib.compile (c ∷ s)) >>= λ p. right (some p)

  -- The body of the loop, for the rule at an index.
  unfoldable pub validate_rule : OriginConfig → (index total : ℕ) → UnvalidatedRule → Checked Rule
  validate_rule defaults index total r = do
    made ←
        parse_service r.service r.origin_request.ip_rules
          (set_config lib.parse_cidr defaults r.origin_request)
    verifies ← check_access r.origin_request.access
    a ← validate_hostname r index total
    path ← compile_path r.path
    right (record {
      hostname = r.hostname;
      punycode_hostname = punycode r;
      path = path;
      service = made.0;
      verifies_access = verifies;
      config = made.1;
    })

  unfoldable pub validate_from :
      OriginConfig → (index total : ℕ) → List UnvalidatedRule → Checked (List Rule)
  validate_from defaults index total [] = right []
  validate_from defaults index total (r ∷ rest) = validate_rule defaults index total r >>= λ rule.
      validate_from defaults (index + 1) total rest >>= λ more. right (rule ∷ more)

  unfoldable pub validate_ingress : List UnvalidatedRule → OriginConfig → Checked Ingress
  validate_ingress rules defaults = validate_from defaults 0 (length rules) rules >>= λ made.
      right (record { internal_rules = []; rules = made; defaults = defaults })
