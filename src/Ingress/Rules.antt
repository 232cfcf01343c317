-- ===== src/Ingress/Rules.antt =====
-- ingress/rule.go and ingress/ingress.go: the rules that send a request to an origin.
pub mod Host
pub mod Find
mod Tests
use shitflared.Prelude.{
  ℕ, zero, suc, ◌+◌, ◌-◌, ◌*◌, Bool, true, false, not, ◌&&◌, ◌||◌, List, [], ◌∷◌, Option, none,
  some, drop, length, leb, ltb, ◌==◌, if◌then◌else◌,
}
use shitflared.Prelude.Text.{Text, codes, same_text, has_prefix, is_empty}
use shitflared.IpAccess.{IpNet, Policy, AccessError, new_rule_by_cidr, new_policy}
use shitflared.IpAccess
use shitflared.Ingress.HostPort.{last_index_of, split_host_port, without_port}
use shitflared.Ingress.Origin.{OriginConfig, RawConfig, IngressIpRule, AccessConfig}
use shitflared.Ingress.Origin.Override.{set_config}

-- A parsed URL, as far as the package reads it.
pub record Url : Type 0 where
  pub scheme : Text
  pub hostname : Text
  pub path : Text

-- Code that the rules call: `url.Parse`, `regexp.Compile` with `MatchString`, `net.ParseCIDR`, and
-- `idna.Lookup.ToASCII`; `none` is an error.
pub record Libraries : Type 0 where
  pub parse_url : Text → Option Url
  pub compile : Text → Option (Text → Bool)
  pub parse_cidr : Text → Option IpNet
  pub to_ascii : Text → Option Text

pub data Service : Type 0 where
  unix_socket : (path scheme : Text) → Service
  status_code : ℕ → Service
  hello_world : Service
  socks_proxy : Policy → Service
  bastion : Service
  http_service tcp_over_ws : Url → Service

pub record Rule : Type 0 where
  pub hostname : Text
  pub punycode_hostname : Text
  pub path : Option (Text → Bool)
  pub service : Service
  pub verifies_access : Bool  -- whether `Handlers` has the verifier
  pub config : OriginConfig

-- `strings.HasSuffix`.
unfoldable pub has_suffix : Text → Text → Bool
has_suffix s t = leb (length t) (length s) && same_text (drop (length s - length t) s) t

-- Behind the "*" of a wildcard.
unfoldable pub match_host : Text → Text → Bool
match_host rule_host req_host =
    if same_text rule_host req_host
    then true
    else if has_prefix rule_host (codes "*.")
    then has_suffix req_host (drop 1 rule_host)
    else false

abbrev pub path_matches : Option (Text → Bool) → Text → Bool
path_matches none path = true
path_matches (some regexp) path = regexp path

unfoldable pub matches : Rule → Text → Text → Bool
matches r hostname path =
    let host_match =
      if is_empty r.hostname || same_text r.hostname (codes "*")
      then true
      else match_host r.hostname hostname in
    let punycode_match =
      not (is_empty r.punycode_hostname) && match_host r.punycode_hostname hostname in
    (host_match || punycode_match) && path_matches r.path path

pub record Ingress : Type 0 where
  pub internal_rules : List Rule
  pub rules : List Rule
  pub defaults : OriginConfig

-- An index of a rule: `negsuc i` is `-1 - i`.
pub data ℤ : Type 0 where
  pos negsuc : ℕ → ℤ

-- The loop over a list of rules, from its index `i`.
unfoldable pub find_from : ℕ → List Rule → Text → Text → Option (Rule × ℕ)
find_from i [] hostname path = none
find_from i (r ∷ rest) hostname path =
    let later = find_from (i + 1) rest hostname path in
    if matches r hostname path then some (r, i) else later

-- `ing.Rules[len(ing.Rules)-1]`, which panics (`none`) where there are no rules.
abbrev pub last_rule : ℕ → List Rule → Option (Rule × ℤ)
last_rule i [] = none
last_rule i (r ∷ []) = some (r, pos i)
last_rule i (r ∷ q ∷ rest) = last_rule (i + 1) (q ∷ rest)

abbrev pub found_user : Option (Rule × ℕ) → List Rule → Option (Rule × ℤ)
found_user (some (r, i)) rules = some (r, pos i)
found_user none rules = last_rule 0 rules

abbrev pub found_internal : Option (Rule × ℕ) → Option (Rule × ℤ) → Option (Rule × ℤ)
found_internal (some (r, i)) otherwise = some (r, negsuc i)
found_internal none otherwise = otherwise

unfoldable pub find_matching_rule : Ingress → Text → Text → Option (Rule × ℤ)
find_matching_rule ing hostname path =
    found_internal (find_from 0 ing.internal_rules (without_port hostname) path)
      (found_user (find_from 0 ing.rules (without_port hostname) path) ing.rules)

pub record UnvalidatedRule : Type 0 where
  pub hostname : Text
  pub path : Text
  pub service : Text
  pub origin_request : RawConfig

pub data IngressError : Type 0 where
  no_ingress_rules invalid_status_code invalid_ip_rule invalid_url invalid_address : IngressError
  address_with_path no_team_name hostname_contains_port bad_wildcard : IngressError
  last_rule_not_catch_all rule_is_catch_all invalid_regexp : IngressError

-- A value, or the error that the source returns.
pub data Checked {ℓ} (A : Type ℓ) : Type ℓ where
  right : A → Checked A
  wrong : IngressError → Checked A

infixl 5 ◌>>=◌
abbrev pub ◌>>=◌ {ℓ κ} : {A : Type ℓ} {B : Type κ} → Checked A → (A → Checked B) → Checked B
right a >>= f = f a
wrong e >>= f = wrong e

abbrev pub from_option {ℓ} : {A : Type ℓ} → IngressError → Option A → Checked A
from_option e none = wrong e
from_option e (some a) = right a

abbrev pub checked : IngressError → Bool → Checked (Unit {0})
checked e true = right tt
checked e false = wrong e

-- `strconv.Atoi` on a status code: decimal digits behind a sign. A negative number is out of the range
-- of codes anyway, and so is one that overflows.
abbrev digits : ℕ → Text → Option ℕ
digits n [] = some n
digits n (c ∷ s) = if leb 48 c && leb c 57 then digits (n * 10 + (c - 48)) s else none

abbrev number : Text → Option ℕ
number [] = none
number (c ∷ s) = digits 0 (c ∷ s)

unfoldable pub parse_status : Text → Option ℕ
parse_status [] = none
parse_status (c ∷ s) = if c == 43 then number s else number (c ∷ s)

abbrev pub is_catch_all : Text → Text → Bool
is_catch_all hostname path = (is_empty hostname || same_text hostname (codes "*")) && is_empty path

abbrev pub has_later : Option ℕ → Bool
has_later none = false
has_later (some i) = ltb 0 i

abbrev pub split_fails : Option (Text × Text) → Bool
split_fails none = true
split_fails (some hp) = false

unfoldable pub validate_hostname : UnvalidatedRule → (index total : ℕ) → Checked (Unit {0})
validate_hostname r index total = do
  a ← checked hostname_contains_port (split_fails (split_host_port r.hostname))
  b ← checked bad_wildcard (not (has_later (last_index_of 42 r.hostname)))
  c ← checked last_rule_not_catch_all (not (index + 1 == total) || is_catch_all r.hostname r.path)
  checked rule_is_catch_all ((index + 1 == total) || not (is_catch_all r.hostname r.path))

unfoldable pub validate_access : AccessConfig → Checked (Unit {0})
validate_access cfg =
    checked no_team_name
      (not cfg.required || not (is_empty cfg.team_name && ltb 0 (length cfg.aud_tag)))

abbrev pub is_http_scheme : Text → Bool
is_http_scheme s =
    same_text s (codes "http")
    || same_text s (codes "https")
    || same_text s (codes "ws")
    || same_text s (codes "wss")
