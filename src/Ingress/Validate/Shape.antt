-- ===== src/Ingress/Validate/Shape.antt =====
-- ingress/ingress.go: what rules have that passed validation.
use mathlib.Core.Path.{subst}
use shitflared.Prelude.{
  ℕ, suc, ◌+◌, ◌≤◌, ◌⊎◌, ◌≡◌, refl, sym, ◌∙◌, ap, Bool, true, false, not, ◌&&◌, ◌||◌, List, [], ◌∷◌,
  Option, none, some, arith, length, ◌==◌,
}
use shitflared.Prelude.Text.{Text, codes, same_text, is_empty}
use shitflared.Ingress.HostPort.{last_index_of, split_host_port, without_port}
use shitflared.Ingress.Origin.{OriginConfig}
use shitflared.Ingress.Origin.Override.{set_config}
use shitflared.Ingress.Rules.{
  Libraries, Service, Rule, Ingress, negsuc, pos, find_matching_rule, UnvalidatedRule, IngressError,
  Checked, right, wrong, ◌>>=◌, from_option, checked, is_catch_all, has_later, split_fails,
  validate_hostname, hostname_contains_port, bad_wildcard, last_rule_not_catch_all,
  rule_is_catch_all, invalid_regexp,
}
use shitflared.Ingress.Rules.Find.{
  no_path, catches_all, EndsCatchingAll, FirstMatch, NoMatch, find_matching_rule_first,
}
use shitflared.Ingress.Validate.Wildcard.{OnlyInFront, has_later-OnlyInFront}
use shitflared.Ingress.Validate.{
  parse_service, check_access, punycode, compile_path, validate_rule, validate_from,
  validate_ingress,
}

abbrev value_or {ℓ} : {A : Type ℓ} → A → Checked A → A
value_or d (right a) = a
value_or d (wrong e) = d

right-injective {ℓ} : {A : Type ℓ} {a b : A} → right a ≡ right b → a ≡ b
right-injective {a = a} h = ap (value_or a) h

-- What is true of a hostname at its place in the list.
pub record HostnameOk (hostname : Text) (last all : Bool) : Type 0 where
  pub no_port : split_host_port hostname ≡ none
  pub wildcard : OnlyInFront 42 hostname
  pub last_is_catch_all : last ≡ all

split_fails-none : (o : Option (Text × Text)) → split_fails o ≡ true → o ≡ none
split_fails-none none h = refl
split_fails-none (some hp) h = absurd cc

all_checked :
    (e f g k : IngressError) (a b c d : Bool) {u : Unit {0}}
    → (checked e a >>= λ x. checked f b >>= λ y. checked g c >>= λ z. checked k d) ≡ right u
    → (a ≡ true) × ((b ≡ true) × ((c ≡ true) × (d ≡ true)))
all_checked e f g k true true true true h = (refl, (refl, (refl, refl)))
all_checked e f g k true true true false h = absurd cc
all_checked e f g k true true false d h = absurd cc
all_checked e f g k true false c d h = absurd cc
all_checked e f g k false b c d h = absurd cc

validate_hostname-HostnameOk :
    (r : UnvalidatedRule) (index total : ℕ) {u : Unit {0}}
    → validate_hostname r index total ≡ right u
    → HostnameOk r.hostname (index + 1 == total) (is_catch_all r.hostname r.path)
unfolding validate_hostname
validate_hostname-HostnameOk r index total h =
    let all =
      all_checked hostname_contains_port bad_wildcard last_rule_not_catch_all rule_is_catch_all
        (split_fails (split_host_port r.hostname)) (not (has_later (last_index_of 42 r.hostname)))
        (not (index + 1 == total) || is_catch_all r.hostname r.path)
        ((index + 1 == total) || not (is_catch_all r.hostname r.path)) h in
    record {
      no_port = split_fails-none (split_host_port r.hostname) all.0;
      wildcard = has_later-OnlyInFront 42 r.hostname (ground (arith, all.1.0));
      last_is_catch_all =
          agree (index + 1 == total) (is_catch_all r.hostname r.path) all.1.1.0 all.1.1.1;
    }
  where
    agree : (a b : Bool) → (not a || b) ≡ true → (a || not b) ≡ true → a ≡ b
    agree true true h k = refl
    agree true false h k = absurd cc
    agree false true h k = absurd cc
    agree false false h k = refl

compile_path-no_path :
    (lib : Libraries) (text : Text) {p : Option (Text → Bool)}
    → compile_path lib text ≡ right p
    → no_path p ≡ is_empty text
unfolding compile_path
compile_path-no_path lib [] h = ap no_path (sym (right-injective h))
compile_path-no_path lib (c ∷ s) {p} h = compiled (lib.compile (c ∷ s)) h
  where
    compiled :
        (o : Option (Text → Bool))
        → (from_option invalid_regexp o >>= λ q. right (some q)) ≡ right p
        → no_path p ≡ false
    compiled none h = absurd cc
    compiled (some q) h = ap no_path (sym (right-injective h))

module _ (lib : Libraries) (defaults : OriginConfig) (r : UnvalidatedRule) where
  abbrev made_rule : Service × OriginConfig → Bool → Option (Text → Bool) → Rule
  made_rule made verifies path = record {
    hostname = r.hostname;
    punycode_hostname = punycode lib r;
    path = path;
    service = made.0;
    verifies_access = verifies;
    config = made.1;
  }

  -- The steps of the loop's body that came to a rule.
  made_by :
      (s : Checked (Service × OriginConfig)) (v : Checked Bool) (host : Checked (Unit {0}))
      (p : Checked (Option (Text → Bool))) (rule : Rule)
      → (s >>= λ made.
          v >>= λ verifies. host >>= λ a. p >>= λ path. right (made_rule made verifies path))
        ≡ right rule
      → (host ≡ right tt)
        × ((q : Option (Text → Bool)) × ((p ≡ right q)
              × ((rule.hostname ≡ r.hostname) × (rule.path ≡ q))))
  made_by (right m) (right v) (right tt) (right q) rule h =
      let e = right-injective h in
      (refl, (q, (refl, (ap (λ x. x.hostname) (sym e), ap (λ x. x.path) (sym e)))))
  made_by (right m) (right v) (right tt) (wrong e) rule h = absurd cc
  made_by (right m) (right v) (wrong e) p rule h = absurd cc
  made_by (right m) (wrong e) host p rule h = absurd cc
  made_by (wrong e) v host p rule h = absurd cc

  validate_rule-HostnameOk :
      (index total : ℕ) (rule : Rule)
      → validate_rule lib defaults index total r ≡ right rule
      → HostnameOk rule.hostname (index + 1 == total) (catches_all rule)
  unfolding validate_rule
  validate_rule-HostnameOk index total rule h =
      let by =
        made_by
          (parse_service lib r.service r.origin_request.ip_rules
            (set_config lib.parse_cidr defaults r.origin_request))
          (check_access lib r.origin_request.access) (validate_hostname r index total)
          (compile_path lib r.path) rule h in
      let ok = validate_hostname-HostnameOk r index total by.0 in
      let host = by.1.1.1.0 in
      let pathless = ap no_path by.1.1.1.1 ∙ compile_path-no_path lib r.path by.1.1.0 in
      record {
        no_port = ap split_host_port host ∙ ok.no_port;
        wildcard = subst (OnlyInFront 42) (sym host) ok.wildcard;
        last_is_catch_all =
            ok.last_is_catch_all
            ∙ (ap (λ b. (is_empty r.hostname || same_text r.hostname (codes "*")) && b)
                  (sym pathless)
                ∙ ap (λ t. (is_empty t || same_text t (codes "*")) && no_path rule.path)
                    (sym host));
      }

-- Each rule has a hostname that is fine at its place, with `left` rules from it to the end.
abbrev pub AllOk : List Rule → Type 0
AllOk [] = Unit
AllOk (r ∷ rest) = HostnameOk r.hostname (length rest == 0) (catches_all r) × AllOk rest

cons_by :
    (a : Checked Rule) (b : Checked (List Rule)) (rules : List Rule)
    → (a >>= λ rule. b >>= λ more. right (rule ∷ more)) ≡ right rules
    → (rule : Rule) × ((more : List Rule) × ((a ≡ right rule)
          × ((b ≡ right more) × (rules ≡ rule ∷ more))))
cons_by (right rule) (right more) rules h = (rule, (more, (refl, (refl, sym (right-injective h)))))
cons_by (right rule) (wrong e) rules h = absurd cc
cons_by (wrong e) b rules h = absurd cc

validate_from-AllOk :
    (lib : Libraries) (defaults : OriginConfig) (index total : ℕ) (raw : List UnvalidatedRule)
    (rules : List Rule)
    → index + length raw ≡ total
    → validate_from lib defaults index total raw ≡ right rules
    → AllOk rules × (length rules ≡ length raw)
unfolding validate_from
validate_from-AllOk lib defaults index total [] rules n h =
    subst (λ rs. AllOk rs × (length rs ≡ 0)) (right-injective h) (tt, refl)
validate_from-AllOk lib defaults index total (r ∷ raw) rules n h =
    let rest =
      validate_from-AllOk lib defaults (index + 1) total raw by.1.0 (omega arith) by.1.1.1.0 in
    subst (λ rs. AllOk rs × (length rs ≡ suc (length raw))) (sym by.1.1.1.1)
      (
        (
          subst (λ b. HostnameOk by.0.hostname b (catches_all by.0)) (place by.1.0 rest.1)
              (validate_rule-HostnameOk lib defaults r index total by.0 by.1.1.0),
          rest.0,
        ),
        ap suc rest.1,
      )
  where
    by :
        (rule : Rule) × ((more : List Rule) × ((validate_rule lib defaults index total r
              ≡ right rule)
            × ((validate_from lib defaults (index + 1) total raw ≡ right more)
                × (rules ≡ rule ∷ more))))
    by =
        cons_by (validate_rule lib defaults index total r)
          (validate_from lib defaults (index + 1) total raw) rules h

    place :
        (more : List Rule) → length more ≡ length raw → (index + 1 == total) ≡ (length more == 0)
    place more l = ground (arith, n, l)

made_ingress :
    (m : Checked (List Rule)) (defaults : OriginConfig) (ing : Ingress)
    → (m >>= λ made. right (record { internal_rules = []; rules = made; defaults = defaults }))
      ≡ right ing
    → m ≡ right ing.rules
made_ingress (right made) defaults ing h = ap (λ x. right x.rules) (right-injective h)
made_ingress (wrong e) defaults ing h = absurd cc

-- Validation makes one rule of each that the user wrote. No hostname has a port, a "*" stands only in
-- front, and exactly the last rule is for every hostname and path.
pub validate_ingress-AllOk :
    (lib : Libraries) (raw : List UnvalidatedRule) (defaults : OriginConfig) (ing : Ingress)
    → validate_ingress lib raw defaults ≡ right ing
    → AllOk ing.rules × (length ing.rules ≡ length raw)
unfolding validate_ingress
validate_ingress-AllOk lib raw defaults ing h =
    validate_from-AllOk lib defaults 0 (length raw) raw ing.rules (omega arith)
      (made_ingress (validate_from lib defaults 0 (length raw) raw) defaults ing h)

pub AllOk-EndsCatchingAll :
    (rules : List Rule) → AllOk rules → 1 ≤ length rules → EndsCatchingAll rules
AllOk-EndsCatchingAll [] ok n = absurd (omega arith)
AllOk-EndsCatchingAll (r ∷ []) ok n = sym ok.0.last_is_catch_all
AllOk-EndsCatchingAll (r ∷ q ∷ rest) ok n = AllOk-EndsCatchingAll (q ∷ rest) ok.1 (omega arith)

-- With rules that passed validation, at least one, and any internal rules in front of them, a rule is
-- found for every request: the first internal rule that matches its hostname without the port, under a
-- negative index, or, where none of these does, the first of the users' rules that matches.
pub validated_rule_is_found :
    (lib : Libraries) (raw : List UnvalidatedRule) (defaults : OriginConfig) (ing : Ingress)
    (internal : List Rule) (hostname path : Text)
    → validate_ingress lib raw defaults ≡ right ing
    → 1 ≤ length raw
    → ((r : Rule) × ((i : ℕ) × ((find_matching_rule
                (record ing { internal_rules = internal })
                hostname
                path
              ≡ some (r, negsuc i))
            × FirstMatch internal (without_port hostname) path r i)))
      ⊎ (NoMatch internal (without_port hostname) path
          × ((r : Rule) × ((i : ℕ) × ((find_matching_rule
                      (record ing { internal_rules = internal })
                      hostname
                      path
                    ≡ some (r, pos i))
                  × FirstMatch ing.rules (without_port hostname) path r i))))
validated_rule_is_found lib raw defaults ing internal hostname path h n =
    let ok = validate_ingress-AllOk lib raw defaults ing h in
    find_matching_rule_first (record ing { internal_rules = internal }) hostname path
      (AllOk-EndsCatchingAll ing.rules ok.0 (omega (arith, ok.1)))
