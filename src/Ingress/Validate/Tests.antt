-- ===== src/Ingress/Validate/Tests.antt =====
-- Runs of the theorems on validated rules.
use shitflared.Prelude.{ℕ, ◌≡◌, ◌⊎◌, refl, arith, Bool, List, [], ◌∷◌, none, some, length}
use shitflared.Prelude.Text.{codes, same_text, has_prefix}
use shitflared.Ingress.HostPort.{split_host_port, without_port}
use shitflared.Ingress.Origin.{no_settings, default_config}
use shitflared.Ingress.Origin.Override.{set_config}
use shitflared.Ingress.Rules.{
  Libraries, Rule, Ingress, negsuc, pos, find_matching_rule, UnvalidatedRule, status_code, right,
  parse_status, validate_hostname,
}
use shitflared.Ingress.Rules.Find.{FirstMatch, NoMatch}
use shitflared.Ingress.Validate.{
  status_service, parse_service, check_access, punycode, compile_path, validate_rule, validate_from,
  validate_ingress,
}
use shitflared.Ingress.Validate.Shape.{AllOk, validate_ingress-AllOk, validated_rule_is_found}

-- Libraries that know no URL and no network, and patterns that match a path as it is.
abbrev plain_libraries : Libraries
plain_libraries = record {
  parse_url = λ text. none;
  compile = λ text. some (same_text text);
  parse_cidr = λ text. none;
  to_ascii = λ text. some text;
}

abbrev written : List UnvalidatedRule
written =
    record {
      hostname = codes "*.example.com";
      path = codes "/a";
      service = codes "http_status:200";
      origin_request = no_settings;
    }
    ∷ record {
      hostname = [];
      path = [];
      service = codes "http_status:404";
      origin_request = no_settings;
    }
    ∷ []

abbrev made : Ingress
made = record {
  internal_rules = [];
  rules =
      record {
        hostname = codes "*.example.com";
        punycode_hostname = [];
        path = some (same_text (codes "/a"));
        service = status_code 200;
        verifies_access = Bool.false;
        config = default_config;
      }
      ∷ record {
        hostname = [];
        punycode_hostname = [];
        path = none;
        service = status_code 404;
        verifies_access = Bool.false;
        config = default_config;
      }
      ∷ [];
  defaults = default_config;
}

validate_ingress-made : validate_ingress plain_libraries written default_config ≡ right made
unfolding validate_ingress validate_from validate_rule parse_service status_service parse_status
    check_access punycode compile_path validate_hostname split_host_port set_config same_text
    has_prefix
validate_ingress-made = refl

validate_ingress-AllOk_example : AllOk made.rules × (length made.rules ≡ length written)
validate_ingress-AllOk_example =
    validate_ingress-AllOk plain_libraries written default_config made validate_ingress-made

validated_rule_is_found_example :
    ((r : Rule) × ((i : ℕ) × ((find_matching_rule
              (record made { internal_rules = [] })
              (codes "b.example.com:443")
              (codes "/a")
            ≡ some (r, negsuc i))
          × FirstMatch [] (without_port (codes "b.example.com:443")) (codes "/a") r i)))
    ⊎ (NoMatch [] (without_port (codes "b.example.com:443")) (codes "/a")
        × ((r : Rule) × ((i : ℕ) × ((find_matching_rule
                    (record made { internal_rules = [] })
                    (codes "b.example.com:443")
                    (codes "/a")
                  ≡ some (r, pos i))
                × FirstMatch made.rules
                    (without_port (codes "b.example.com:443"))
                    (codes "/a")
                    r
                    i))))
validated_rule_is_found_example =
    validated_rule_is_found plain_libraries written default_config made []
      (codes "b.example.com:443") (codes "/a") validate_ingress-made (omega arith)
