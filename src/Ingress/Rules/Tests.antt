-- ===== src/Ingress/Rules/Tests.antt =====
-- Runs of the theorem on patterns, and tests of the definitions.
use shitflared.Prelude.{◌≡◌, ◌↔◌, ◌⊎◌, ◌++◌, refl, true, some, none}
use shitflared.Prelude.Text.{Text, codes}
use shitflared.Ingress.HostPort.{split_host_port}
use shitflared.Ingress.Rules.{match_host, parse_status}
use shitflared.Ingress.Rules.Host.{match_host_iff}

with_port : split_host_port (codes "a.example:80") ≡ some (codes "a.example", codes "80")
unfolding split_host_port
with_port = refl

ip6_with_port : split_host_port (codes "[::1]:80") ≡ some (codes "::1", codes "80")
unfolding split_host_port
ip6_with_port = refl

two_colons : split_host_port (codes "::1") ≡ none
unfolding split_host_port
two_colons = refl

status_404 : parse_status (codes "404") ≡ some 404
unfolding parse_status
status_404 = refl

match_host_iff_example : (match_host (codes "*.example.com") (codes "a.example.com") ≡ true) ↔ (
    (codes "*.example.com" ≡ codes "a.example.com")
    ⊎ ((domain : Text) × ((codes "*.example.com" ≡ codes "*." ++ domain)
          × ((p : Text) × (codes "a.example.com" ≡ p ++ (codes "." ++ domain))))))
match_host_iff_example = match_host_iff (codes "*.example.com") (codes "a.example.com")
