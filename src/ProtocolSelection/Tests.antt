-- ===== src/ProtocolSelection/Tests.antt =====
-- Runs of the theorems on protocols.
use shitflared.Prelude.{ℕ, ◌%◌, ◌≡◌, refl, arith, Bool, true, false, List, [], ◌∷◌, none, some}
use shitflared.Prelude.Text.{codes, same_text}
use shitflared.Ingress.Rules.{pos, negsuc}
use shitflared.Retry.{new_backoff}
use shitflared.Supervisor.Protocol.{http2, quic, ProtocolFallback}
use shitflared.ProtocolSelection.{
  Fetched, ProtocolPercent, get_percentage, get_protocol, pick_protocol, picked, protocol_list,
  switch_threshold, Remote, new_remote, ProtocolSelector, static_selector, current_of, fallback,
  new_protocol_selector,
}
use shitflared.ProtocolSelection.Percentages.{full_percentage_quic}
use shitflared.ProtocolSelection.Stable.{first_fallback, attempts, attempts-new_protocol_selector}

abbrev record_of : ℕ → ℕ → List ProtocolPercent
record_of q h =
    record { protocol = codes "HTTP2"; percentage = pos h }
    ∷ record { protocol = codes "quic"; percentage = pos q }
    ∷ record { protocol = codes "quic"; percentage = negsuc 0 }
    ∷ []

-- The hash of the source's library: `fnv32a("a")` is 0xe40c292c.
hash_a : switch_threshold (codes "a") ≡ 3826002220 % 100
unfolding switch_threshold
hash_a = refl

record_quic : get_percentage (record_of 100 60) (codes "quic") ≡ pos 100
unfolding get_percentage same_text
record_quic = refl

full_percentage_quic_example :
    (s : ProtocolSelector) × ((new_protocol_selector
          (codes "auto")
          (codes "tag")
          false
          (some (record_of 100 60))
          3600
          5
        ≡ some s)
      × ((fallback s ≡ some http2) × ((current_of s 100 none).1 ≡ some quic)))
full_percentage_quic_example =
    full_percentage_quic (codes "tag") (record_of 100 60) 3600 5 100 100 none record_quic
      (omega arith) (omega arith)

abbrev remote : Remote
remote = new_remote http2 protocol_list 50 3600 0

remote_picks :
    get_protocol remote.protocol_pool (some (record_of 70 0)) remote.switch_threshold ≡ picked quic
unfolding new_remote get_protocol pick_protocol get_percentage same_text
remote_picks = refl

pins_quic :
    new_protocol_selector (codes "quic") (codes "tag") true none 3600 5
    ≡ some (static_selector quic)
unfolding new_protocol_selector same_text
pins_quic = refl

abbrev two_tries : List (Bool × (ℕ × Fetched))
two_tries = (true, (6, none)) ∷ (false, (7, none)) ∷ []

attempts-new_protocol_selector_example :
    (pf : ProtocolFallback) × ((first_fallback
          (new_backoff 0 1000000000 true)
          (current_of (static_selector quic) 6 none).1
        ≡ some pf)
      × ((pf.protocol ≡ quic) × ((attempts (static_selector quic) pf two_tries).protocol ≡ quic)))
attempts-new_protocol_selector_example =
    attempts-new_protocol_selector quic (codes "tag") true none 3600 5 (static_selector quic)
      (new_backoff 0 1000000000 true) 6 none two_tries pins_quic
