-- ===== src/ProtocolSelection/Percentages.antt =====
-- connection/protocol.go: what the percentages of the TXT record make of the first protocol.
use shitflared.Prelude.{
  ℕ, ◌+◌, ◌≤◌, ◌<◌, ◌≡◌, ◌⊎◌, refl, ap, ◌∙◌, Bool, true, false, List, some, arith, ltb, Bool-cases,
  inl, inr,
}
use shitflared.Prelude.Text.{Text, codes, same_text}
use shitflared.Ingress.Rules.{pos}
use shitflared.Supervisor.Protocol.{Protocol, http2, quic, fallback_of}
use shitflared.ProtocolSelection.{
  ProtocolPercent, Fetched, get_percentage, exceeds, protocol_name, protocol_list, pick_protocol,
  picked, get_protocol, switch_threshold, new_remote, ProtocolSelector, remote_selector, current_of,
  remote_current, fallback, fetched_protocol, new_protocol_selector,
}

-- The percentage of the record is above the threshold.
abbrev pub above : List ProtocolPercent → ℕ → Protocol → Bool
above percents threshold p = exceeds (get_percentage percents (protocol_name p)) threshold

-- The pool of the source makes HTTP2 the protocol if its percentage is above the threshold and that of
-- QUIC is not, and QUIC otherwise; there is no panic.
pub get_protocol_cases :
    (percents : List ProtocolPercent) (threshold : ℕ)
    → ((get_protocol protocol_list (some percents) threshold ≡ picked http2)
        × ((above percents threshold quic ≡ false) × (above percents threshold http2 ≡ true)))
      ⊎ ((get_protocol protocol_list (some percents) threshold ≡ picked quic)
          × ((above percents threshold quic ≡ true) ⊎ (above percents threshold http2 ≡ false)))
unfolding get_protocol pick_protocol
get_protocol_cases percents threshold = elim (Bool-cases (above percents threshold quic)) [
  | inl high ↦ inr (rw high refl, inl high)
  | inr low ↦ elim (Bool-cases (above percents threshold http2)) [
    | inl second ↦ inl (rw (low, second) refl, (low, second))
    | inr neither ↦ inr (rw (low, neither) refl, inr neither)
  ]
]

threshold_bound : (account_tag : Text) → switch_threshold account_tag < 100
unfolding switch_threshold
threshold_bound account_tag = omega arith

auto_current :
    (account_tag : Text) (fetched : Fetched) (ttl now : ℕ) (p : Protocol)
    → get_protocol protocol_list fetched (switch_threshold account_tag) ≡ picked p
    → new_protocol_selector (codes "auto") account_tag false fetched ttl now
      ≡ some (remote_selector (new_remote p protocol_list (switch_threshold account_tag) ttl now))
unfolding new_protocol_selector same_text
auto_current account_tag fetched ttl now p h =
    ap
      (λ q. some (
        remote_selector
          (new_remote (fetched_protocol q) protocol_list (switch_threshold account_tag) ttl now)))
      h

-- Without a flag and a token, a percentage of 100 or more for QUIC makes every account start with QUIC,
-- whatever is fetched until the time to live is over, and with HTTP2 to fall back to.
pub full_percentage_quic :
    (account_tag : Text) (percents : List ProtocolPercent) (ttl now later n : ℕ) (other : Fetched)
    → get_percentage percents (protocol_name quic) ≡ pos n
    → 100 ≤ n
    → later < now + ttl
    → (s : ProtocolSelector) × ((new_protocol_selector
            (codes "auto")
            account_tag
            false
            (some percents)
            ttl
            now
          ≡ some s)
        × ((fallback s ≡ some http2) × ((current_of s later other).1 ≡ some quic)))
unfolding get_protocol pick_protocol fallback fallback_of current_of remote_current new_remote
full_percentage_quic account_tag percents ttl now later n other full h soon =
    let threshold = switch_threshold account_tag in
    let high : above percents threshold quic ≡ true =
      ap (λ z. exceeds z threshold) full ∙ ground (arith, h, threshold_bound account_tag) in
    (
      remote_selector (new_remote quic protocol_list threshold ttl now),
      (
        auto_current account_tag (some percents) ttl now quic (rw high refl),
        (refl, rw (earlier, remote_current) refl),
      ),
    )
  where
    earlier : ltb later (now + ttl) ≡ true
    earlier = ground (arith, soon)
