-- ===== src/Supervisor/Protocol.antt =====
-- supervisor/tunnel.go: the protocol of a connection's next attempt (protocolFallback), over the
-- retries of retry/backoffhandler.go; connection/protocol.go: the protocols.
mod Tests
use shitflared.Prelude.{
  ℕ, ◌≡◌, refl, sym, ◌∙◌, ap, Bool, true, false, not, ◌&&◌, ◌||◌, List, [], ◌∷◌, Option, none, some,
  arith, ◌==◌, if◌then◌else◌, Bool-cases, inl, inr,
}
use shitflared.Retry.{Backoff, reset_now, reached_max_retries}

pub data Protocol : Type 0 where
  http2 quic : Protocol

abbrev pub same_protocol : Protocol → Protocol → Bool
same_protocol http2 http2 = true
same_protocol quic quic = true
same_protocol _ _ = false

unfoldable pub fallback_of : Protocol → Option Protocol
fallback_of http2 = none
fallback_of quic = some http2

-- What a `ProtocolSelector` answers at the time of the call.
pub record Selector : Type 0 where
  pub current : Protocol
  pub fallback : Option Protocol

pub record ProtocolFallback : Type 0 where
  pub backoff : Backoff
  pub protocol : Protocol
  pub in_fallback : Bool

unfoldable pub reset : ProtocolFallback → ℕ → ProtocolFallback
reset pf now = record pf { backoff = reset_now pf.backoff now; in_fallback = false }

unfoldable pub fall_back : ProtocolFallback → Protocol → ℕ → ProtocolFallback
fall_back pf p now = record { backoff = reset_now pf.backoff now; protocol = p; in_fallback = true }

abbrev has {ℓ} : {A : Type ℓ} → Option A → Bool
has none = false
has (some a) = true

-- The branch in which a fallback is due.
unfoldable pub try_fallback : ProtocolFallback → Option Protocol → ℕ → ProtocolFallback × Bool
try_fallback pf none now = (pf, false)
try_fallback pf (some p) now =
    if same_protocol pf.protocol p then (pf, false) else (fall_back pf p now, true)

abbrev pub fallback_due : ProtocolFallback → Selector → Bool → Bool
fallback_due pf selector quic_broken =
    reached_max_retries pf.backoff || (has selector.fallback && quic_broken)

unfoldable pub select_next_protocol :
    ProtocolFallback → Selector → (quic_broken : Bool) → (now : ℕ) → ProtocolFallback × Bool
select_next_protocol pf selector quic_broken now =
    if fallback_due pf selector quic_broken
    then try_fallback pf selector.fallback now
    else if not pf.in_fallback
    then (record pf { protocol = selector.current }, true)
    else (pf, true)

select_due :
    (pf : ProtocolFallback) (selector : Selector) (broken : Bool) (now : ℕ)
    → fallback_due pf selector broken ≡ true
    → select_next_protocol pf selector broken now ≡ try_fallback pf selector.fallback now
unfolding select_next_protocol
select_due pf selector broken now due =
    ap
      (λ b.
        if b
        then try_fallback pf selector.fallback now
        else (if not pf.in_fallback
            then (record pf { protocol = selector.current }, true)
            else (pf, true)))
      due

same_protocol_refl : (p : Protocol) → same_protocol p p ≡ true
same_protocol_refl http2 = refl
same_protocol_refl quic = refl

-- Where a fallback is due and the connection does not use the fallback protocol yet, it changes to that
-- protocol with its retries reset; if a fallback is due again, there is none left and nothing changes.
pub fallback_once :
    (pf : ProtocolFallback) (selector : Selector) (p : Protocol) (broken again : Bool)
    (now later : ℕ)
    → selector.fallback ≡ some p
    → same_protocol pf.protocol p ≡ false
    → fallback_due pf selector broken ≡ true
    → fallback_due (fall_back pf p now) selector again ≡ true
    → (select_next_protocol pf selector broken now ≡ (fall_back pf p now, true))
      × (select_next_protocol (fall_back pf p now) selector again later
          ≡ (fall_back pf p now, false))
unfolding try_fallback fall_back
fallback_once pf selector p broken again now later has_p other due due_again = (
  select_due pf selector broken now due
      ∙ (ap (λ o. try_fallback pf o now) has_p ∙ rw (other, try_fallback) refl),
  select_due (fall_back pf p now) selector again later due_again
      ∙ (ap (λ o. try_fallback (fall_back pf p now) o later) has_p
          ∙ rw (same_protocol_refl p, try_fallback) refl),
)
