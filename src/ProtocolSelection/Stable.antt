-- ===== src/ProtocolSelection/Stable.antt =====
-- connection/protocol.go with supervisor/tunnel.go: how long a protocol stays.
use mathlib.Core.Path.{subst}
use mathlib.Core.Option.{some-injective}
use shitflared.Prelude.{
  ℕ, ◌+◌, ◌≤◌, ◌<◌, ◌≡◌, refl, sym, ◌∙◌, Bool, true, false, not, List, [], ◌∷◌, Option, none, some,
  arith, ltb, All, if◌then◌else◌,
}
use shitflared.Prelude.Text.{Text, same_text}
use shitflared.Retry.{Backoff}
use shitflared.Supervisor.Protocol.{
  Protocol, http2, quic, ProtocolFallback, select_next_protocol, try_fallback, fallback_due,
}
use shitflared.ProtocolSelection.{
  Fetched, protocol_name, get_protocol, picked, Picked, Remote, refreshed, remote_current,
  ProtocolSelector, static_selector, current_of, fallback, new_protocol_selector,
}

-- The answers to calls of `Current`, each with its time and what it would fetch.
unfoldable pub answers : Remote → List (ℕ × Fetched) → List (Option Protocol)
answers r [] = []
answers r ((now, fetched) ∷ rest) =
    let after = remote_current r now fetched in after.1 ∷ answers after.0 rest

answers_early :
    (r : Remote) (cs : List (ℕ × Fetched))
    → All (λ c. c.0 < r.refresh_after) cs
    → All (λ a. a ≡ some r.current) (answers r cs)
unfolding answers remote_current
answers_early r [] early = tt
answers_early r ((now, fetched) ∷ rest) early =
    by (ltb now r.refresh_after) (ground (arith, early.0)) (answers_early r rest early.1)
  where
    by :
        (b : Bool)
        → b ≡ true
        → All (λ a. a ≡ some r.current) (answers r rest)
        → let after : Remote × Option Protocol =
            if b
            then (r, some r.current)
            else refreshed r now (get_protocol r.protocol_pool fetched r.switch_threshold) in
          (after.1 ≡ some r.current) × All (λ a. a ≡ some r.current) (answers after.0 rest)
    by true e later = (refl, later)
    by false e later = absurd cc

-- A protocol that `Current` fetched is its answer to all calls within the time to live, whatever these
-- would fetch.
pub answers-remote_current :
    (r : Remote) (now : ℕ) (fetched : Fetched) (p : Protocol) (cs : List (ℕ × Fetched))
    → r.refresh_after ≤ now
    → get_protocol r.protocol_pool fetched r.switch_threshold ≡ picked p
    → All (λ c. c.0 < now + r.ttl) cs
    → All (λ a. a ≡ some p) (answers r ((now, fetched) ∷ cs))
unfolding answers remote_current
answers-remote_current r now fetched p cs due h soon =
    by (ltb now r.refresh_after) (get_protocol r.protocol_pool fetched r.switch_threshold)
      (ground (arith, due)) h
  where
    by :
        (b : Bool) (q : Picked)
        → b ≡ false
        → q ≡ picked p
        → let after : Remote × Option Protocol =
            if b then (r, some r.current) else refreshed r now q in
          (after.1 ≡ some p) × All (λ a. a ≡ some p) (answers after.0 cs)
    by true q e f = absurd cc
    by false q e f =
        subst
          (λ q.
            ((refreshed r now q).1 ≡ some p)
            × All (λ a. a ≡ some p) (answers (refreshed r now q).0 cs))
          (sym f)
          (refl, answers_early (record r { current = p; refresh_after = now + r.ttl }) cs soon)

-- The selector after a call of `Current`, and the protocol fallback of the connection after an attempt,
-- which starts with that call; nothing follows a panic of it.
abbrev tried :
    ProtocolFallback
    → (broken : Bool) → (now : ℕ) → ProtocolSelector × Option Protocol
    → ProtocolSelector × ProtocolFallback
tried pf broken now (s, none) = (s, pf)
tried pf broken now (s, some q) =
    (s, (select_next_protocol pf (record { current = q; fallback = fallback s }) broken now).0)

-- The attempts of a connection, each with whether QUIC is broken, the time and what can be fetched.
unfoldable pub attempts :
    ProtocolSelector → ProtocolFallback → List (Bool × (ℕ × Fetched)) → ProtocolFallback
attempts s pf [] = pf
attempts s pf ((broken, (now, fetched)) ∷ rest) =
    let after = tried pf broken now (current_of s now fetched) in attempts after.0 after.1 rest

-- The protocol fallback that the first connection starts with, from the answer of `Current`.
abbrev pub first_fallback : Backoff → Option Protocol → Option ProtocolFallback
first_fallback b none = none
first_fallback b (some q) = some (record { backoff = b; protocol = q; in_fallback = false })

select_next_protocol-pinned :
    (p : Protocol) (pf : ProtocolFallback) (broken : Bool) (now : ℕ)
    → pf.protocol ≡ p
    → (select_next_protocol pf (record { current = p; fallback = none }) broken now).0.protocol ≡ p
unfolding select_next_protocol try_fallback
select_next_protocol-pinned p pf broken now h =
    by (fallback_due pf (record { current = p; fallback = none }) broken) (not pf.in_fallback)
  where
    by :
        (due free : Bool)
        → let after : ProtocolFallback × Bool =
            if due
            then (pf, false)
            else if free
            then (record pf { protocol = p }, true)
            else (pf, true) in
          after.0.protocol ≡ p
    by true free = h
    by false true = refl
    by false false = h

attempts-pinned :
    (p : Protocol) (pf : ProtocolFallback) (tries : List (Bool × (ℕ × Fetched)))
    → pf.protocol ≡ p
    → (attempts (static_selector p) pf tries).protocol ≡ p
unfolding attempts current_of fallback
attempts-pinned p pf [] h = h
attempts-pinned p pf ((broken, (now, fetched)) ∷ rest) h =
    attempts-pinned p
      (select_next_protocol pf (record { current = p; fallback = none }) broken now).0 rest
      (select_next_protocol-pinned p pf broken now h)

pinned :
    (p : Protocol) (account_tag : Text) (token : Bool) (fetched : Fetched) (ttl now : ℕ)
    → new_protocol_selector (protocol_name p) account_tag token fetched ttl now
      ≡ some (static_selector p)
unfolding new_protocol_selector same_text
pinned http2 account_tag token fetched ttl now = refl
pinned quic account_tag token fetched ttl now = refl

-- With a selector made for a protocol that the user picks, the first connection starts with that
-- protocol, and has it after any attempts, whatever is fetched and however often attempts fail.
pub attempts-new_protocol_selector :
    (p : Protocol) (account_tag : Text) (token : Bool) (fetched : Fetched) (ttl now : ℕ)
    (s : ProtocolSelector) (b : Backoff) (start : ℕ) (other : Fetched)
    (tries : List (Bool × (ℕ × Fetched)))
    → new_protocol_selector (protocol_name p) account_tag token fetched ttl now ≡ some s
    → (pf : ProtocolFallback) × ((first_fallback b (current_of s start other).1 ≡ some pf)
        × ((pf.protocol ≡ p) × ((attempts s pf tries).protocol ≡ p)))
unfolding current_of
attempts-new_protocol_selector p account_tag token fetched ttl now s b start other tries made =
    subst
      (λ s.
        (pf : ProtocolFallback) × ((first_fallback b (current_of s start other).1 ≡ some pf)
          × ((pf.protocol ≡ p) × ((attempts s pf tries).protocol ≡ p))))
      (some-injective (static_selector p) s
        (sym (pinned p account_tag token fetched ttl now) ∙ made))
      (
        record { backoff = b; protocol = p; in_fallback = false },
        (
          refl,
          (
            refl,
            attempts-pinned p (record { backoff = b; protocol = p; in_fallback = false }) tries
                refl,
          ),
        ),
      )
