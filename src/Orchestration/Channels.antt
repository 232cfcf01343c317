-- ===== src/Orchestration/Channels.antt =====
-- orchestration/orchestrator.go: the channels that close the origins of a proxy.
use shitflared.Prelude.{
  ℕ, zero, suc, ◌+◌, ◌<◌, ◌≡◌, ◌∙◌, ap, refl, Bool, true, false, List, ◌∷◌, Option, none, some,
  arith, leb, ◌==◌, length, if◌then◌else◌,
}
use shitflared.Ingress.Rules.{Ingress}
use shitflared.Orchestration.{
  Orchestrator, WarpRouting, abandon_origins, override_max_active_flows, update_ingress,
  update_config, close, shutdown,
}

-- `n` updates one behind the other, in each of which an origin does not start.
unfoldable pub failed_updates : ℕ → Orchestrator → ℕ → Ingress → WarpRouting → Orchestrator
failed_updates zero o version rules w = o
failed_updates (suc n) o version rules w =
    failed_updates n (update_config o version (some (rules, w)) false).0 version rules w

failed_update :
    (o : Orchestrator) (version : ℕ) (rules : Ingress) (w v : WarpRouting)
    → o.current_version < version
    → o.shut_down ≡ false
    → override_max_active_flows o.max_active_flows_flag w ≡ some v
    → (update_config o version (some (rules, w)) false).0 ≡ abandon_origins o
unfolding update_config update_ingress
failed_update o version rules w v newer alive flag = not_old (ground arith)
  where
    not_old :
        leb version o.current_version ≡ false
        → (update_config o version (some (rules, w)) false).0 ≡ abandon_origins o
    not_old h = rw (h, alive, flag, update_config, update_ingress) refl

-- The proxy's channel was made before.
abbrev pub IsMade : Orchestrator → Type 0
IsMade o = (c : ℕ) → o.current ≡ some c → c < o.next_channel

close-new :
    (current : Option ℕ) (n : ℕ) (opened : List ℕ)
    → ((c : ℕ) → current ≡ some c → c < n)
    → close current (n ∷ opened) ≡ n ∷ close current opened
close-new none n opened h = refl
close-new (some c) n opened h = other (n == c) (ground (arith, h c refl))
  where
    other :
        (b : Bool)
        → b ≡ false
        → (if b then close (some c) opened else n ∷ close (some c) opened)
          ≡ n ∷ close (some c) opened
    other true e = absurd cc
    other false e = refl

-- Updates in which an origin does not start leak the channels of the origins that did: `n` of them
-- leave `n` more channels open, also when the orchestrator is shut down.
pub failed_updates_leak :
    (n : ℕ) (o : Orchestrator) (version : ℕ) (rules : Ingress) (w v : WarpRouting)
    → o.current_version < version
    → o.shut_down ≡ false
    → override_max_active_flows o.max_active_flows_flag w ≡ some v
    → IsMade o
    → length (shutdown (failed_updates n o version rules w)).opened ≡ length (shutdown o).opened + n
unfolding failed_updates shutdown abandon_origins
failed_updates_leak zero o version rules w v newer alive flag m = omega arith
failed_updates_leak (suc n) o version rules w v newer alive flag m =
    ap (λ p. length (shutdown (failed_updates n p version rules w)).opened)
      (failed_update o version rules w v newer alive flag)
    ∙ (failed_updates_leak n (abandon_origins o) version rules w v newer alive flag
          (λ c h. omega (arith, m c h))
        ∙ omega (arith, ap length (close-new o.current o.next_channel o.opened m)))
