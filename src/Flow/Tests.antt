-- ===== src/Flow/Tests.antt =====
-- Runs of the limiter, and its theorems at concrete limits.
use shitflared.Prelude.{◌≤◌, ◌≡◌, refl, false, List, [], ◌∷◌, some, none, arith}
use shitflared.Flow.{Limiter, too_many_active_flows, new_limiter, acquire}
use shitflared.Flow.Bounds.{Call, acquires, releases, sets_limit, run, run-new_limiter_bounded}

abbrev full : Limiter
full = record { active_flows = 2; max_active_flows = 2; unlimited = false }

abbrev half_full : Limiter
half_full = record { active_flows = 1; max_active_flows = 2; unlimited = false }

full_refuses : acquire full ≡ (full, some too_many_active_flows)
unfolding acquire
full_refuses = refl

unlimited_admits : (acquire (new_limiter 0)).1 ≡ none
unfolding acquire new_limiter
unlimited_admits = refl

abbrev calls : List Call
calls = acquires ∷ acquires ∷ sets_limit 1 ∷ acquires ∷ releases ∷ acquires ∷ []

run-new_limiter_bounded_example : (run (new_limiter 3) calls).active_flows ≤ 3
run-new_limiter_bounded_example =
    run-new_limiter_bounded 3 3 calls (omega arith) (omega arith) (omega arith)
