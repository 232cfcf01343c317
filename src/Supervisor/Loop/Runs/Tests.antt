-- ===== src/Supervisor/Loop/Runs/Tests.antt =====
-- A run of the loop in which one of two tunnels fails.
use shitflared.Prelude.{nat_eq, ℕ, ◌+◌, ◌≤◌, ◌≡◌, ◌⊎◌, refl, arith, true, false, [], insert, remove}
use shitflared.Retry.{
  Backoff, new_backoff, get_max_backoff_duration, get_base_time, deadline_passed, backoff_timer,
  reset_if_passed, next_retry, start_timer, timer_below,
}
use shitflared.Supervisor.Loop.{
  Loop, going, returned, Event, tunnel_ended, fails, is_cancelled, start_tunnel, start_all, pick,
  wait_for_next_tunnel, arm, take_out, terminated, on_tunnel_error, step, initialized,
}
use shitflared.Supervisor.Loop.Accounts.{times}
use shitflared.Supervisor.Loop.Invariant.{Inv}
use shitflared.Supervisor.Loop.Runs.{
  Reaches, here, next, AnyEvent, Reaches-initialized-Inv, step-returns_clean,
}
use shitflared.Supervisor.Loop.Progress.{MayRetry, no_connection_lost}
use shitflared.Supervisor.Loop.Liveness.{NotCancelled, loop_never_stuck}

abbrev tunnel_backoff : Backoff
tunnel_backoff = new_backoff 5 1000000000 true

abbrev one_fails : Event
one_fails = tunnel_ended 1 fails tunnel_backoff false 0 7

abbrev begun : Loop
begun = initialized 1 5

abbrev waits : Loop
waits = (step one_fails begun).0

waits-going : step one_fails begun ≡ (waits, going)
unfolding step on_tunnel_error initialized start_all start_tunnel terminated take_out
    get_max_backoff_duration get_base_time new_backoff deadline_passed wait_for_next_tunnel pick
    remove insert arm backoff_timer reset_if_passed next_retry start_timer timer_below
waits-going = refl

one_runs : 1 ≤ times 1 begun.running
unfolding initialized start_all start_tunnel times
one_runs = omega arith

reached : {P : Event → Type 0} → P one_fails → Reaches P begun waits
reached p = next here one_fails p one_runs waits-going

Reaches-initialized-Inv_example : Inv 5 waits
Reaches-initialized-Inv_example =
    Reaches-initialized-Inv 1 5 waits (omega arith) (reached {P = AnyEvent} tt)

step-returns_clean_example :
    ((step is_cancelled waits).1 ≡ going)
    ⊎ (((step is_cancelled waits).1 ≡ returned) × ((step is_cancelled waits).0.running ≡ []))
step-returns_clean_example =
    step-returns_clean 1 5 waits is_cancelled (omega arith) (reached {P = AnyEvent} tt) tt

one_fails-MayRetry : MayRetry one_fails
unfolding new_backoff
one_fails-MayRetry = (λ h. absurd cc, (refl, refl))

no_connection_lost_example : times 1 waits.running + times 1 waits.waiting ≡ 1
no_connection_lost_example =
    no_connection_lost 1 5 1 waits (omega arith) (reached {P = MayRetry} one_fails-MayRetry)

one_fails-NotCancelled : NotCancelled one_fails
unfolding new_backoff
one_fails-NotCancelled = (refl, refl)

loop_never_stuck_example : ((i : ℕ) × (1 ≤ times i waits.running)) ⊎ (waits.armed ≡ true)
loop_never_stuck_example =
    loop_never_stuck 1 5 waits (omega arith) (reached {P = NotCancelled} one_fails-NotCancelled)
