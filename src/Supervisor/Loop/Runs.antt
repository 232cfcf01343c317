-- ===== src/Supervisor/Loop/Runs.antt =====
-- supervisor/supervisor.go: the states that the loop of `Run` can get to, and its ends.
mod Tests
use mathlib.Core.Path.{subst}
use shitflared.Prelude.{
  ℕ, zero, suc, ◌+◌, ◌-◌, ◌≤◌, ◌<◌, ◌≡◌, ◌⊎◌, refl, sym, ap, ◌∙◌, Bool, true, false, not, ◌&&◌,
  List, [], ◌∷◌, ◌++◌, Option, none, some, arith, ◌==◌, length, length-append, if◌then◌else◌,
  Bool-cases, Option-cases, inl, inr, remove, nat_eq,
}
use shitflared.Retry.{
  Backoff, Timer, fires_within, no_timer, panics, new_backoff, backoff_timer, set_grace_period,
  get_max_backoff_duration,
}
use shitflared.Supervisor.Loop.{
  Loop, Status, going, returned, crashed, blocked, Ending, ends_well, reconnects, fails, Event,
  is_cancelled, tunnel_ended, timer_fired, connected, shuts_down, start_tunnel, start_all, pick,
  next_tunnel, wait_for_next_tunnel, armed_by, arm, retry_later, restart, end_if_none, after_ending,
  take_out, terminated, on_tunnel_error, on_timer, grace_if_idle, on_connected, drain, drained,
  on_cancelled, step, indices, first_tunnel, initialized, tunnel_retry_duration,
}
use shitflared.Supervisor.Loop.Accounts.{
  times, length-start_all, times-start_all, backoff-start_all, waiting-start_all, armed-start_all,
  active-start_all, times-indices, length-indices,
}
use shitflared.Supervisor.Loop.Wait.{Endless, Endless-new_backoff}
use shitflared.Supervisor.Loop.Invariant.{Counted, Inv, Sound, Enabled, step-Sound}

-- The state is reached by passes of the loop, over events of which `P` holds.
pub data Reaches (P : Event → Type 0) (l : Loop) : Loop → Type 0 where
  here : Reaches P l l
  next :
      {m n : Loop}
      → Reaches P l m
      → (e : Event) → P e
      → Enabled e m
      → step e m ≡ (n, going)
      → Reaches P l n

abbrev pub AnyEvent : Event → Type 0
AnyEvent e = Unit

initialized-Inv : (others retries : ℕ) → retries ≤ 29 → Inv retries (initialized others retries)
unfolding initialized times
initialized-Inv others retries h =
    let is = indices 1 others in
    let l = first_tunnel others retries in
    let idle = waiting-start_all is l in
    record {
      counted = record {
        balanced =
            omega (arith, active-start_all is l, length-start_all is l, length-indices 1 others);
        once = λ i.
            let both = times-indices i 1 others in
            ground (arith, times-start_all i is l, ap (times i) idle, both.0, both.1);
        endless =
            subst (Endless retries) (sym (backoff-start_all is l)) (Endless-new_backoff retries h);
      };
      timed = armed-start_all is l ∙ ap (λ w. not (length w == 0)) (sym idle);
    }

-- In every state that the loop gets to, its counter is the number of the tunnels that run, no
-- connection is served twice at a time or waits while it is served, and the backoff timer is set if
-- and only if tunnels wait. There are at most 29 retries.
pub Reaches-initialized-Inv :
    (others retries : ℕ) (l : Loop)
    → retries ≤ 29
    → Reaches AnyEvent (initialized others retries) l
    → Inv retries l
Reaches-initialized-Inv others retries l h here = initialized-Inv others retries h
Reaches-initialized-Inv others retries l h (next {m} r e p on by) =
    subst (Sound retries) by
      (step-Sound retries e m on (Reaches-initialized-Inv others retries m h r))

ends :
    (retries : ℕ) (r : Loop × Status)
    → retries ≤ 27
    → Sound retries r
    → (r.1 ≡ going) ⊎ ((r.1 ≡ returned) × (r.0.running ≡ []))
ends retries (l, going) h s = inl refl
ends retries (l, returned) h s = inr (refl, s)
ends retries (l, crashed) h s = absurd (omega (arith, h, s))
ends retries (l, blocked) h s = absurd s

-- From every state that the loop gets to, any event that can occur leads on, or makes the loop
-- return, with no tunnel left that runs; the loop neither panics nor waits for a tunnel that does not
-- run. There are at most 27 retries; with 28 the bound of the grace period leaves the range of a
-- duration.
pub step-returns_clean :
    (others retries : ℕ) (l : Loop) (e : Event)
    → retries ≤ 27
    → Reaches AnyEvent (initialized others retries) l
    → Enabled e l
    → ((step e l).1 ≡ going) ⊎ (((step e l).1 ≡ returned) × ((step e l).0.running ≡ []))
step-returns_clean others retries l e h r on =
    ends retries (step e l) h
      (step-Sound retries e l on (Reaches-initialized-Inv others retries l (omega (arith, h)) r))
