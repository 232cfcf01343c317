-- ===== src/Supervisor/Loop/Progress.antt =====
-- supervisor/supervisor.go: the loop gives no connection up.
use mathlib.Core.Path.{subst}
use shitflared.Prelude.{
  ℕ, ◌+◌, ◌*◌, ◌^◌, ◌%◌, ◌≤◌, ◌≡◌, ◌≢◌, refl, sym, ap, ◌∙◌, Bool, true, false, not, ◌&&◌, [], ◌∷◌,
  ◌++◌, Option, none, some, arith, leb, ◌==◌, length, if◌then◌else◌, Bool-cases, inl, inr, remove,
  nat_eq,
}
use shitflared.Retry.{
  Backoff, Timer, fires_within, no_timer, panics, backoff_timer, set_grace_period,
  get_max_backoff_duration, deadline_passed, default_base_time, get_base_time,
}
use shitflared.Supervisor.Loop.{
  Loop, going, Ending, ends_well, reconnects, fails, Event, is_cancelled, tunnel_ended, timer_fired,
  connected, shuts_down, start_tunnel, pick, next_tunnel, wait_for_next_tunnel, armed_by, arm,
  retry_later, restart, end_if_none, after_ending, terminated, on_tunnel_error, on_timer, graced,
  grace_if_idle, on_connected, step, indices, first_tunnel, initialized,
}
use shitflared.Supervisor.Loop.Accounts.{
  times, times-append, times-take_out, times-start_all, waiting-start_all, shutting_down-start_all,
  times-indices, times-indices_in,
}
use shitflared.Supervisor.Loop.Invariant.{Enabled}
use shitflared.Supervisor.Loop.Runs.{Reaches, here, next}

-- A tunnel that ended may be retried: there is an error, and the context of its backoff, which retries
-- forever, is not cancelled. No shutdown is asked for.
abbrev pub MayRetry : Event → Type 0
MayRetry is_cancelled = ⊥
MayRetry (tunnel_ended index ending fallback cancelled choice now) =
    (ending ≢ ends_well) × ((cancelled ≡ false) × (fallback.retry_forever ≡ true))
MayRetry timer_fired = Unit
MayRetry (connected choice now wait) = Unit
MayRetry shuts_down = ⊥

-- How often an index runs or waits.
abbrev pub served : ℕ → Loop → ℕ
served i l = times i l.running + times i l.waiting

abbrev pub Same : Loop → Loop → Type 0
Same l m = ((i : ℕ) → served i m ≡ served i l) × (m.shutting_down ≡ l.shutting_down)

pub waits_forever :
    (b : Backoff) (now : ℕ)
    → b.retry_forever ≡ true
    → (d : ℕ) × (get_max_backoff_duration b false now ≡ some d)
unfolding get_max_backoff_duration
waits_forever b now h = elim (Bool-cases (deadline_passed b now)) [
  | inl passed ↦ (default_base_time, rw passed refl)
  | inr live ↦
      let more : (leb b.max_retries b.retries && not b.retry_forever) ≡ false = ground arith in
      ((get_base_time b * 2 ^ (b.retries + 1)) % 2 ^ 64, rw (live, more) refl)
]

arm-Same : (now : ℕ) (l : Loop) → Same l (arm now l).0
unfolding arm
arm-Same now l = chosen l.armed
  where
    by : (r : Backoff × Timer) → Same l (armed_by l r).0
    by (b, no_timer) = (λ i. refl, refl)
    by (b, panics) = (λ i. refl, refl)
    by (b, fires_within d) = (λ i. refl, refl)

    chosen :
        (b : Bool) → Same l (if b then (l, going) else armed_by l (backoff_timer l.backoff now)).0
    chosen true = (λ i. refl, refl)
    chosen false = by (backoff_timer l.backoff now)

wait_for_next_tunnel-Same :
    (index choice : ℕ) (l : Loop) → Same l (wait_for_next_tunnel index choice l).0
unfolding wait_for_next_tunnel
wait_for_next_tunnel-Same index choice l = by (pick choice (remove index l.connecting))
  where
    by :
        (o : Option (ℕ × ℕ))
        → Same l (next_tunnel o (record l { connecting = remove index l.connecting })).0
    by none = (λ i. refl, refl)
    by (some other) = (λ i. refl, refl)

-- The tunnel that ended starts again at once, or waits.
abbrev pub Again : ℕ → Loop → Loop → Type 0
Again index l m =
    ((i : ℕ) → served i m ≡ (if i == index then 1 else 0) + served i l)
    × (m.shutting_down ≡ l.shutting_down)

pub retry_later-Again :
    (d index choice now : ℕ) (l : Loop) → Again index l (retry_later (some d) index choice now l).0
unfolding times
retry_later-Again d index choice now l =
    let queued = record l { waiting = l.waiting ++ (index ∷ []) } in
    let waits = wait_for_next_tunnel-Same index choice queued in
    let set = arm-Same now (wait_for_next_tunnel index choice queued).0 in
    (
      λ i. set.0 i ∙ (waits.0 i ∙ ground (arith, times-append i l.waiting (index ∷ []))),
      set.1 ∙ waits.1,
    )

pub after_ending-Again :
    (ending : Ending) (d index choice now : ℕ) (l : Loop)
    → ending ≢ ends_well
    → l.shutting_down ≡ false
    → Again index l (after_ending ending (some d) index choice now l).0
unfolding restart start_tunnel times
after_ending-Again ends_well d index choice now l e h = absurd (e refl)
after_ending-Again reconnects d index choice now l e h =
    subst (λ b. Again index l (if b then end_if_none l else (restart index l, going)).0) (sym h)
      (λ i. ground arith, refl)
after_ending-Again fails d index choice now l e h =
    subst
      (λ b. Again index l (if b then end_if_none l else retry_later (some d) index choice now l).0)
      (sym h) (retry_later-Again d index choice now l)

pub on_timer-Same : (l : Loop) → Same l (on_timer l)
unfolding on_timer times
on_timer-Same l =
    (λ i. omega (arith, times-start_all i l.waiting l), shutting_down-start_all l.waiting l)

pub on_connected-Same : (choice now wait : ℕ) (l : Loop) → Same l (on_connected choice now wait l).0
unfolding on_connected
on_connected-Same choice now wait l =
    by (wait_for_next_tunnel l.next_index choice l)
      (wait_for_next_tunnel-Same l.next_index choice l)
  where
    with_grace : (m : Loop) (o : Option Backoff) → Same l m → Same l (graced m o).0
    with_grace m none s = s
    with_grace m (some b) s = s

    by : (r : Loop × Bool) → Same l r.0 → Same l (grace_if_idle now wait r).0
    by (m, more) s = elim (Bool-cases (not more && (length m.waiting == 0))) [
      | inl idle ↦ rw idle (with_grace m (set_grace_period m.backoff now wait) s)
      | inr busy ↦ rw busy s
    ]

on_tunnel_error-Same :
    (index : ℕ) (ending : Ending) (fallback : Backoff) (choice now : ℕ) (l : Loop)
    → ending ≢ ends_well
    → fallback.retry_forever ≡ true
    → 1 ≤ times index l.running
    → l.shutting_down ≡ false
    → Same l (on_tunnel_error index ending fallback false choice now l).0
unfolding on_tunnel_error terminated
on_tunnel_error-Same index ending fallback choice now l e forever h down =
    let w = waits_forever fallback now forever in
    let m = terminated index l in
    let a : Again index m
        (after_ending ending (get_max_backoff_duration fallback false now) index choice now m).0 =
      subst (λ o. Again index m (after_ending ending o index choice now m).0) (sym w.1)
        (after_ending-Again ending w.0 index choice now m e down) in
    (λ i. a.0 i ∙ omega (arith, times-take_out i index l.running h), a.1)

step-Same :
    (e : Event) (l : Loop)
    → MayRetry e
    → Enabled e l
    → l.shutting_down ≡ false
    → Same l (step e l).0
unfolding step
step-Same is_cancelled l m on down = absurd m
step-Same (tunnel_ended index ending fallback cancelled choice now) l m on down =
    subst (λ c. Same l (on_tunnel_error index ending fallback c choice now l).0) (sym m.1.0)
      (on_tunnel_error-Same index ending fallback choice now l m.0 m.1.1 on down)
step-Same timer_fired l m on down = on_timer-Same l
step-Same (connected choice now wait) l m on down = on_connected-Same choice now wait l
step-Same shuts_down l m on down = absurd m

Reaches-Same : {l m : Loop} → l.shutting_down ≡ false → Reaches MayRetry l m → Same l m
Reaches-Same down here = (λ i. refl, refl)
Reaches-Same {l} down (next {m} r e p on by) =
    let before = Reaches-Same down r in
    let now = step-Same e m p on (before.1 ∙ down) in
    let after = subst (λ s. Same m s.0) by now in (λ i. after.0 i ∙ before.0 i, after.1 ∙ before.1)

pub initialized-served :
    (i others retries : ℕ) → i ≤ others → served i (initialized others retries) ≡ 1
unfolding initialized times
initialized-served i others retries h =
    let is = indices 1 others in
    let l = first_tunnel others retries in
    ground (
      arith,
      times-start_all i is l,
      ap (times i) (waiting-start_all is l),
      times-indices_in i 1 others,
      (times-indices i 1 others).1,
    )

-- As long as no shutdown is asked for, nothing is cancelled, and tunnels end with errors only, every
-- one of the connections either is served or waits for the timer.
pub no_connection_lost :
    (others retries i : ℕ) (l : Loop)
    → i ≤ others
    → Reaches MayRetry (initialized others retries) l
    → times i l.running + times i l.waiting ≡ 1
unfolding initialized
no_connection_lost others retries i l h r =
    (Reaches-Same (shutting_down-start_all (indices 1 others) (first_tunnel others retries)) r).0 i
    ∙ initialized-served i others retries h
