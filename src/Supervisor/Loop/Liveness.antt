-- ===== src/Supervisor/Loop/Liveness.antt =====
-- supervisor/supervisor.go: the loop always has an event to wait for.
use mathlib.Core.Path.{subst}
use shitflared.Prelude.{
  ℕ, ◌≤◌, ◌≡◌, ◌⊎◌, refl, sym, ap, ◌∙◌, Bool, true, false, not, List, [], ◌∷◌, some, arith, ◌==◌,
  length, if◌then◌else◌, Bool-cases, inl, inr, nat_eq,
}
use shitflared.Retry.{get_max_backoff_duration}
use shitflared.Supervisor.Loop.{
  Loop, Status, going, returned, crashed, blocked, Ending, ends_well, reconnects, fails, Event,
  is_cancelled, tunnel_ended, timer_fired, connected, shuts_down, start_tunnel, retry_later,
  restart, end_if_none, after_ending, terminated, on_tunnel_error, on_connected, step, initialized,
}
use shitflared.Supervisor.Loop.Accounts.{times}
use shitflared.Supervisor.Loop.Invariant.{Enabled, Inv, terminated-Ended}
use shitflared.Supervisor.Loop.Runs.{Reaches, here, next, AnyEvent, Reaches-initialized-Inv}
use shitflared.Supervisor.Loop.Progress.{
  served, waits_forever, retry_later-Again, on_timer-Same, on_connected-Same, initialized-served,
}

-- Nothing is cancelled, and the backoff of a tunnel retries forever.
abbrev pub NotCancelled : Event → Type 0
NotCancelled is_cancelled = ⊥
NotCancelled (tunnel_ended index ending fallback cancelled choice now) =
    (cancelled ≡ false) × (fallback.retry_forever ≡ true)
NotCancelled timer_fired = Unit
NotCancelled (connected choice now wait) = Unit
NotCancelled shuts_down = Unit

-- Some tunnel runs or waits, unless the loop has ended.
abbrev Lively : Loop × Status → Type 0
Lively (l, going) = (i : ℕ) × (1 ≤ served i l)
Lively (l, returned) = Unit
Lively (l, crashed) = Unit
Lively (l, blocked) = Unit

lively : (r : Loop × Status) (i : ℕ) → 1 ≤ served i r.0 → Lively r
lively (l, going) i h = (i, h)
lively (l, returned) i h = tt
lively (l, crashed) i h = tt
lively (l, blocked) i h = tt

times-head : (list : List ℕ) → 1 ≤ length list → (i : ℕ) × (1 ≤ times i list)
unfolding times
times-head [] h = absurd (omega (arith, h))
times-head (i ∷ rest) h = (i, ground arith)

end_if_none-Lively : {most : ℕ} (l : Loop) → Inv most l → Lively (end_if_none l)
end_if_none-Lively l v = elim (Bool-cases (l.active == 0)) [
  | inl last ↦ rw last tt
  | inr more ↦
      let i = times-head l.running (ground (arith, v.counted.balanced)) in
      rw more (i.0, omega (arith, i.1))
]

after_ending-Lively :
    {most : ℕ} (ending : Ending) (d index choice now : ℕ) (l : Loop)
    → Inv most l
    → Lively (after_ending ending (some d) index choice now l)
unfolding restart start_tunnel times
after_ending-Lively ends_well d index choice now l v = end_if_none-Lively l v
after_ending-Lively reconnects d index choice now l v = by l.shutting_down
  where
    by : (b : Bool) → Lively (if b then end_if_none l else (restart index l, going))
    by true = end_if_none-Lively l v
    by false = (index, ground arith)
after_ending-Lively fails d index choice now l v = by l.shutting_down
  where
    by : (b : Bool) → Lively (if b then end_if_none l else retry_later (some d) index choice now l)
    by true = end_if_none-Lively l v
    by false =
        lively (retry_later (some d) index choice now l) index
          (ground (arith, (retry_later-Again d index choice now l).0 index))

step-Lively :
    {most : ℕ} (e : Event) (l : Loop)
    → NotCancelled e
    → Enabled e l
    → Inv most l
    → (i : ℕ) × (1 ≤ served i l)
    → Lively (step e l)
unfolding step on_tunnel_error
step-Lively is_cancelled l p on v some_one = absurd p
step-Lively {most = most} (tunnel_ended index ending fallback cancelled choice now) l p on v
      some_one =
    let w = waits_forever fallback now p.1 in
    let m = terminated index l in
    subst
      (λ c.
        Lively (after_ending ending (get_max_backoff_duration fallback c now) index choice now m))
      (sym p.0)
      (subst (λ o. Lively (after_ending ending o index choice now m)) (sym w.1)
        (after_ending-Lively ending w.0 index choice now m
          (terminated-Ended most index l v on).ended_inv))
step-Lively timer_fired l p on v (i, h) = (i, omega (arith, h, (on_timer-Same l).0 i))
step-Lively (connected choice now wait) l p on v (i, h) =
    lively (on_connected choice now wait l) i
      (omega (arith, h, (on_connected-Same choice now wait l).0 i))
step-Lively shuts_down l p on v (i, h) = (i, h)

any_event : {l m : Loop} → Reaches NotCancelled l m → Reaches AnyEvent l m
any_event here = here
any_event (next r e p on by) = next (any_event r) e tt on by

Reaches-Lively :
    (others retries : ℕ) (l : Loop)
    → retries ≤ 29
    → Reaches NotCancelled (initialized others retries) l
    → (i : ℕ) × (1 ≤ served i l)
Reaches-Lively others retries l h here =
    (0, ground (arith, initialized-served 0 others retries (omega arith)))
Reaches-Lively others retries l h (next {m} r e p on by) = subst Lively by (
    step-Lively e m p on (Reaches-initialized-Inv others retries m h (any_event r))
      (Reaches-Lively others retries m h r))

-- As long as nothing is cancelled, the loop has something to wait for, also while it shuts down: a
-- tunnel runs, whose end it receives, or the backoff timer is set. There are at most 29 retries.
pub loop_never_stuck :
    (others retries : ℕ) (l : Loop)
    → retries ≤ 29
    → Reaches NotCancelled (initialized others retries) l
    → ((i : ℕ) × (1 ≤ times i l.running)) ⊎ (l.armed ≡ true)
unfolding times
loop_never_stuck others retries l h r =
    let v = Reaches-initialized-Inv others retries l h (any_event r) in
    let one = Reaches-Lively others retries l h r in
    elim (Bool-cases (length l.waiting == 0)) [
      | inl none_waits ↦
          inl (one.0, omega (arith, one.1, ap (times one.0) (nothing l.waiting (ground arith))))
      | inr waits ↦ inr (v.timed ∙ ap not waits)
    ]
  where
    nothing : (list : List ℕ) → length list ≡ 0 → list ≡ []
    nothing [] e = refl
    nothing (i ∷ list) e = absurd (omega (arith, e))
