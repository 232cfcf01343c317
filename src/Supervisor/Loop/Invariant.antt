-- ===== src/Supervisor/Loop/Invariant.antt =====
-- supervisor/supervisor.go: what every pass of the loop of `Run` keeps.
use mathlib.Core.Path.{subst}
use shitflared.Prelude.{
  ℕ, ◌+◌, ◌≤◌, ◌≡◌, refl, sym, ap, ◌∙◌, Bool, true, false, not, ◌&&◌, List, [], ◌∷◌, ◌++◌, Option,
  none, some, arith, ◌==◌, length, length-append, if◌then◌else◌, Bool-cases, inl, inr, remove,
  nat_eq,
}
use shitflared.Retry.{
  Backoff, Timer, fires_within, no_timer, panics, backoff_timer, set_grace_period,
  get_max_backoff_duration,
}
use shitflared.Supervisor.Loop.{
  Loop, Status, going, returned, crashed, blocked, Ending, ends_well, reconnects, fails, Event,
  is_cancelled, tunnel_ended, timer_fired, connected, shuts_down, start_tunnel, pick, next_tunnel,
  wait_for_next_tunnel, armed_by, arm, retry_later, restart, end_if_none, after_ending, terminated,
  on_tunnel_error, on_timer, graced, grace_if_idle, on_connected, drain, drained, on_cancelled,
  step,
}
use shitflared.Supervisor.Loop.Accounts.{
  times, times-append, times-take_out, length-take_out, length-start_all, times-start_all,
  backoff-start_all, drain-length,
}
use shitflared.Supervisor.Loop.Wait.{
  Endless, Graced, set_grace_period-Graced, Fires, backoff_timer-Fires,
}

-- The event can occur.
abbrev pub Enabled : Event → Loop → Type 0
Enabled (tunnel_ended index ending fallback cancelled choice now) l = 1 ≤ times index l.running
Enabled timer_fired l = l.armed ≡ true
Enabled (connected choice now wait) l = (signal : ℕ) × (l.next_signal ≡ some signal)
Enabled is_cancelled l = Unit
Enabled shuts_down l = Unit

empty : (list : List ℕ) → length list ≡ 0 → list ≡ []
empty [] h = refl
empty (i ∷ list) h = absurd (omega (arith, h))

module _ (most : ℕ) where
  -- What holds while an index may lack from the tunnels that wait or a timer from those that do.
  pub record Counted (l : Loop) : Type 0 where
    pub balanced : l.active ≡ length l.running
    pub once : (i : ℕ) → times i l.running + times i l.waiting ≤ 1
    pub endless : Endless most l.backoff

  -- The counter is that of the goroutines, an index is not served twice nor waits while it is served,
  -- and the timer is set while tunnels wait.
  pub record Inv (l : Loop) : Type 0 where
    pub counted : Counted l
    pub timed : l.armed ≡ not (length l.waiting == 0)

  -- What a pass of the loop comes to; it can panic with 28 retries or more only.
  abbrev pub Sound : Loop × Status → Type 0
  Sound (l, going) = Inv l
  Sound (l, returned) = l.running ≡ []
  Sound (l, crashed) = 28 ≤ most
  Sound (l, blocked) = ⊥

  end_if_none-Sound : (l : Loop) → Inv l → Sound (end_if_none l)
  end_if_none-Sound l v = elim (Bool-cases (l.active == 0)) [
    | inl last ↦ rw last (empty l.running (ground (arith, v.counted.balanced)))
    | inr more ↦ rw more v
  ]

  arm-Sound : (now : ℕ) (l : Loop) → Counted l → 1 ≤ length l.waiting → Sound (arm now l)
  unfolding arm
  arm-Sound now l c w = chosen l.armed refl
    where
      by : (r : Backoff × Timer) → Fires most r → Sound (armed_by l r)
      by (b, no_timer) f = absurd (cc f.1.1)
      by (b, panics) f = absurd (cc f.1.1)
      by (b, fires_within d) f = record {
        counted = record { balanced = c.balanced; once = c.once; endless = f.0 };
        timed = ground (arith, w);
      }

      chosen :
          (b : Bool)
          → l.armed ≡ b
          → Sound (if b then (l, going) else armed_by l (backoff_timer l.backoff now))
      chosen true e = record { counted = c; timed = e ∙ ground (arith, w) }
      chosen false e =
          by (backoff_timer l.backoff now) (backoff_timer-Fires most l.backoff now c.endless)

  -- Waiting for the next signal changes nothing else.
  abbrev Unchanged : Loop → Loop → Type 0
  Unchanged l m = Counted m × ((m.waiting ≡ l.waiting) × (m.armed ≡ l.armed))

  wait_for_next_tunnel-Unchanged :
      (index choice : ℕ) (l : Loop)
      → Counted l
      → Unchanged l (wait_for_next_tunnel index choice l).0
  unfolding wait_for_next_tunnel
  wait_for_next_tunnel-Unchanged index choice l c = by (pick choice (remove index l.connecting))
    where
      by :
          (o : Option (ℕ × ℕ))
          → Unchanged l (next_tunnel o (record l { connecting = remove index l.connecting })).0
      by none = (record { balanced = c.balanced; once = c.once; endless = c.endless }, (refl, refl))
      by (some next) =
          (record { balanced = c.balanced; once = c.once; endless = c.endless }, (refl, refl))

  -- After the end of a tunnel of the index nothing else runs or waits under it.
  pub record Ended (index : ℕ) (l : Loop) : Type 0 where
    pub ended_inv : Inv l
    pub gone : times index l.running + times index l.waiting ≡ 0

  pub terminated-Ended :
      (index : ℕ) (l : Loop) → Inv l → 1 ≤ times index l.running → Ended index (terminated index l)
  unfolding terminated
  terminated-Ended index l v h = record {
    ended_inv = record {
      counted = record {
        balanced = omega (arith, v.counted.balanced, length-take_out index l.running h);
        once = λ i. ground (arith, times-take_out i index l.running h, v.counted.once i);
        endless = v.counted.endless;
      };
      timed = v.timed;
    };
    gone = ground (arith, times-take_out index index l.running h, v.counted.once index);
  }

  restart-Inv : (index : ℕ) (l : Loop) → Ended index l → Inv (restart index l)
  unfolding restart start_tunnel times
  restart-Inv index l e = record {
    counted = record {
      balanced = omega (arith, e.ended_inv.counted.balanced);
      once = λ i. elim (Bool-cases (i == index)) [
        | inl same ↦ rw same (
            let at : i ≡ index = ground arith in
            omega (arith, e.gone, ap (λ k. times k l.running + times k l.waiting) at))
        | inr other ↦ rw other (omega (arith, e.ended_inv.counted.once i))
      ];
      endless = e.ended_inv.counted.endless;
    };
    timed = e.ended_inv.timed;
  }

  queued-Counted :
      (index : ℕ) (l : Loop)
      → Ended index l
      → Counted (record l { waiting = l.waiting ++ (index ∷ []) })
  unfolding times
  queued-Counted index l e = record {
    balanced = e.ended_inv.counted.balanced;
    once = λ i. elim (Bool-cases (i == index)) [
      | inl same ↦
          let at : i ≡ index = ground arith in
          ground (
            arith,
            times-append i l.waiting (index ∷ []),
            e.gone,
            ap (λ k. times k l.running + times k l.waiting) at,
          )
      | inr other ↦
          ground (arith, times-append i l.waiting (index ∷ []), e.ended_inv.counted.once i)
    ];
    endless = e.ended_inv.counted.endless;
  }

  retry_later-Sound :
      (wait : Option ℕ) (index choice now : ℕ) (l : Loop)
      → Ended index l
      → Sound (retry_later wait index choice now l)
  retry_later-Sound none index choice now l e = e.ended_inv
  retry_later-Sound (some d) index choice now l e =
      let queued = record l { waiting = l.waiting ++ (index ∷ []) } in
      let u = wait_for_next_tunnel-Unchanged index choice queued (queued-Counted index l e) in
      arm-Sound now (wait_for_next_tunnel index choice queued).0 u.0
        (omega (arith, ap (λ w. length w) u.1.0, length-append l.waiting (index ∷ [])))

  after_ending-Sound :
      (ending : Ending) (wait : Option ℕ) (index choice now : ℕ) (l : Loop)
      → Ended index l
      → Sound (after_ending ending wait index choice now l)
  after_ending-Sound ends_well wait index choice now l e = end_if_none-Sound l e.ended_inv
  after_ending-Sound reconnects wait index choice now l e = by l.shutting_down
    where
      by : (b : Bool) → Sound (if b then end_if_none l else (restart index l, going))
      by true = end_if_none-Sound l e.ended_inv
      by false = restart-Inv index l e
  after_ending-Sound fails wait index choice now l e = by l.shutting_down
    where
      by : (b : Bool) → Sound (if b then end_if_none l else retry_later wait index choice now l)
      by true = end_if_none-Sound l e.ended_inv
      by false = retry_later-Sound wait index choice now l e

  on_timer-Inv : (l : Loop) → Inv l → Inv (on_timer l)
  unfolding on_timer times
  on_timer-Inv l v = record {
    counted = record {
      balanced = omega (arith, v.counted.balanced, length-start_all l.waiting l);
      once = λ i. omega (arith, v.counted.once i, times-start_all i l.waiting l);
      endless = subst (Endless most) (sym (backoff-start_all l.waiting l)) v.counted.endless;
    };
    timed = refl;
  }

  on_connected-Sound :
      (choice now wait : ℕ) (l : Loop) → Inv l → Sound (on_connected choice now wait l)
  unfolding on_connected
  on_connected-Sound choice now wait l v =
      by (wait_for_next_tunnel l.next_index choice l)
        (wait_for_next_tunnel-Unchanged l.next_index choice l v.counted)
    where
      with_grace :
          (m : Loop) (o : Option Backoff)
          → Counted m
          → m.armed ≡ not (length m.waiting == 0)
          → Graced most o
          → Sound (graced m o)
      with_grace m none c kept g = g
      with_grace m (some b) c kept g = record {
        counted = record { balanced = c.balanced; once = c.once; endless = g };
        timed = kept;
      }

      by : (r : Loop × Bool) → Unchanged l r.0 → Sound (grace_if_idle now wait r)
      by (m, more) u = elim (Bool-cases (not more && (length m.waiting == 0))) [
        | inl idle ↦ rw idle (
            with_grace m (set_grace_period m.backoff now wait) u.0 kept
              (set_grace_period-Graced most m.backoff now wait u.0.endless))
        | inr busy ↦ rw busy (record { counted = u.0; timed = kept })
      ]
        where
          kept : m.armed ≡ not (length m.waiting == 0)
          kept = u.1.1 ∙ (v.timed ∙ ap (λ w. not (length w == 0)) (sym u.1.0))

  on_cancelled-Sound : (l : Loop) → Inv l → Sound (on_cancelled l)
  unfolding on_cancelled
  on_cancelled-Sound l v =
      by (drain l.active l.running)
        (ap (λ n. drain n l.running) v.counted.balanced ∙ drain-length l.running)
    where
      by : (left : Option (List ℕ)) → left ≡ some [] → Sound (drained l left)
      by none e = absurd cc
      by (some left) e = ground (arith, e)

  -- Every pass of the loop keeps the invariant, or returns when no goroutine is left.
  pub step-Sound : (e : Event) (l : Loop) → Enabled e l → Inv l → Sound (step e l)
  unfolding step on_tunnel_error
  step-Sound is_cancelled l h v = on_cancelled-Sound l v
  step-Sound (tunnel_ended index ending fallback cancelled choice now) l h v =
      after_ending-Sound ending (get_max_backoff_duration fallback cancelled now) index choice now
        (terminated index l) (terminated-Ended index l v h)
  step-Sound timer_fired l h v = on_timer-Inv l v
  step-Sound (connected choice now wait) l h v = on_connected-Sound choice now wait l v
  step-Sound shuts_down l h v = record {
    counted = record {
      balanced = v.counted.balanced;
      once = v.counted.once;
      endless = v.counted.endless;
    };
    timed = v.timed;
  }
