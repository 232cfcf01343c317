-- ===== src/Supervisor/Loop/Wait.antt =====
-- supervisor/supervisor.go over retry/backoffhandler.go: the backoff of the loop always has a timer.
use native.Mathlib.Nat.{one-le-pow, pow-le-pow_right}
use shitflared.Prelude.{
  ℕ, ◌+◌, ◌*◌, ◌%◌, ◌^◌, ◌≤◌, ◌<◌, ◌≡◌, refl, ap, ◌∙◌, true, false, Option, none, some, arith, leb,
  ◌==◌, if◌then◌else◌, Bool-cases, inl, inr,
}
use shitflared.Retry.{
  Backoff, Timer, fires_within, no_timer, new_backoff, get_base_time, timer_below, start_timer,
  deadline_passed, reset_if_passed, next_retry, backoff_timer, set_grace_period, is_no_bound,
  grace_bound,
}
use shitflared.Retry.Announced.{small}
use shitflared.Supervisor.Loop.{tunnel_retry_duration}

module _ (most : ℕ) where
  -- The backoff of the loop; with more than 29 retries its shift leaves the range of a duration.
  pub record Endless (b : Backoff) : Type 0 where
    pub base : b.base_time ≡ tunnel_retry_duration
    pub forever : b.retry_forever ≡ true
    pub bounded : b.retries ≤ b.max_retries
    pub few : b.max_retries ≤ most
    pub small_enough : most ≤ 29

  pub Endless-new_backoff : most ≤ 29 → Endless (new_backoff most tunnel_retry_duration true)
  unfolding new_backoff
  Endless-new_backoff h = record {
    base = refl;
    forever = refl;
    bounded = omega arith;
    few = omega arith;
    small_enough = h;
  }

  -- A grace period keeps the handler what it is; it can panic with 28 retries or more only.
  abbrev pub Graced : Option Backoff → Type 0
  Graced none = 28 ≤ most
  Graced (some b) = Endless b

  grace_bound_lem :
      (b : Backoff)
      → b.base_time ≡ tunnel_retry_duration
      → grace_bound b ≡ (tunnel_retry_duration * 2 * 2 ^ (b.retries + 1)) % 2 ^ 64
  unfolding grace_bound get_base_time
  grace_bound_lem b e =
      ap (λ base. ((if base == 0 then 1000000000 else base) * 2 * 2 ^ (b.retries + 1)) % 2 ^ 64) e

  in_range :
      (r : ℕ) → r ≤ 27 → is_no_bound ((tunnel_retry_duration * 2 * 2 ^ (r + 1)) % 2 ^ 64) ≡ false
  in_range r h =
      let low : 1 ≤ 2 ^ (r + 1) = one-le-pow (r + 1) 2 (omega arith) in
      let few : r + 1 ≤ 28 = omega (arith, h) in
      let high : 2 ^ (r + 1) ≤ 2 ^ 28 = pow-le-pow_right (omega arith) few in
      ground (arith, low, high)

  pub set_grace_period-Graced :
      (b : Backoff) (now wait : ℕ) → Endless b → Graced (set_grace_period b now wait)
  unfolding set_grace_period
  set_grace_period-Graced b now wait e = elim (Bool-cases (is_no_bound (grace_bound b))) [
    | inl panics ↦ rw panics (
        ground (
          arith,
          e.bounded,
          e.few,
          in_range b.retries,
          ap is_no_bound (grace_bound_lem b e.base),
          panics,
        ))
    | inr positive ↦ rw positive (record {
      base = e.base;
      forever = e.forever;
      bounded = e.bounded;
      few = e.few;
      small_enough = e.small_enough;
    })
  ]

  reset_if_passed-Endless : (b : Backoff) (now : ℕ) → Endless b → Endless (reset_if_passed b now)
  unfolding reset_if_passed
  reset_if_passed-Endless b now e = elim (Bool-cases (deadline_passed b now)) [
    | inl passed ↦ rw passed (record {
      base = e.base;
      forever = e.forever;
      bounded = omega arith;
      few = e.few;
      small_enough = e.small_enough;
    })
    | inr kept ↦ rw kept e
  ]

  within_range :
      (r : ℕ)
      → r ≤ 29
      → (1 ≤ tunnel_retry_duration * 2 ^ r) × (tunnel_retry_duration * 2 ^ r < 2 ^ 63)
  within_range r h =
      let low : 1 ≤ 2 ^ r = one-le-pow r 2 (omega arith) in
      let high : 2 ^ r ≤ 2 ^ 29 = pow-le-pow_right (omega arith) h in
      (omega (arith, low), omega (arith, high))

  start_timer-fires :
      (b : Backoff)
      → Endless b
      → start_timer b ≡ fires_within (tunnel_retry_duration * 2 ^ b.retries)
  unfolding start_timer get_base_time
  start_timer-fires b e =
      ap (λ base. timer_below (((if base == 0 then 1000000000 else base) * 2 ^ b.retries) % 2 ^ 64))
        e.base
      ∙ (let range = within_range b.retries (omega (arith, e.bounded, e.few, e.small_enough)) in
          small (tunnel_retry_duration * 2 ^ b.retries) range.0 range.1)

  -- The timer of the backoff is set, and the handler stays what it is.
  abbrev pub Fires : Backoff × Timer → Type 0
  Fires r = Endless r.0 × ((d : ℕ) × (r.1 ≡ fires_within d))

  next_retry-Fires : (b : Backoff) → Endless b → Fires (next_retry b)
  unfolding next_retry
  next_retry-Fires b e = elim (Bool-cases (leb b.max_retries b.retries)) [
    | inl full ↦ rw full (
      e,
      (
        tunnel_retry_duration * 2 ^ b.retries,
        ap (λ c. if c then start_timer b else no_timer) e.forever ∙ start_timer-fires b e,
      ),
    )
    | inr room ↦
        let next : Endless (record b { retries = b.retries + 1 }) = record {
          base = e.base;
          forever = e.forever;
          bounded = ground arith;
          few = e.few;
          small_enough = e.small_enough;
        } in
        rw room (
          next,
          (
            tunnel_retry_duration * 2 ^ (b.retries + 1),
            start_timer-fires (record b { retries = b.retries + 1 }) next,
          ),
        )
  ]

  pub backoff_timer-Fires : (b : Backoff) (now : ℕ) → Endless b → Fires (backoff_timer b now)
  unfolding backoff_timer
  backoff_timer-Fires b now e =
      next_retry-Fires (reset_if_passed b now) (reset_if_passed-Endless b now e)
