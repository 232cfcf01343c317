-- ===== src/Retry/Announced.antt =====
-- retry/backoffhandler.go: the wait that is announced against the wait that follows.
use shitflared.Prelude.{
  ℕ, ◌+◌, ◌*◌, ◌%◌, ◌^◌, ◌≤◌, ◌<◌, ◌≡◌, refl, ◌∙◌, ap, Bool, true, false, not, ◌&&◌, ◌||◌, some,
  arith, leb, ◌==◌, if◌then◌else◌,
}
use native.Mathlib.Numerals.{unary_clauses}
use shitflared.Retry.{
  Backoff, Timer, panics, fires_within, get_base_time, deadline_passed, timer_below, start_timer,
  reset_if_passed, next_retry, backoff_timer, get_max_backoff_duration,
}

-- The bound of a timer that does fire.
abbrev pub bound_of : Timer → ℕ
bound_of (fires_within d) = d
bound_of _ = 0

unwrapped : (k : ℕ) → k < 2 ^ 63 → k % 2 ^ 64 ≡ k
unwrapped k high = omega arith

pub small : (k : ℕ) → 1 ≤ k → k < 2 ^ 63 → timer_below (k % 2 ^ 64) ≡ fires_within k
unfolding timer_below
small k low high =
    ap (λ m. if m == 0 || leb (2 ^ 63) m then panics else fires_within m) (unwrapped k high)
    ∙ chosen (k == 0 || leb (2 ^ 63) k) (ground arith)
  where
    chosen : (b : Bool) → b ≡ false → (if b then panics else fires_within k) ≡ fires_within k
    chosen true h = absurd cc
    chosen false h = refl

reset-live : (b : Backoff) (now : ℕ) → deadline_passed b now ≡ false → reset_if_passed b now ≡ b
unfolding reset_if_passed
reset-live b now live = rw live refl

timer-room :
    (b : Backoff) (now : ℕ)
    → deadline_passed b now ≡ false
    → leb b.max_retries b.retries ≡ false
    → (backoff_timer b now).1 ≡ start_timer (record b { retries = b.retries + 1 })
unfolding backoff_timer next_retry
timer-room b now live room =
    ap (λ x. (next_retry x).1) (reset-live b now live) ∙ rw (next_retry, room) refl

timer-full :
    (b : Backoff) (now : ℕ)
    → deadline_passed b now ≡ false
    → leb b.max_retries b.retries ≡ true
    → b.retry_forever ≡ true
    → (backoff_timer b now).1 ≡ start_timer b
unfolding backoff_timer next_retry
timer-full b now live full forever =
    ap (λ x. (next_retry x).1) (reset-live b now live) ∙ rw (next_retry, full, forever) refl

announced :
    (b : Backoff) (now : ℕ)
    → deadline_passed b now ≡ false
    → (leb b.max_retries b.retries && not b.retry_forever) ≡ false
    → get_max_backoff_duration b false now ≡ some ((get_base_time b * 2 ^ (b.retries + 1)) % 2 ^ 64)
unfolding get_max_backoff_duration
announced b now live more = rw (live, more) refl

-- Before the end of a grace period, and with retries left, the wait that is announced is the bound of
-- the timer that follows, unless the shift overflows.
pub announced_is_timer :
    (b : Backoff) (now : ℕ)
    → deadline_passed b now ≡ false
    → b.retries < b.max_retries
    → 1 ≤ get_base_time b * 2 ^ (b.retries + 1)
    → get_base_time b * 2 ^ (b.retries + 1) < 2 ^ 63
    → (d : ℕ) × ((get_max_backoff_duration b false now ≡ some d)
        × ((backoff_timer b now).1 ≡ fires_within d))
unfolding start_timer get_base_time
announced_is_timer b now live room low high = (
  get_base_time b * 2 ^ (b.retries + 1),
  (
    announced b now live (ground arith)
        ∙ ap (λ k. some k) (unwrapped (get_base_time b * 2 ^ (b.retries + 1)) high),
    timer-room b now live (ground arith) ∙ small (get_base_time b * 2 ^ (b.retries + 1)) low high,
  ),
)

twice : (a r : ℕ) → a * 2 ^ (r + 1) ≡ a * 2 ^ r * 2
twice a r = simp unary_clauses (omega arith)

-- Once the retries are used up and the handler retries forever, the wait that is announced is twice the
-- bound of the timer that follows, unless the shift overflows.
pub announced_forever_doubles :
    (b : Backoff) (now : ℕ)
    → deadline_passed b now ≡ false
    → b.max_retries ≤ b.retries
    → b.retry_forever ≡ true
    → 1 ≤ get_base_time b * 2 ^ b.retries
    → get_base_time b * 2 ^ b.retries * 2 < 2 ^ 63
    → (d : ℕ) × (((backoff_timer b now).1 ≡ fires_within d)
        × (get_max_backoff_duration b false now ≡ some (d * 2)))
unfolding start_timer
announced_forever_doubles b now live full forever low high = (
  get_base_time b * 2 ^ b.retries,
  (
    timer-full b now live (ground arith) forever
        ∙ small (get_base_time b * 2 ^ b.retries) low (omega arith),
    announced b now live (ground (arith, forever))
        ∙ (ap (λ k. some (k % 2 ^ 64)) (twice (get_base_time b) b.retries)
            ∙ ap (λ k. some k) (unwrapped (get_base_time b * 2 ^ b.retries * 2) high)),
  ),
)
