-- ===== src/Retry.antt =====
-- retry/backoffhandler.go: retries with an exponential backoff. A duration is the 64-bit pattern of its
-- nanoseconds, so that a shift wraps as in Go; the time and the random choice are arguments.
pub mod Bounds
pub mod Announced
mod Tests
use shitflared.Prelude.{
  ℕ, suc, ◌+◌, ◌*◌, ◌%◌, ◌^◌, Bool, true, false, not, ◌&&◌, ◌||◌, Option, none, some, leb, ltb,
  ◌==◌, if◌then◌else◌,
}

-- `reset_deadline` is `none` where the source has the zero time.
pub record Backoff : Type 0 where
  pub max_retries : ℕ
  pub retry_forever : Bool
  pub base_time : ℕ
  pub retries : ℕ
  pub reset_deadline : Option ℕ

abbrev pub default_base_time : ℕ
default_base_time = 1000000000

unfoldable pub new_backoff : ℕ → ℕ → Bool → Backoff
new_backoff max base forever = record {
  max_retries = max;
  retry_forever = forever;
  base_time = base;
  retries = 0;
  reset_deadline = none;
}

unfoldable pub get_base_time : Backoff → ℕ
get_base_time b = if b.base_time == 0 then default_base_time else b.base_time

abbrev pub is_after : ℕ → Option ℕ → Bool
is_after now none = false
is_after now (some deadline) = ltb deadline now

unfoldable pub deadline_passed : Backoff → ℕ → Bool
deadline_passed b now = is_after now b.reset_deadline

unfoldable pub get_max_backoff_duration : Backoff → (cancelled : Bool) → (now : ℕ) → Option ℕ
get_max_backoff_duration b cancelled now =
    if cancelled
    then none
    else if deadline_passed b now
    then some default_base_time
    else if leb b.max_retries b.retries && not b.retry_forever
    then none
    else some ((get_base_time b * 2 ^ (b.retries + 1)) % 2 ^ 64)

-- `no_timer` is the nil channel; the timer fires after a random time below the bound; the random
-- generator panics on a bound that is 0 or, read as signed, negative.
pub data Timer : Type 0 where
  no_timer panics : Timer
  fires_within : ℕ → Timer

abbrev pub is_no_bound : ℕ → Bool
is_no_bound bound = bound == 0 || leb (2 ^ 63) bound

unfoldable pub timer_below : ℕ → Timer
timer_below bound = if is_no_bound bound then panics else fires_within bound

unfoldable pub start_timer : Backoff → Timer
start_timer b = timer_below ((get_base_time b * 2 ^ b.retries) % 2 ^ 64)

unfoldable pub reset_if_passed : Backoff → ℕ → Backoff
reset_if_passed b now =
    if deadline_passed b now then record b { retries = 0; reset_deadline = none } else b

-- What follows the test of the deadline.
unfoldable pub next_retry : Backoff → Backoff × Timer
next_retry b =
    if leb b.max_retries b.retries
    then (b, if b.retry_forever then start_timer b else no_timer)
    else (record b { retries = b.retries + 1 }, start_timer (record b { retries = b.retries + 1 }))

unfoldable pub backoff_timer : Backoff → ℕ → Backoff × Timer
backoff_timer b now = next_retry (reset_if_passed b now)

-- `Backoff`, where `cancelled` says which case of the `select` comes first; `none` is the panic.
abbrev pub fired : Timer → Bool → Option Bool
fired no_timer cancelled = some false
fired panics cancelled = none
fired (fires_within d) cancelled = some (not cancelled)

unfoldable pub backoff : Backoff → Bool → ℕ → Backoff × Option Bool
backoff b cancelled now = let after = backoff_timer b now in (after.0, fired after.1 cancelled)

-- The bound on the random grace period.
unfoldable pub grace_bound : Backoff → ℕ
grace_bound b = (get_base_time b * 2 * 2 ^ (b.retries + 1)) % 2 ^ 64

-- `wait` is a random number, which is taken below the bound; `none` is the panic of the random
-- generator.
unfoldable pub set_grace_period : Backoff → (now wait : ℕ) → Option Backoff
set_grace_period b now wait =
    if is_no_bound (grace_bound b)
    then none
    else some (record b { reset_deadline = some (now + wait % grace_bound b) })

unfoldable pub reached_max_retries : Backoff → Bool
reached_max_retries b = b.retries == b.max_retries

unfoldable pub reset_now : Backoff → ℕ → Backoff
reset_now b now = record b { reset_deadline = some now; retries = 0 }
