-- ===== src/Retry/Bounds.antt =====
-- retry/backoffhandler.go: how many retries there are.
use mathlib.Core.Path.{subst}
use shitflared.Prelude.{
  ℕ, zero, suc, ◌+◌, ◌≤◌, ◌<◌, ◌≡◌, ◌≢◌, ◌↔◌, length, refl, sym, ◌∙◌, ap, Bool, false, List, [],
  ◌∷◌, Option, none, some, arith, leb, Bool-cases, inl, inr,
}
use shitflared.Retry.{
  Backoff, new_backoff, no_timer, timer_below, start_timer, deadline_passed, reset_if_passed,
  next_retry, backoff_timer, backoff, set_grace_period, reset_now, is_no_bound, grace_bound,
}

pub data Call : Type 0 where
  backs_off : (cancelled : Bool) → (now : ℕ) → Call
  sets_grace : (now wait : ℕ) → Call
  resets : (now : ℕ) → Call

-- The handler after a grace period was asked for, or after the panic of that.
abbrev after_grace : Backoff → Option Backoff → Backoff
after_grace b none = b
after_grace b (some c) = c

unfoldable pub call : Backoff → Call → Backoff
call b (backs_off cancelled now) = (backoff b cancelled now).0
call b (sets_grace now wait) = after_grace b (set_grace_period b now wait)
call b (resets now) = reset_now b now

unfoldable pub calls : Backoff → List Call → Backoff
calls b [] = b
calls b (c ∷ rest) = calls (call b c) rest

next_retry-bounded :
    (b : Backoff)
    → b.retries ≤ b.max_retries
    → ((next_retry b).0.retries ≤ b.max_retries) × ((next_retry b).0.max_retries ≡ b.max_retries)
unfolding next_retry
next_retry-bounded b h = elim (Bool-cases (leb b.max_retries b.retries)) [
  | inl full ↦ rw full (h, refl)
  | inr room ↦ rw room (ground arith, refl)
]

reset_if_passed-bounded :
    (b : Backoff) (now : ℕ)
    → b.retries ≤ b.max_retries
    → ((reset_if_passed b now).retries ≤ b.max_retries)
      × ((reset_if_passed b now).max_retries ≡ b.max_retries)
unfolding reset_if_passed
reset_if_passed-bounded b now h = elim (Bool-cases (deadline_passed b now)) [
  | inl passed ↦ rw passed (omega arith, refl)
  | inr kept ↦ rw kept (h, refl)
]

call-bounded :
    (b : Backoff) (c : Call)
    → b.retries ≤ b.max_retries
    → ((call b c).retries ≤ b.max_retries) × ((call b c).max_retries ≡ b.max_retries)
unfolding call backoff backoff_timer set_grace_period reset_now
call-bounded b (backs_off cancelled now) h =
    let first = reset_if_passed-bounded b now h in
    let second = next_retry-bounded (reset_if_passed b now) (omega (arith, first.0, first.1)) in
    (omega (arith, first.1, second.0), second.1 ∙ first.1)
call-bounded b (sets_grace now wait) h = elim (Bool-cases (is_no_bound (grace_bound b))) [
  | inl panics ↦ rw panics (h, refl)
  | inr positive ↦ rw positive (h, refl)
]
call-bounded b (resets now) h = (omega arith, refl)

calls-bounded :
    (b : Backoff) (cs : List Call)
    → b.retries ≤ b.max_retries
    → (calls b cs).retries ≤ b.max_retries
unfolding calls
calls-bounded b [] h = h
calls-bounded b (c ∷ cs) h =
    let first = call-bounded b c h in
    omega (arith, first.1, calls-bounded (call b c) cs (omega (arith, first.0, first.1)))

-- Whatever calls are made of a new handler, it never counts more retries than its maximum.
pub calls-new_backoff_bounded :
    (max base : ℕ) (forever : Bool) (cs : List Call)
    → (calls (new_backoff max base forever) cs).retries ≤ max
unfolding new_backoff
calls-new_backoff_bounded max base forever cs =
    calls-bounded (new_backoff max base forever) cs (omega arith)

-- `n` retries one behind the other.
unfoldable pub retry_times : ℕ → Backoff → List ℕ → Backoff
retry_times zero b nows = b
retry_times (suc n) b [] = b
retry_times (suc n) b (now ∷ nows) = retry_times n (backoff_timer b now).0 nows

no_deadline : (b : Backoff) (now : ℕ) → b.reset_deadline ≡ none → reset_if_passed b now ≡ b
unfolding reset_if_passed deadline_passed
no_deadline b now d = rw d refl

backoff_timer-counts :
    (b : Backoff) (now : ℕ)
    → b.reset_deadline ≡ none
    → b.retries < b.max_retries
    → (backoff_timer b now).0 ≡ record b { retries = b.retries + 1 }
unfolding backoff_timer next_retry
backoff_timer-counts b now d room =
    ap (λ x. (next_retry x).0) (no_deadline b now d) ∙ counted (ground arith)
  where
    counted :
        leb b.max_retries b.retries ≡ false
        → (next_retry b).0 ≡ record b { retries = b.retries + 1 }
    counted h = rw (next_retry, h) refl

retry_times-counts :
    (n : ℕ) (b : Backoff) (nows : List ℕ)
    → b.reset_deadline ≡ none
    → b.retries + n ≤ b.max_retries
    → n ≤ length nows
    → retry_times n b nows ≡ record b { retries = b.retries + n }
unfolding retry_times
retry_times-counts zero b nows d h l = ap (λ k. record b { retries = k }) (omega arith)
retry_times-counts (suc n) b [] d h l = absurd (omega arith)
retry_times-counts (suc n) b (now ∷ nows) d h l =
    ap (λ x. retry_times n x nows) (backoff_timer-counts b now d (omega arith))
    ∙ (retry_times-counts n (record b { retries = b.retries + 1 }) nows d (omega arith)
          (omega arith)
        ∙ ap (λ k. record b { retries = k }) (omega arith))

start_timer-some : (b : Backoff) → start_timer b ≢ no_timer
unfolding start_timer timer_below
start_timer-some b h = ground arith

next_retry_ends :
    (b : Backoff)
    → b.retry_forever ≡ false
    → b.retries ≤ b.max_retries
    → ((next_retry b).1 ≡ no_timer) ↔ (b.retries ≡ b.max_retries)
unfolding next_retry
next_retry_ends b f h = elim (Bool-cases (leb b.max_retries b.retries)) [
  | inl full ↦ rw (full, f) ((λ e. ground arith), (λ e. refl))
  | inr room ↦ rw room (
    (λ e. absurd (start_timer-some (record b { retries = b.retries + 1 }) e)),
    (λ e. absurd (ground arith)),
  )
]

-- Without a grace period and without retrying forever, whatever the times are, a handler has no timer
-- left after `n` of the retries that it has left if and only if these bring it to its maximum.
pub retries_end :
    (b : Backoff) (n : ℕ) (nows : List ℕ) (now : ℕ)
    → b.reset_deadline ≡ none
    → b.retry_forever ≡ false
    → b.retries + n ≤ b.max_retries
    → n ≤ length nows
    → ((backoff_timer (retry_times n b nows) now).1 ≡ no_timer) ↔ (b.retries + n ≡ b.max_retries)
unfolding backoff_timer
retries_end b n nows now d f h l =
    subst
      (λ x. ((next_retry (reset_if_passed x now)).1 ≡ no_timer) ↔ (b.retries + n ≡ b.max_retries))
      (sym (retry_times-counts n b nows d h l))
      (subst (λ x. ((next_retry x).1 ≡ no_timer) ↔ (b.retries + n ≡ b.max_retries))
        (sym (no_deadline (record b { retries = b.retries + n }) now d))
        (next_retry_ends (record b { retries = b.retries + n }) f h))
