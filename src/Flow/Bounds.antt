-- ===== src/Flow/Bounds.antt =====
-- The limiter as a bounded counter: what a run of calls can do to the number of active flows.
use shitflared.Prelude.{
  ℕ, ◌+◌, ◌≤◌, ◌<◌, ◌^◌, ◌≡◌, refl, false, none, some, arith, List, [], ◌∷◌, ◌==◌, ◌≢◌, ◌↔◌,
}
use shitflared.Flow.{Limiter, too_many_active_flows, new_limiter, acquire, release, set_limit}

pub data Call : Type 0 where
  acquires releases : Call
  sets_limit : ℕ → Call

unfoldable pub step : Limiter → Call → Limiter
unfolding acquire release set_limit
step l acquires = (acquire l).0
step l releases = release l
step l (sets_limit max) = set_limit l max

unfoldable pub run : Limiter → List Call → Limiter
run l [] = l
run l (c ∷ cs) = run (step l c) cs

-- The flag says whether the limit is 0, and the limit is a uint64.
pub record IsValid (l : Limiter) : Type 0 where
  pub flag : l.unlimited ≡ (l.max_active_flows == 0)
  pub max_fits : l.max_active_flows < 2 ^ 64

pub new_limiter-IsValid : (max : ℕ) → max < 2 ^ 64 → IsValid (new_limiter max)
unfolding new_limiter
new_limiter-IsValid max h = record { flag = refl; max_fits = h }

-- An acquired slot is refused exactly when a limit is in force and reached; refusal changes nothing,
-- and success adds one flow.
pub acquire_cases :
    (l : Limiter)
    → IsValid l
    → l.active_flows + 1 < 2 ^ 64
    → (((acquire l).1 ≡ some too_many_active_flows)
        ↔ ((l.max_active_flows ≢ 0) × (l.max_active_flows ≤ l.active_flows)))
      × ((acquire l).1 ≡ some too_many_active_flows → (acquire l).0 ≡ l)
      × ((acquire l).1 ≡ none → (acquire l).0.active_flows ≡ l.active_flows + 1)
unfolding acquire
acquire_cases l v fits = ground (arith, v.flag)

abbrev pub Below : ℕ → Call → Type 0
Below n (sets_limit max) = (max ≢ 0) × (max ≤ n)
Below n _ = Unit {0}

abbrev pub AllBelow : ℕ → List Call → Type 0
AllBelow n [] = Unit {0}
AllBelow n (c ∷ cs) = Below n c × AllBelow n cs

record Limited (n : ℕ) (l : Limiter) : Type 0 where
  flag : l.unlimited ≡ false
  max_below : l.max_active_flows ≤ n
  active_below : l.active_flows ≤ n

step-Limited : (n : ℕ) (l : Limiter) (c : Call) → Below n c → Limited n l → Limited n (step l c)
unfolding step
step-Limited n l acquires b v = ground arith
step-Limited n l releases b v = ground arith
step-Limited n l (sets_limit max) b v = ground arith

run-Limited :
    (n : ℕ) (l : Limiter) (cs : List Call) → AllBelow n cs → Limited n l → Limited n (run l cs)
unfolding run
run-Limited n l [] b v = v
run-Limited n l (c ∷ cs) b v = run-Limited n (step l c) cs b.1 (step-Limited n l c b.0 v)

-- However the calls interleave, a limiter that was made with a limit from 1 to `n` and gets no other
-- limits than such never counts more than `n` active flows. The limit 0, which stands for none, is not
-- among them, neither at the start nor later.
pub run-new_limiter_bounded :
    (n max : ℕ) (cs : List Call)
    → max ≢ 0
    → max ≤ n
    → AllBelow n cs
    → (run (new_limiter max) cs).active_flows ≤ n
unfolding new_limiter
run-new_limiter_bounded n max cs limited below b =
    (run-Limited n (new_limiter max) cs b start).active_below
  where
    start : Limited n (new_limiter max)
    start = ground arith

-- Giving back what was acquired restores the limiter.
pub release-acquire :
    (l : Limiter) → l.active_flows + 1 < 2 ^ 64 → (acquire l).1 ≡ none → release (acquire l).0 ≡ l
unfolding acquire release
release-acquire l fits ok = ground arith
