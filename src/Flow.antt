-- ===== src/Flow.antt =====
-- flow/limiter.go: the limiter of active flows. The mutex makes each method one step, so a method is
-- a function on the record. The counter of dropped registrations is a Prometheus metric, left out.
pub mod Bounds
mod Tests
use shitflared.Prelude.{
  ℕ, ◌+◌, ◌-◌, ◌%◌, ◌^◌, Bool, true, not, ◌&&◌, Option, none, some, leb, ◌==◌, if◌then◌else◌,
}

pub data FlowError : Type 0 where
  too_many_active_flows : FlowError

pub record Limiter : Type 0 where
  pub active_flows : ℕ  -- uint64
  pub max_active_flows : ℕ  -- uint64
  pub unlimited : Bool

abbrev pub is_unlimited : ℕ → Bool
is_unlimited value = value == 0

unfoldable pub new_limiter : ℕ → Limiter
new_limiter max = record { active_flows = 0; max_active_flows = max; unlimited = is_unlimited max }

unfoldable pub acquire : Limiter → Limiter × Option FlowError
acquire l =
    if not l.unlimited && leb l.max_active_flows l.active_flows
    then (l, some too_many_active_flows)
    else (record l { active_flows = (l.active_flows + 1) % 2 ^ 64 }, none)

unfoldable pub release : Limiter → Limiter
release l = if leb l.active_flows 0 then l else record l { active_flows = l.active_flows - 1 }

unfoldable pub set_limit : Limiter → ℕ → Limiter
set_limit l max = record l { max_active_flows = max; unlimited = is_unlimited max }
