-- ===== src/V3/Manager/Tests.antt =====
-- The manager's theorems at a table with one session.
use shitflared.Prelude.{◌≡◌, refl, false, [], ◌∷◌, some, arith}
use shitflared.Flow.{Limiter, new_limiter}
use shitflared.V3.RequestId.{RequestId}
use shitflared.V3.Manager.{
  Manager, Request, refused, session_registration_rate_limited, new_manager, register_session,
}
use shitflared.V3.Manager.Sessions.{new_session}
use shitflared.V3.Manager.Slots.{HasSlots, fail_each, dial_failures_exhaust}

abbrev id1 : RequestId
id1 = record { hi = 0; lo = 1 }

abbrev id2 : RequestId
id2 = record { hi = 0; lo = 2 }

abbrev request1 : Request
request1 = record { request_id = id1; idle_duration_hint = 5 }

abbrev request2 : Request
request2 = record { request_id = id2; idle_duration_hint = 6 }

abbrev limit2 : Limiter
limit2 = record { active_flows = 1; max_active_flows = 2; unlimited = false }

abbrev one : Manager
one = record { sessions = (id1, new_session request1 0 4000) ∷ []; limiter = limit2 }

one-HasSlots : HasSlots one
one-HasSlots = record {
  limited = refl;
  fits = omega arith;
  held = omega arith;
  bounded = omega arith;
}

dial_failures_exhaust_example :
    let m = fail_each (new_manager (new_limiter 2)) 0 (request1 ∷ request2 ∷ []) in
    (m.sessions ≡ [])
    × (register_session m request1 0 (some 4000) ≡ (m, refused session_registration_rate_limited))
dial_failures_exhaust_example =
    dial_failures_exhaust 2 0 0 (request1 ∷ request2 ∷ []) request1 (some 4000) (omega arith)
      (omega arith) refl
