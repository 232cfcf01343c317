-- ===== src/V3/Muxer/Tests.antt =====
-- The muxer's theorems at a table with one session.
use shitflared.Prelude.{ℕ, ◌<◌, ◌≡◌, ◌↔◌, refl, true, false, List, [], ◌∷◌, some, lookup, get_elem?}
use shitflared.Flow.{acquire}
use shitflared.V3.RequestId.{RequestId}
use shitflared.V3.Manager.{Manager, Request, get_session}
use shitflared.V3.Manager.Sessions.{new_session}
use shitflared.V3.Registration.Panics.{needed_len}
use shitflared.V3.Muxer.{handle_registration, demux, crashed}
use shitflared.V3.Muxer.Answers.{handle_registration_starts}
use shitflared.V3.Muxer.Serve.{demux_crashes_iff}

abbrev id1 : RequestId
id1 = record { hi = 0; lo = 1 }

abbrev request1 : Request
request1 = record { request_id = id1; idle_duration_hint = 5 }

abbrev request2 : Request
request2 = record { request_id = record { hi = 0; lo = 2 }; idle_duration_hint = 6 }

abbrev one : Manager
one = record {
  sessions = (id1, new_session request1 0 4000) ∷ [];
  limiter = record { active_flows = 1; max_active_flows = 2; unlimited = false };
}

handle_registration_starts_example :
    (handle_registration one 3 request2 (some 4001) true).serving
    ≡ some (new_session request2 3 4001)
unfolding get_session lookup acquire
handle_registration_starts_example = (handle_registration_starts one 3 4001 request2 refl refl).1

abbrev zero_byte : List ℕ
zero_byte = 0 ∷ []

demux_crashes_iff_example :
    (demux zero_byte ≡ crashed) ↔ ((get_elem? zero_byte 0 ≡ some 0) × (1 < needed_len zero_byte))
demux_crashes_iff_example = demux_crashes_iff zero_byte
