-- ===== src/V3/Muxer.antt =====
-- quic/v3/muxer.go: what the datagram connection does with a registration, with the payload of a
-- session and with each type of datagram. Sending a response can fail: whether it does is an argument.
-- Logs and metrics are left out.
pub mod Answers
pub mod Serve
mod Tests
use shitflared.Prelude.{
  ℕ, Bool, true, false, List, [], ◌∷◌, Option, none, some, ◌==◌, if◌then◌else◌, lookup, insert,
}
use shitflared.V3.RequestId.{RequestId, request_id_eq}
use shitflared.V3.Response.{
  response_ok, response_unable_to_bind_socket, response_too_many_active_flows,
}
use shitflared.V3.Registration.{Registration, unmarshal}
use shitflared.V3.Payload.{Payload, unmarshal_payload, unmarshal_icmp}
use shitflared.V3.Wire.{
  Result, ok, err, panicked, parse_datagram_type, registration_type, payload_type, icmp_type,
}
use shitflared.V3.Manager.{
  Manager, Session, Request, Registered, registered, refused, ManagerError, session_not_found,
  session_bound_to_other_conn, session_already_registered, session_registration_rate_limited,
  dial_failed, register_session, get_session, unregister_session,
}

-- What a handler leaves behind: the table, the responses that it sent, whether it goes on to serve a
-- session, and the sessions whose idle timer it restarted.
pub record Outcome : Type 0 where
  pub manager : Manager
  pub sent : List ℕ
  pub serving : Option Session
  pub reset : List RequestId

abbrev answer : Bool → ℕ → List ℕ
answer true resp = resp ∷ []
answer false resp = []

-- `Migrate`: the session answers to the connection from now on; where the connection is new to it,
-- it takes over the connection's context too. The idle timer is restarted either way.
unfoldable pub migrate : Session → ℕ → Session
migrate s conn = if s.connection_id == conn then s else record s { connection_id = conn }

unfoldable pub handle_already_registered : Manager → RequestId → Bool → Outcome
handle_already_registered m id true = elim (get_session m id) [
  | none ↦ record { manager = m; sent = response_ok ∷ []; serving = none; reset = [] }
  | some s ↦ record { manager = m; sent = response_ok ∷ []; serving = none; reset = id ∷ [] }
]
handle_already_registered m id false = record { manager = m; sent = []; serving = none; reset = [] }

unfoldable pub handle_migration : Manager → ℕ → RequestId → Bool → Outcome
handle_migration m conn id sends = elim (get_session m id) [
  | none ↦ record { manager = m; sent = []; serving = none; reset = [] }
  | some s ↦ record {
    manager = record m { sessions = insert id (migrate s conn) m.sessions };
    sent = answer sends response_ok;
    serving = none;
    reset = id ∷ [];
  }
]

-- The switch on the outcome of `RegisterSession`. A new session that could be answered is served
-- until it closes (`session_closed`); if the answer fails it is removed at once.
unfoldable pub dispatch_registration : ℕ → RequestId → Bool → Manager × Registered → Outcome
dispatch_registration conn id true (m, registered s) = record {
  manager = m;
  sent = response_ok ∷ [];
  serving = some s;
  reset = [];
}
dispatch_registration conn id false (m, registered s) = record {
  manager = (unregister_session m s.id).0;
  sent = [];
  serving = none;
  reset = [];
}
dispatch_registration conn id sends (m, refused session_already_registered) =
    handle_already_registered m id sends
dispatch_registration conn id sends (m, refused session_bound_to_other_conn) =
    handle_migration m conn id sends
dispatch_registration conn id sends (m, refused session_registration_rate_limited) = record {
  manager = m;
  sent = answer sends response_too_many_active_flows;
  serving = none;
  reset = [];
}
dispatch_registration conn id sends (m, refused e) = record {
  manager = m;
  sent = answer sends response_unable_to_bind_socket;
  serving = none;
  reset = [];
}

unfoldable pub handle_registration : Manager → ℕ → Request → Option ℕ → Bool → Outcome
handle_registration m conn request dialled sends =
    dispatch_registration conn request.request_id sends (register_session m request conn dialled)

-- The deferred call, when `Serve` of the session returns.
unfoldable pub session_closed : Manager → Session → Manager
session_closed m s = (unregister_session m s.id).0

-- `handleSessionPayloadDatagram`: the session that the payload is written to, if it is known.
unfoldable pub handle_payload : Manager → Payload → Option (Session × List ℕ)
handle_payload m datagram = elim (get_session m datagram.request_id) [
  | none ↦ none
  | some s ↦ some (s, datagram.payload)
]

-- What the loop of `Serve` starts for a datagram; `dropped` is logged and skipped, and `crashed` is a
-- panic of the loop.
pub data Demuxed : Type 0 where
  registers : Registration → Demuxed
  carries : Payload → Demuxed
  pings : List ℕ → Demuxed
  dropped crashed : Demuxed

abbrev demuxed {ℓ} : {A : Type ℓ} → (A → Demuxed) → Result A → Demuxed
demuxed f (ok a) = f a
demuxed f (err e) = dropped
demuxed f panicked = crashed

unfoldable pub demux : List ℕ → Demuxed
demux bytes = elim (parse_datagram_type bytes) [
  | ok typ ↦
      (if typ == registration_type
        then demuxed registers (unmarshal bytes)
        else if typ == payload_type
        then demuxed carries (unmarshal_payload bytes)
        else if typ == icmp_type
        then demuxed pings (unmarshal_icmp bytes)
        else dropped)
  | err e ↦ dropped
  | panicked ↦ crashed
]
