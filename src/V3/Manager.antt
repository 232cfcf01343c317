-- ===== src/V3/Manager.antt =====
-- quic/v3/manager.go: the table of UDP sessions, with the limiter of flow/limiter.go. The mutex makes
-- each method one step. Sockets come from the ingress dialer: `DialUDP`'s outcome is an argument.
pub mod Sessions
pub mod Slots
mod Tests
use shitflared.Prelude.{
  ℕ, Bool, true, false, List, [], ◌∷◌, Option, none, some, ◌==◌, if◌then◌else◌, lookup, insert,
  remove,
}
use shitflared.Flow.{Limiter, FlowError, acquire, release}
use shitflared.V3.RequestId.{RequestId, request_id_eq}

-- A session's state as far as the manager and the muxer touch it: the connection that it answers to
-- (`eyeball`), its idle timeout, and the local address of its socket.
pub record Session : Type 0 where
  pub id : RequestId
  pub close_after_idle : ℕ
  pub connection_id : ℕ  -- uint8
  pub local_addr : ℕ

pub data ManagerError : Type 0 where
  session_not_found session_bound_to_other_conn session_already_registered : ManagerError
  session_registration_rate_limited dial_failed : ManagerError

pub data Registered : Type 0 where
  registered : Session → Registered
  refused : ManagerError → Registered

pub record Manager : Type 0 where
  pub sessions : List (RequestId × Session)
  pub limiter : Limiter

pub record Request : Type 0 where
  pub request_id : RequestId
  pub idle_duration_hint : ℕ

unfoldable pub new_manager : Limiter → Manager
new_manager l = record { sessions = []; limiter = l }

-- `dialled` is the local address of the socket that `DialUDP` binds, or its error.
unfoldable pub bind_session : Manager → Request → ℕ → (dialled : Option ℕ) → Manager × Registered
bind_session m request conn none = (m, refused dial_failed)
bind_session m request conn (some local) =
    (record m { sessions = insert request.request_id session m.sessions }, registered session)
  where
    session : Session
    session = record {
      id = request.request_id;
      close_after_idle = request.idle_duration_hint;
      connection_id = conn;
      local_addr = local;
    }

-- What follows the call of `Acquire`.
unfoldable pub start_session :
    Manager → Request → ℕ → Option ℕ → Limiter × Option FlowError → Manager × Registered
start_session m request conn dialled (l, some e) =
    (record m { limiter = l }, refused session_registration_rate_limited)
start_session m request conn dialled (l, none) =
    bind_session (record m { limiter = l }) request conn dialled

unfoldable pub existing_session : Session → ℕ → Registered
existing_session session conn = refused (
    if conn == session.connection_id
    then session_already_registered
    else session_bound_to_other_conn)

unfoldable pub register_session : Manager → Request → ℕ → Option ℕ → Manager × Registered
register_session m request conn dialled = elim (lookup request.request_id m.sessions) [
  | some session ↦ (m, existing_session session conn)
  | none ↦ start_session m request conn dialled (acquire m.limiter)
]

unfoldable pub get_session : Manager → RequestId → Option Session
get_session m id = lookup id m.sessions

-- The second result is the session that was closed, if there was one. The slot is given back either
-- way.
unfoldable pub unregister_session : Manager → RequestId → Manager × Option Session
unregister_session m id = (
  record m { sessions = remove id m.sessions; limiter = release m.limiter },
  lookup id m.sessions,
)
