-- ===== src/DatagramV2/Sessions.antt =====
-- datagramsession/manager.go, datagramsession/session.go, connection/quic_datagram_v2.go: the
-- sessions of a connection over the limiter of flow. A request that the loop of the manager handles
-- is one step.
pub mod Slots
pub mod Reused
mod Tests
use shitflared.Prelude.{
  nat_eq, ℕ, zero, suc, Bool, true, false, not, ◌&&◌, List, [], ◌∷◌, ◌++◌, Option, none, some, ◌==◌,
  lookup, insert, remove, if◌then◌else◌,
}
use shitflared.Flow.{Limiter, FlowError, acquire, release}

-- A session is a number, those below `next` were made. `sessions` is the map of the manager, from the
-- identifiers of the edge; `serving` has the goroutines of `serveUDPSession`, each with its session and
-- the identifier of it; `close_chans` the messages to the sessions, which say whether the close is by
-- remote. The socket of a session is open as long as its goroutine runs.
pub record Connection : Type 0 where
  pub running : Bool
  pub sessions : List (ℕ × ℕ)
  pub serving : List (ℕ × ℕ)
  pub close_chans : List (ℕ × Bool)
  pub next : ℕ
  pub limiter : Limiter

-- What the address, the dialer and the request to the manager come to.
pub data Attempt : Type 0 where
  bad_address dial_failed timed_out dialed : Attempt

pub data RegisterError : Type 0 where
  too_many_active_flows invalid_destination_ip no_socket not_registered : RegisterError

-- `registerSession` of the manager, and the goroutine of the session.
unfoldable pub add_session : ℕ → Connection → Connection
add_session id c = record c {
  sessions = insert id c.next c.sessions;
  serving = (c.next, id) ∷ c.serving;
  next = suc c.next;
}

abbrev pub give_back : RegisterError → Connection → Connection × Option RegisterError
give_back e c = (record c { limiter = release c.limiter }, some e)

-- What follows the limiter.
abbrev pub dial : ℕ → Attempt → Connection → Connection × Option RegisterError
dial id bad_address c = give_back invalid_destination_ip c
dial id dial_failed c = give_back no_socket c
dial id timed_out c = give_back not_registered c
dial id dialed c = if c.running then (add_session id c, none) else give_back not_registered c

abbrev pub admitted :
    ℕ → Attempt → Connection → Limiter × Option FlowError → Connection × Option RegisterError
admitted id attempt c (l, some e) = (c, some too_many_active_flows)
admitted id attempt c (l, none) = dial id attempt (record c { limiter = l })

unfoldable pub register_udp_session : ℕ → Attempt → Connection → Connection × Option RegisterError
register_udp_session id attempt c = admitted id attempt c (acquire c.limiter)

abbrev pub close_session : ℕ → (by_remote : Bool) → Option ℕ → Connection → Connection
close_session id by_remote none c = c
close_session id by_remote (some session) c = record c {
  sessions = remove id c.sessions;
  close_chans = c.close_chans ++ ((session, by_remote) ∷ []);
}

-- `unregisterSession` of the manager.
unfoldable pub unregister_session : ℕ → (by_remote : Bool) → Connection → Connection
unregister_session id by_remote c = close_session id by_remote (lookup id c.sessions) c

-- Without a manager that runs the request times out.
unfoldable pub request_unregister : ℕ → (by_remote in_time : Bool) → Connection → Connection
request_unregister id by_remote in_time c =
    if c.running && in_time then unregister_session id by_remote c else c

-- How `Serve` of a session ends: by the first message of its channel, or by itself, idle or on an
-- error.
pub data Ending : Type 0 where
  by_message by_itself : Ending

unfoldable pub closed_by_remote : Ending → ℕ → List (ℕ × Bool) → Bool
closed_by_remote by_itself session chans = false
closed_by_remote by_message session [] = false
closed_by_remote by_message session ((s, by_remote) ∷ rest) =
    let later = closed_by_remote by_message session rest in
    if s == session then by_remote else later

unfoldable pub take_session : ℕ → List (ℕ × ℕ) → List (ℕ × ℕ)
take_session session [] = []
take_session session ((s, id) ∷ rest) =
    let later = take_session session rest in if s == session then rest else (s, id) ∷ later

abbrev pub after_serve : ℕ → (remote in_time : Bool) → Connection → Connection
after_serve id true in_time c = c
after_serve id false in_time c = request_unregister id false in_time c

-- The end of `serveUDPSession` and the release behind it.
unfoldable pub session_ended :
    (session id : ℕ) → Ending → (in_time : Bool) → Connection → Connection
session_ended session id ending in_time c =
    let ended = after_serve id (closed_by_remote ending session c.close_chans) in_time c in
    record ended { serving = take_session session ended.serving; limiter = release ended.limiter }

unfoldable pub unregister_all : List (ℕ × ℕ) → Connection → Connection
unregister_all [] c = c
unregister_all ((id, session) ∷ rest) c = unregister_all rest (unregister_session id true c)

-- The context of the manager is cancelled.
unfoldable pub shutdown_sessions : Connection → Connection
shutdown_sessions c = let after = unregister_all c.sessions c in record after { running = false }

pub data Event : Type 0 where
  registers : (id : ℕ) → Attempt → Event
  unregisters : (id : ℕ) → (in_time : Bool) → Event
  ends : (session id : ℕ) → Ending → (in_time : Bool) → Event
  shuts_down : Event

unfoldable pub step : Event → Connection → Connection
step (registers id attempt) c = (register_udp_session id attempt c).0
step (unregisters id in_time) c = request_unregister id true in_time c
step (ends session id ending in_time) c = session_ended session id ending in_time c
step shuts_down c = shutdown_sessions c

unfoldable pub new_connection : Limiter → Connection
new_connection l = record {
  running = true;
  sessions = [];
  serving = [];
  close_chans = [];
  next = 0;
  limiter = l;
}
