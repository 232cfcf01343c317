-- ===== src/V3/Muxer/Answers.antt =====
-- The answer to a registration, and where the session is found afterwards.
use shitflared.Prelude.{
  ℕ, ◌≡◌, refl, true, false, List, [], ◌∷◌, Option, none, some, arith, ◌==◌, lookup, insert, remove,
  lookup-insert, lookup-remove, beq_refl,
}
use shitflared.Flow.{FlowError, acquire}
use shitflared.V3.RequestId.{RequestId, request_id_eq}
use shitflared.V3.Response.{
  response_ok, response_unable_to_bind_socket, response_too_many_active_flows,
}
use shitflared.V3.Manager.{Manager, Session, Request, bind_session, get_session, unregister_session}
use shitflared.V3.Manager.Sessions.{
  new_session, register_session_existing, register_session_admitted, register_session_limited,
}
use shitflared.V3.Muxer.{
  handle_already_registered, dispatch_registration, handle_registration, session_closed,
}

-- A retry, where the first response got lost: the same connection asks again for its session. The
-- session is left as it is, no slot is taken, the edge gets `ResponseOk` once more and the idle timer
-- restarts.
pub handle_registration_retry :
    (m : Manager) (conn : ℕ) (request : Request) (dialled : Option ℕ) (s : Session)
    → get_session m request.request_id ≡ some s
    → s.connection_id ≡ conn
    → handle_registration m conn request dialled true ≡ record {
      manager = m;
      sent = response_ok ∷ [];
      serving = none;
      reset = request.request_id ∷ [];
    }
unfolding handle_registration dispatch_registration handle_already_registered
handle_registration_retry m conn request dialled s found bound =
    let same_conn : (conn == s.connection_id) ≡ true = ground arith in
    rw (register_session_existing m request conn dialled s found)
      (rw same_conn (rw (found, handle_already_registered) refl))

found_self :
    (id : RequestId) (s : Session) (m : Manager) → lookup id (insert id s m.sessions) ≡ some s
found_self id s m = rw (lookup-insert id id s m.sessions, beq_refl id) refl

gone_self :
    (id : RequestId) (sessions : List (RequestId × Session)) → lookup id (remove id sessions) ≡ none
gone_self id sessions = rw (lookup-remove id id sessions, beq_refl id) refl

-- A new flow: with a slot and a socket the session is served, it is found bound to this connection,
-- and the edge gets `ResponseOk`. If that answer cannot be sent, no session is left behind.
pub handle_registration_starts :
    (m : Manager) (conn local : ℕ) (request : Request)
    → get_session m request.request_id ≡ none
    → (acquire m.limiter).1 ≡ none
    → let s = new_session request conn local in
      let served = handle_registration m conn request (some local) true in
      let failed = handle_registration m conn request (some local) false in
      (served.sent ≡ response_ok ∷ [])
      × (served.serving ≡ some s)
      × (get_session served.manager request.request_id ≡ some s)
      × (get_session (session_closed served.manager s) request.request_id ≡ none)
      × (failed.sent ≡ [])
      × (failed.serving ≡ none)
      × (get_session failed.manager request.request_id ≡ none)
unfolding handle_registration dispatch_registration session_closed bind_session get_session
    unregister_session
handle_registration_starts m conn local request free slot =
    let s : Session = new_session request conn local in
    let id : RequestId = request.request_id in
    rw (register_session_admitted m request conn (some local) free slot)
      (refl, refl, found_self id s m, gone_self id _, refl, refl, gone_self id _)

-- What a refusal tells the edge: no slot, `ResponseTooManyActiveFlows`; no socket,
-- `ResponseUnableToBindSocket`. Neither adds or removes a session.
pub handle_registration_refuses :
    (m : Manager) (conn : ℕ) (request : Request)
    → get_session m request.request_id ≡ none
    → ((e : FlowError) (dialled : Option ℕ)
        → (acquire m.limiter).1 ≡ some e
        → let o = handle_registration m conn request dialled true in
          (o.sent ≡ response_too_many_active_flows ∷ [])
          × (o.serving ≡ none)
          × (o.manager.sessions ≡ m.sessions))
      × ((acquire m.limiter).1 ≡ none
          → let o = handle_registration m conn request none true in
            (o.sent ≡ response_unable_to_bind_socket ∷ [])
            × (o.serving ≡ none)
            × (o.manager.sessions ≡ m.sessions))
unfolding handle_registration dispatch_registration bind_session
handle_registration_refuses m conn request free = (
  λ e dialled full.
      rw (register_session_limited m request conn dialled e free full) (refl, refl, refl),
  λ slot. rw (register_session_admitted m request conn none free slot) (refl, refl, refl),
)
