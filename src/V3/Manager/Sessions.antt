-- ===== src/V3/Manager/Sessions.antt =====
-- What a registration does, in every case, and what the other sessions see of it.
use shitflared.Prelude.{
  ℕ, ◌≡◌, refl, ◌∙◌, Option, none, some, ◌==◌, if◌then◌else◌, lookup-insert, lookup-remove,
}
use shitflared.Flow.{Limiter, FlowError, acquire}
use shitflared.V3.RequestId.{RequestId, request_id_eq, same}
use shitflared.V3.Manager.{
  Manager, Session, Request, registered, refused, session_already_registered,
  session_bound_to_other_conn, session_registration_rate_limited, bind_session, existing_session,
  start_session, register_session, get_session, unregister_session,
}

abbrev pub new_session : Request → ℕ → ℕ → Session
new_session request conn local = record {
  id = request.request_id;
  close_after_idle = request.idle_duration_hint;
  connection_id = conn;
  local_addr = local;
}

-- A registration is refused for an identifier in use, whoever asks, with nothing changed; the error
-- says whether the asking connection is the one that the session answers to.
pub register_session_existing :
    (m : Manager) (request : Request) (conn : ℕ) (dialled : Option ℕ) (s : Session)
    → get_session m request.request_id ≡ some s
    → register_session m request conn dialled ≡ (
      m,
      refused (
          if conn == s.connection_id
          then session_already_registered
          else session_bound_to_other_conn),
    )
unfolding register_session get_session existing_session
register_session_existing m request conn dialled s h = rw (h, register_session) refl

register_session_new :
    (m : Manager) (request : Request) (conn : ℕ) (dialled : Option ℕ)
    → get_session m request.request_id ≡ none
    → register_session m request conn dialled
      ≡ start_session m request conn dialled (acquire m.limiter)
unfolding register_session get_session
register_session_new m request conn dialled h = rw (h, register_session) refl

start_session_slot :
    (m : Manager) (request : Request) (conn : ℕ) (dialled : Option ℕ)
    (p : Limiter × Option FlowError)
    → p.1 ≡ none
    → start_session m request conn dialled p
      ≡ bind_session (record m { limiter = p.0 }) request conn dialled
unfolding start_session
start_session_slot m request conn dialled (l, none) h = refl
start_session_slot m request conn dialled (l, some e) h = cc

start_session_full :
    (m : Manager) (request : Request) (conn : ℕ) (dialled : Option ℕ)
    (p : Limiter × Option FlowError) (e : FlowError)
    → p.1 ≡ some e
    → start_session m request conn dialled p
      ≡ (record m { limiter = p.0 }, refused session_registration_rate_limited)
unfolding start_session
start_session_full m request conn dialled (l, none) e h = cc
start_session_full m request conn dialled (l, some _) e h = refl

pub register_session_admitted :
    (m : Manager) (request : Request) (conn : ℕ) (dialled : Option ℕ)
    → get_session m request.request_id ≡ none
    → (acquire m.limiter).1 ≡ none
    → register_session m request conn dialled
      ≡ bind_session (record m { limiter = (acquire m.limiter).0 }) request conn dialled
register_session_admitted m request conn dialled free slot =
    register_session_new m request conn dialled free
    ∙ start_session_slot m request conn dialled (acquire m.limiter) slot

-- With no slot free, a new identifier is refused and no session is added.
pub register_session_limited :
    (m : Manager) (request : Request) (conn : ℕ) (dialled : Option ℕ) (e : FlowError)
    → get_session m request.request_id ≡ none
    → (acquire m.limiter).1 ≡ some e
    → register_session m request conn dialled
      ≡ (record m { limiter = (acquire m.limiter).0 }, refused session_registration_rate_limited)
register_session_limited m request conn dialled e free full =
    register_session_new m request conn dialled free
    ∙ start_session_full m request conn dialled (acquire m.limiter) e full

-- A registration with a free identifier, a slot from the limiter and a socket from the dialer
-- succeeds: the session is found under its identifier, bound to the asking connection, and every
-- other identifier finds what it found before.
pub register_session_succeeds :
    (m : Manager) (request : Request) (conn local : ℕ)
    → get_session m request.request_id ≡ none
    → (acquire m.limiter).1 ≡ none
    → let (m', r) = register_session m request conn (some local) in
      (r ≡ registered (new_session request conn local))
      × (m'.limiter ≡ (acquire m.limiter).0)
      × ((id : RequestId)
          → get_session m' id ≡ (
              if same request.request_id id
              then some (new_session request conn local)
              else get_session m id))
unfolding bind_session get_session
register_session_succeeds m request conn local free slot =
    rw (register_session_admitted m request conn (some local) free slot) (
      refl,
      refl,
      λ id. lookup-insert request.request_id id (new_session request conn local) m.sessions,
    )

-- After `UnregisterSession` the identifier finds nothing, every other finds what it found before,
-- and the session that was there is the one closed.
pub unregister_session_lem :
    (m : Manager) (id j : RequestId)
    → let (m', closed) = unregister_session m id in
      (closed ≡ get_session m id)
      × (get_session m' j ≡ (if same id j then none else get_session m j))
unfolding unregister_session get_session
unregister_session_lem m id j = (refl, lookup-remove id j m.sessions)
