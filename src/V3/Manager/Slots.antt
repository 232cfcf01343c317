-- ===== src/V3/Manager/Slots.antt =====
-- The slots of the limiter against the sessions of the table.
use shitflared.Prelude.{
  ℕ, ◌+◌, ◌≤◌, ◌<◌, ◌^◌, ◌≡◌, ◌≢◌, refl, ◌∙◌, ◌⊎◌, ap, false, List, [], ◌∷◌, Option, none, some,
  arith, lookup, inl, inr, Option-cases, length-remove_found, Bool-cases, leb, length,
  length-insert_new,
}
use shitflared.Flow.{Limiter, too_many_active_flows, new_limiter, acquire, release}
use shitflared.V3.RequestId.{RequestId, request_id_eq}
use shitflared.V3.Manager.{
  Manager, Session, Request, refused, session_registration_rate_limited, dial_failed, bind_session,
  new_manager, register_session, get_session, unregister_session,
}
use shitflared.V3.Manager.Sessions.{
  new_session, register_session_existing, register_session_admitted, register_session_limited,
}

-- With a limit in force, every session holds a slot.
pub record HasSlots (m : Manager) : Type 0 where
  pub limited : m.limiter.unlimited ≡ false
  pub fits : m.limiter.max_active_flows < 2 ^ 64
  pub held : length m.sessions ≤ m.limiter.active_flows
  pub bounded : m.limiter.active_flows ≤ m.limiter.max_active_flows

acquire_limited :
    (l : Limiter)
    → l.unlimited ≡ false
    → l.max_active_flows < 2 ^ 64
    → ((l.max_active_flows ≤ l.active_flows) × (acquire l ≡ (l, some too_many_active_flows)))
      ⊎ ((l.active_flows < l.max_active_flows)
          × (acquire l ≡ (record l { active_flows = l.active_flows + 1 }, none)))
unfolding acquire
acquire_limited l h f = elim (Bool-cases (leb l.max_active_flows l.active_flows)) [
  | inl full ↦ inl (ground arith, rw (h, full) refl)
  | inr room ↦ inr (ground arith, rw (h, room) (ground arith))
]

bind_session-HasSlots :
    (m : Manager) (request : Request) (conn : ℕ) (dialled : Option ℕ)
    → get_session m request.request_id ≡ none
    → HasSlots m
    → m.limiter.active_flows < m.limiter.max_active_flows
    → HasSlots
        (bind_session
          (record m { limiter = record m.limiter { active_flows = m.limiter.active_flows + 1 } })
          request
          conn
          dialled).0
unfolding bind_session get_session
bind_session-HasSlots m request conn none free v room = record {
  limited = v.limited;
  fits = v.fits;
  held = omega (arith, v.held);
  bounded = omega arith;
}
bind_session-HasSlots m request conn (some local) free v room = record {
  limited = v.limited;
  fits = v.fits;
  held = omega (
    arith,
    v.held,
    length-insert_new request.request_id (new_session request conn local) m.sessions free,
  );
  bounded = omega arith;
}

-- `RegisterSession` keeps a limiter slot behind every session, on each of its paths, under a limit in
-- force.
pub register_session-HasSlots :
    (m : Manager) (request : Request) (conn : ℕ) (dialled : Option ℕ)
    → HasSlots m
    → HasSlots (register_session m request conn dialled).0
register_session-HasSlots m request conn dialled v =
    elim (Option-cases (get_session m request.request_id)) [
      | inr (s, found) ↦ rw (register_session_existing m request conn dialled s found) v
      | inl free ↦ elim (acquire_limited m.limiter v.limited v.fits) [
        | inl (full, e) ↦
            rw
              (register_session_limited m request conn dialled too_many_active_flows free
                (ap (λ p. p.1) e))
              (rw e v)
        | inr (room, e) ↦
            rw (register_session_admitted m request conn dialled free (ap (λ p. p.1) e))
              (rw e (bind_session-HasSlots m request conn dialled free v room))
      ]
    ]

-- `UnregisterSession` of a session in the table keeps a limiter slot behind every session.
pub unregister_session-HasSlots :
    (m : Manager) (id : RequestId) (s : Session)
    → get_session m id ≡ some s
    → HasSlots m
    → HasSlots (unregister_session m id).0
unfolding unregister_session get_session release
unregister_session-HasSlots m id s h v = ground (arith, length-remove_found id m.sessions h)

-- The leak: a free identifier whose socket cannot be bound takes a slot for good. The table is as it
-- was, one more flow counts as active, and nothing is left that would release it.
pub register_session_leaks :
    (m : Manager) (request : Request) (conn : ℕ)
    → HasSlots m
    → get_session m request.request_id ≡ none
    → m.limiter.active_flows < m.limiter.max_active_flows
    → let (m', r) = register_session m request conn none in
      (r ≡ refused dial_failed)
      × (m'.sessions ≡ m.sessions)
      × (m'.limiter.active_flows ≡ m.limiter.active_flows + 1)
      × (m'.limiter.max_active_flows ≡ m.limiter.max_active_flows)
      × HasSlots m'
unfolding bind_session
register_session_leaks m request conn v free room =
    elim (acquire_limited m.limiter v.limited v.fits) [
      | inl (full, e) ↦ absurd (omega arith)
      | inr (_, e) ↦ rw (register_session_admitted m request conn none free (ap (λ p. p.1) e)) (
          rw e (
            refl,
            refl,
            refl,
            refl,
            record {
              limited = v.limited;
              fits = v.fits;
              held = omega (arith, v.held);
              bounded = omega arith;
            },
          ))
    ]

-- Registrations one after the other, each of which finds no socket to bind.
unfoldable pub fail_each : Manager → ℕ → List Request → Manager
fail_each m conn [] = m
fail_each m conn (r ∷ rs) = fail_each (register_session m r conn none).0 conn rs

free_of_empty : (m : Manager) (id : RequestId) → m.sessions ≡ [] → get_session m id ≡ none
unfolding get_session lookup
free_of_empty m id h = rw h refl

record Leaked (m : Manager) (n : ℕ) (m' : Manager) : Type 0 where
  slots : HasSlots m'
  empty : m'.sessions ≡ []
  active : m'.limiter.active_flows ≡ m.limiter.active_flows + n
  limit : m'.limiter.max_active_flows ≡ m.limiter.max_active_flows

fail_each-Leaked :
    (m : Manager) (conn : ℕ) (rs : List Request)
    → HasSlots m
    → m.sessions ≡ []
    → m.limiter.active_flows + length rs ≤ m.limiter.max_active_flows
    → Leaked m (length rs) (fail_each m conn rs)
unfolding fail_each
fail_each-Leaked m conn [] v empty room = record {
  slots = v;
  empty = empty;
  active = omega arith;
  limit = refl;
}
fail_each-Leaked m conn (r ∷ rs) v empty room =
    let leak =
      register_session_leaks m r conn v (free_of_empty m r.request_id empty) (omega arith) in
    let m' : Manager = (register_session m r conn none).0 in
    let rest =
      fail_each-Leaked m' conn rs leak.4 (leak.1 ∙ empty) (omega (arith, leak.2, leak.3)) in
    record {
      slots = rest.slots;
      empty = rest.empty;
      active = omega (arith, rest.active, leak.2);
      limit = rest.limit ∙ leak.3;
    }

full_refuses :
    (m : Manager) (r : Request) (conn : ℕ) (dialled : Option ℕ)
    → HasSlots m
    → m.sessions ≡ []
    → m.limiter.max_active_flows ≤ m.limiter.active_flows
    → register_session m r conn dialled ≡ (m, refused session_registration_rate_limited)
full_refuses m r conn dialled v empty full = elim (acquire_limited m.limiter v.limited v.fits) [
  | inl (_, e) ↦
      register_session_limited m r conn dialled too_many_active_flows
        (free_of_empty m r.request_id empty) (ap (λ p. p.1) e)
      ∙ rw e refl
  | inr (room, _) ↦ absurd (omega arith)
]

new_manager-HasSlots : (max : ℕ) → max ≢ 0 → max < 2 ^ 64 → HasSlots (new_manager (new_limiter max))
unfolding new_manager new_limiter
new_manager-HasSlots max nonzero fits = ground arith

-- The leak makes the service fail: after as many registrations that find no socket as the limit
-- allows flows, a new manager refuses every further registration as rate limited, whatever the
-- dialer would do, though it has no session at all.
pub dial_failures_exhaust :
    (max conn conn' : ℕ) (rs : List Request) (r : Request) (dialled : Option ℕ)
    → max ≢ 0
    → max < 2 ^ 64
    → length rs ≡ max
    → let m = fail_each (new_manager (new_limiter max)) conn rs in
      (m.sessions ≡ [])
      × (register_session m r conn' dialled ≡ (m, refused session_registration_rate_limited))
unfolding new_manager new_limiter
dial_failures_exhaust max conn conn' rs r dialled nonzero fits all =
    let start = new_manager-HasSlots max nonzero fits in
    let leaked =
      fail_each-Leaked (new_manager (new_limiter max)) conn rs start refl (omega arith) in
    (
      leaked.empty,
      full_refuses _ r conn' dialled leaked.slots leaked.empty
          (omega (arith, leaked.active, leaked.limit)),
    )
