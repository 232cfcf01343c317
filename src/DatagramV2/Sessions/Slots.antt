-- ===== src/DatagramV2/Sessions/Slots.antt =====
-- connection/quic_datagram_v2.go with flow/limiter.go: the slots of the limiter are those of the
-- sessions.
use shitflared.Prelude.{
  nat_eq, ℕ, suc, ◌+◌, ◌-◌, ◌%◌, ◌^◌, ◌≤◌, ◌<◌, ◌≡◌, refl, sym, ap, ◌∙◌, arith, Bool, true, false,
  not, ◌&&◌, List, [], ◌∷◌, Option, none, some, leb, length, lookup, if◌then◌else◌,
}
use shitflared.Flow.{Limiter, FlowError, too_many_active_flows, acquire, release, new_limiter}
use shitflared.DatagramV2.Sessions.{
  Connection, Attempt, bad_address, dial_failed, timed_out, dialed, add_session, dial, admitted,
  register_udp_session, close_session, unregister_session, request_unregister, closed_by_remote,
  take_session, after_serve, session_ended, unregister_all, shutdown_sessions, Event, registers,
  unregisters, ends, shuts_down, step, new_connection,
}

-- A session's end comes from its goroutine.
abbrev pub Enabled : Event → Connection → Type 0
Enabled (registers id attempt) c = Unit
Enabled (unregisters id in_time) c = Unit
Enabled (ends session id ending in_time) c = lookup session c.serving ≡ some id
Enabled shuts_down c = Unit

-- The connection is reached in `n` steps.
pub data Reaches (c : Connection) : ℕ → Connection → Type 0 where
  here : Reaches c 0 c
  next :
      {n : ℕ} {d : Connection}
      → Reaches c n d
      → (e : Event) → Enabled e d
      → Reaches c (suc n) (step e d)

abbrev Balanced : ℕ → Connection → Type 0
Balanced n c = (c.limiter.active_flows ≡ length c.serving) × (length c.serving ≤ n)

abbrev SameSlots : Connection → Connection → Type 0
SameSlots c d = (d.limiter ≡ c.limiter) × (d.serving ≡ c.serving)

length-take_session :
    (session id : ℕ) (list : List (ℕ × ℕ))
    → lookup session list ≡ some id
    → length (take_session session list) + 1 ≡ length list
unfolding lookup take_session
length-take_session session id [] h = absurd cc
length-take_session session id ((s, i) ∷ rest) h =
    ground (arith, length-take_session session id rest)

active-release : (l : Limiter) → (release l).active_flows ≡ l.active_flows - 1
unfolding release
active-release l = ground arith

unregister_session-SameSlots :
    (id : ℕ) (by_remote : Bool) (c : Connection) → SameSlots c (unregister_session id by_remote c)
unfolding unregister_session
unregister_session-SameSlots id by_remote c = by (lookup id c.sessions)
  where
    by : (o : Option ℕ) → SameSlots c (close_session id by_remote o c)
    by none = (refl, refl)
    by (some session) = (refl, refl)

request_unregister-SameSlots :
    (id : ℕ) (by_remote in_time : Bool) (c : Connection)
    → SameSlots c (request_unregister id by_remote in_time c)
unfolding request_unregister
request_unregister-SameSlots id by_remote in_time c = by (c.running && in_time)
  where
    by : (b : Bool) → SameSlots c (if b then unregister_session id by_remote c else c)
    by true = unregister_session-SameSlots id by_remote c
    by false = (refl, refl)

unregister_all-SameSlots :
    (list : List (ℕ × ℕ)) (c : Connection) → SameSlots c (unregister_all list c)
unfolding unregister_all
unregister_all-SameSlots [] c = (refl, refl)
unregister_all-SameSlots ((id, session) ∷ rest) c =
    let first = unregister_session-SameSlots id true c in
    let later = unregister_all-SameSlots rest (unregister_session id true c) in
    (later.0 ∙ first.0, later.1 ∙ first.1)

after_serve-SameSlots :
    (id : ℕ) (remote in_time : Bool) (c : Connection)
    → SameSlots c (after_serve id remote in_time c)
after_serve-SameSlots id true in_time c = (refl, refl)
after_serve-SameSlots id false in_time c = request_unregister-SameSlots id false in_time c

admitted-Balanced :
    (n id : ℕ) (attempt : Attempt) (c : Connection) (r : Limiter × Option FlowError)
    → Balanced n c
    → (r.1 ≡ none → r.0.active_flows ≡ suc c.limiter.active_flows)
    → Balanced (suc n) (admitted id attempt c r).0
unfolding add_session
admitted-Balanced n id attempt c (l, some e) b up = (b.0, omega (arith, b.1))
admitted-Balanced n id attempt c (l, none) b up = by attempt c.running
  where
    kept : Balanced (suc n) (record c { limiter = release l })
    kept = (omega (arith, active-release l, up refl, b.0), omega (arith, b.1))

    by :
        (a : Attempt) (running : Bool)
        → Balanced (suc n) (dial id a (record c { limiter = l; running = running })).0
    by bad_address running = kept
    by dial_failed running = kept
    by timed_out running = kept
    by dialed true = (omega (arith, up refl, b.0), omega (arith, b.1))
    by dialed false = kept

acquire-counts :
    (l : Limiter)
    → suc l.active_flows < 2 ^ 64
    → (acquire l).1 ≡ none
    → (acquire l).0.active_flows ≡ suc l.active_flows
unfolding acquire
acquire-counts l room h = by (not l.unlimited && leb l.max_active_flows l.active_flows) h
  where
    by :
        (b : Bool)
        → let r : Limiter × Option FlowError =
            if b
            then (l, some too_many_active_flows)
            else (record l { active_flows = (l.active_flows + 1) % 2 ^ 64 }, none) in
          r.1 ≡ none → r.0.active_flows ≡ suc l.active_flows
    by true e = absurd cc
    by false e = omega (arith, room)

step-Balanced :
    (n : ℕ) (e : Event) (c : Connection)
    → suc n < 2 ^ 64
    → Enabled e c
    → Balanced n c
    → Balanced (suc n) (step e c)
unfolding step register_udp_session session_ended shutdown_sessions
step-Balanced n (registers id attempt) c room on b =
    admitted-Balanced n id attempt c (acquire c.limiter) b
      (acquire-counts c.limiter (omega (arith, room, b.0, b.1)))
step-Balanced n (unregisters id in_time) c room on b =
    let s = request_unregister-SameSlots id true in_time c in
    (
      ap (λ l. l.active_flows) s.0 ∙ (b.0 ∙ ap (λ g. length g) (sym s.1)),
      omega (arith, b.1, ap (λ g. length g) s.1),
    )
step-Balanced n (ends session id ending in_time) c room on b =
    let s = after_serve-SameSlots id (closed_by_remote ending session c.close_chans) in_time c in
    let after = after_serve id (closed_by_remote ending session c.close_chans) in_time c in
    let one_less = ap (λ g. length (take_session session g)) s.1 in
    let taken = length-take_session session id c.serving on in
    (
      omega
          (arith, active-release after.limiter, ap (λ l. l.active_flows) s.0, b.0, one_less, taken),
      omega (arith, one_less, taken, b.1),
    )
step-Balanced n shuts_down c room on b =
    let s = unregister_all-SameSlots c.sessions c in
    (
      ap (λ l. l.active_flows) s.0 ∙ (b.0 ∙ ap (λ g. length g) (sym s.1)),
      omega (arith, b.1, ap (λ g. length g) s.1),
    )

reached :
    (max n : ℕ) (c : Connection)
    → n < 2 ^ 64
    → Reaches (new_connection (new_limiter max)) n c
    → Balanced n c
unfolding new_connection new_limiter
reached max n c room here = (refl, omega arith)
reached max n c room (next {n = m} {d} r e on) =
    step-Balanced m e d room on (reached max m d (omega (arith, room)) r)

-- Whatever a connection that has a limiter of its own is asked for, the active flows of its limiter
-- are the sessions that are served: registrations that fail keep no slot, and a session that ends
-- gives its slot back. There are fewer than 2^64 requests.
pub Reaches-balanced :
    (max n : ℕ) (c : Connection)
    → n < 2 ^ 64
    → Reaches (new_connection (new_limiter max)) n c
    → c.limiter.active_flows ≡ length c.serving
Reaches-balanced max n c room r = (reached max n c room r).0
