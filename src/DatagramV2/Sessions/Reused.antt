-- ===== src/DatagramV2/Sessions/Reused.antt =====
-- datagramsession/manager.go: a session whose identifier is registered again.
use mathlib.Core.Path.{subst}
use shitflared.Prelude.{
  nat_eq, beq_refl, ℕ, suc, ◌≡◌, refl, sym, ap, ◌∙◌, arith, Bool, true, false, List, [], ◌∷◌, ◌++◌,
  Option, none, some, lookup, insert, if◌then◌else◌, lookup-insert, lookup-remove,
}
use shitflared.Flow.{Limiter, FlowError, acquire}
use shitflared.DatagramV2.Sessions.{
  Connection, dialed, RegisterError, add_session, give_back, admitted, register_udp_session,
  close_session, unregister_session, request_unregister, by_itself, closed_by_remote, take_session,
  session_ended, registers, ends, step, not_registered,
}

admitted_lem :
    (id : ℕ) (c : Connection) (r : Limiter × Option FlowError)
    → c.running ≡ true
    → r.1 ≡ none
    → (admitted id dialed c r).0 ≡ add_session id (record c { limiter = r.0 })
admitted_lem id c (l, some e) up h = absurd cc
admitted_lem id c (l, none) up h = ap (chosen (record c { limiter = l })) up
  where
    chosen : Connection → Bool → Connection
    chosen d running =
        let r : Connection × Option RegisterError =
          if running then (add_session id d, none) else give_back not_registered d in
        r.0

unregistered :
    (id s : ℕ) (c : Connection)
    → c.running ≡ true
    → lookup id c.sessions ≡ some s
    → request_unregister id false true c ≡ close_session id false (some s) c
unfolding request_unregister unregister_session
unregistered id s c up found = rw (up, found) refl

-- Both sessions are served, that of the identifier is the newer one, and the end of the older one takes
-- it down.
abbrev pub TakenDown : ℕ → Connection → Connection → Type 0
TakenDown id c d =
    ((lookup c.next d.serving ≡ some id) × (lookup (suc c.next) d.serving ≡ some id))
    × ((lookup id d.sessions ≡ some (suc c.next))
        × ((lookup id (step (ends c.next id by_itself true) d).sessions ≡ none)
            × ((lookup (suc c.next) (step (ends c.next id by_itself true) d).serving ≡ some id)
                × ((step (ends c.next id by_itself true) d).close_chans
                    ≡ c.close_chans ++ ((suc c.next, false) ∷ [])))))

registered :
    (id : ℕ) (c : Connection)
    → c.running ≡ true
    → (acquire c.limiter).1 ≡ none
    → step (registers id dialed) c ≡ add_session id (record c { limiter = (acquire c.limiter).0 })
unfolding step register_udp_session
registered id c up room = admitted_lem id c (acquire c.limiter) up room

registered_again :
    (id : ℕ) (c : Connection)
    → c.running ≡ true
    → (acquire (acquire c.limiter).0).1 ≡ none
    → step (registers id dialed) (add_session id (record c { limiter = (acquire c.limiter).0 }))
      ≡ add_session id (record (add_session id (record c { limiter = (acquire c.limiter).0 })) {
        limiter = (acquire (acquire c.limiter).0).0;
      })
unfolding add_session
registered_again id c up again =
    registered id (add_session id (record c { limiter = (acquire c.limiter).0 })) up again

newer_stays :
    (n id : ℕ) (older : List (ℕ × ℕ))
    → lookup (suc n) (take_session n ((suc n, id) ∷ older)) ≡ some id
unfolding lookup take_session
newer_stays n id older = ground arith

both_served :
    (n id : ℕ) (older : List (ℕ × ℕ))
    → (lookup n ((suc n, id) ∷ (n, id) ∷ older) ≡ some id)
      × (lookup (suc n) ((suc n, id) ∷ (n, id) ∷ older) ≡ some id)
unfolding lookup
both_served n id older = (ground arith, ground arith)

-- The newer session stands in front of the older one.
both :
    (id : ℕ) (c : Connection) (l m : Limiter)
    → c.running ≡ true
    → TakenDown id c
        (add_session id (record (add_session id (record c { limiter = l })) { limiter = m }))
unfolding step session_ended add_session closed_by_remote take_session
both id c l m up =
    let d = add_session id (record (add_session id (record c { limiter = l })) { limiter = m }) in
    let found : lookup id d.sessions ≡ some (suc c.next) =
      lookup-insert id id (suc c.next) (insert id c.next c.sessions) ∙ rw (beq_refl id) refl in
    let taken =
      subst
        (λ u.
          (lookup id u.sessions ≡ none)
          × ((lookup (suc c.next) (take_session c.next u.serving) ≡ some id)
              × (u.close_chans ≡ c.close_chans ++ ((suc c.next, false) ∷ []))))
        (sym (unregistered id (suc c.next) d up found))
        (
          lookup-remove id id d.sessions ∙ rw (beq_refl id) refl,
          (newer_stays c.next id ((c.next, id) ∷ c.serving), refl),
        ) in
    (both_served c.next id c.serving, (found, taken))

-- An identifier that is registered while a session has it goes to the new session, and both are served;
-- as the old session ends by itself, the new one is removed from the map and gets told to close. The
-- limiter has room for both.
pub reused_identifier_closes :
    (id : ℕ) (c : Connection)
    → c.running ≡ true
    → (acquire c.limiter).1 ≡ none
    → (acquire (acquire c.limiter).0).1 ≡ none
    → TakenDown id c (step (registers id dialed) (step (registers id dialed) c))
reused_identifier_closes id c up room again =
    let once = registered id c up room in
    subst (TakenDown id c)
      (sym (ap (λ d. step (registers id dialed) d) once ∙ registered_again id c up again))
      (both id c (acquire c.limiter).0 (acquire (acquire c.limiter).0).0 up)
