-- ===== src/DatagramV2/Sessions/Tests.antt =====
-- Runs of the sessions.
use shitflared.Prelude.{nat_eq, ◌≡◌, refl, arith, true, none, some, length, lookup, insert}
use shitflared.Flow.{acquire, new_limiter}
use shitflared.DatagramV2.Sessions.{
  Connection, registers, ends, dialed, dial_failed, by_itself, step, new_connection, add_session,
  register_udp_session,
}
use shitflared.DatagramV2.Sessions.Slots.{here, next, Reaches-balanced}
use shitflared.DatagramV2.Sessions.Reused.{TakenDown, reused_identifier_closes}

abbrev begun : Connection
begun = new_connection (new_limiter 2)

abbrev one_served : Connection
one_served = step (registers 9 dial_failed) (step (registers 7 dialed) begun)

session_runs : lookup 0 one_served.serving ≡ some 7
unfolding step register_udp_session add_session new_connection acquire new_limiter lookup insert
session_runs = refl

Reaches-balanced_example :
    (step (ends 0 7 by_itself true) one_served).limiter.active_flows
    ≡ length (step (ends 0 7 by_itself true) one_served).serving
Reaches-balanced_example =
    Reaches-balanced 2 3 (step (ends 0 7 by_itself true) one_served) (omega arith) (
      next (next (next here (registers 7 dialed) tt) (registers 9 dial_failed) tt)
        (ends 0 7 by_itself true) session_runs)

begun-running : begun.running ≡ true
unfolding new_connection
begun-running = refl

begun-acquire : (acquire begun.limiter).1 ≡ none
unfolding new_connection new_limiter acquire
begun-acquire = refl

begun-acquire_again : (acquire (acquire begun.limiter).0).1 ≡ none
unfolding new_connection new_limiter acquire
begun-acquire_again = refl

reused_identifier_closes_example :
    TakenDown 7 begun (step (registers 7 dialed) (step (registers 7 dialed) begun))
reused_identifier_closes_example =
    reused_identifier_closes 7 begun begun-running begun-acquire begun-acquire_again
