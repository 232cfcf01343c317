-- ===== src/Supervisor/Serve.antt =====
-- supervisor/tunnel.go: one attempt of a connection (Serve), over its edge address, its retries and its
-- protocol. What the connection to the edge comes to, the time and the random choices are arguments.
pub mod Attempts
mod Tests
use shitflared.Prelude.{ℕ, Bool, true, false, not, List, [], ◌∷◌, Option, none, some, if◌then◌else◌}
use shitflared.EdgeDiscovery.AddrSet.{EdgeAddr}
use shitflared.EdgeDiscovery.Regions.{Regions}
use shitflared.EdgeDiscovery.Edge.{Chance, get_addr, get_different_addr}
use shitflared.Retry.{Backoff, backoff_timer, get_max_backoff_duration}
use shitflared.Supervisor.Fallback.{
  IpAddrFallback, ServeError, no_error, dup_conn_register, idle_timeout, dial_error,
  edge_quic_dial_error, other_error, should_get_new_address,
}
use shitflared.Supervisor.Protocol.{ProtocolFallback, Selector, reset, select_next_protocol}
use shitflared.Tracker.{ConnTracker, has_connected_with}

-- How `serveConnection` ends, by the types of error that are told apart; `panics` is a panic in it.
pub data ConnectionEnd : Type 0 where
  without_error dup_register edge_quic_dial reconnect_signal context_cancelled : ConnectionEnd
  idle dial unrecoverable other panics : ConnectionEnd
  server_register : (permanent : Bool) → ConnectionEnd

-- The error that `serveTunnel` returns, as `ShouldGetNewAddress` tells errors apart.
abbrev pub serve_error : ConnectionEnd → ServeError
serve_error without_error = no_error
serve_error dup_register = dup_conn_register
serve_error edge_quic_dial = edge_quic_dial_error
serve_error idle = idle_timeout
serve_error dial = dial_error
serve_error _ = other_error

-- Whether the error is recoverable, the second result of `serveTunnel`.
unfoldable pub serve_tunnel : ConnectionEnd → Bool
serve_tunnel without_error = false
serve_tunnel dup_register = false
serve_tunnel edge_quic_dial = false
serve_tunnel context_cancelled = false
serve_tunnel unrecoverable = false
serve_tunnel (server_register permanent) = not permanent
serve_tunnel reconnect_signal = true
serve_tunnel idle = true
serve_tunnel dial = true
serve_tunnel other = true
serve_tunnel panics = true

-- The case of the `select` that comes first.
pub data Wake : Type 0 where
  is_cancelled shuts_down timer_fired : Wake

-- What an attempt meets. `connects` is whether `Connected` was called, at `connected_at`; `now` is
-- the time after the connection has ended, `timer_at` that of the timer, and `woken_at` that of the
-- choice of the next protocol; `quic_broken` is `isQuicBroken` of the error, `selector` what the
-- selector answers and `tracker` the connections at the end.
pub record Attempt : Type 0 where
  pub first_chance : Chance
  pub second_chance : Chance
  pub connected_at : ℕ
  pub now : ℕ
  pub timer_at : ℕ
  pub woken_at : ℕ
  pub connects : Bool
  pub ending : ConnectionEnd
  pub cancelled : Bool
  pub wake : Wake
  pub tracker : ConnTracker
  pub selector : Selector
  pub quic_broken : Bool

-- What the attempts of all connections share, and the protocol fallback of one.
pub record EdgeTunnelServer : Type 0 where
  pub regions : Regions
  pub fallback : IpAddrFallback
  pub protocols : ProtocolFallback

pub data Served : Type 0 where
  no_addresses_left : Served
  cancelled_error shut_down : Served
  ended : ConnectionEnd → Served

unfoldable pub after_timer :
    Attempt → (should_fallback : Bool) → ProtocolFallback → ProtocolFallback
after_timer a should_fallback pf =
    if not should_fallback
    then pf
    else if has_connected_with a.tracker a.selector.current
    then pf
    else (select_next_protocol pf a.selector a.quic_broken a.woken_at).0

abbrev pub woken :
    Wake → Attempt → (should_fallback : Bool) → ProtocolFallback → ProtocolFallback × Served
woken is_cancelled a should_fallback pf = (pf, cancelled_error)
woken shuts_down a should_fallback pf = (pf, shut_down)
woken timer_fired a should_fallback pf = (after_timer a should_fallback pf, ended a.ending)

-- `BackoffTimer` is called as the `select` is reached, whichever case comes first.
unfoldable pub wait_for_retry :
    Attempt
    → (should_fallback : Bool) → (wait : Option ℕ) → ProtocolFallback
    → ProtocolFallback × Served
wait_for_retry a should_fallback none pf = (pf, ended a.ending)
wait_for_retry a should_fallback (some d) pf =
    woken a.wake a should_fallback (record pf { backoff = (backoff_timer pf.backoff a.timer_at).0 })

unfoldable pub finish :
    Attempt → (should_fallback : Bool) → EdgeTunnelServer → EdgeTunnelServer × Served
finish a should_fallback s =
    let waited =
      wait_for_retry a should_fallback
        (get_max_backoff_duration s.protocols.backoff a.cancelled a.now) s.protocols in
    (record s { protocols = waited.0 }, waited.1)

abbrev pub fallback_wanted : (recoverable : Bool) → (connectivity : Option Bool) → Bool
fallback_wanted recoverable none = recoverable
fallback_wanted recoverable (some reached_max_retries) = reached_max_retries

abbrev pub after_rotation :
    Attempt
    → (connectivity : Option Bool) → EdgeTunnelServer
    → Regions × Option EdgeAddr
    → EdgeTunnelServer × Served
after_rotation a connectivity s (rs, none) = (record s { regions = rs }, no_addresses_left)
after_rotation a connectivity s (rs, some addr) =
    finish a (fallback_wanted (serve_tunnel a.ending) connectivity) (record s { regions = rs })

abbrev pub rotated :
    ℕ
    → Attempt
    → EdgeTunnelServer
    → IpAddrFallback × (Bool × Option Bool)
    → EdgeTunnelServer × Served
rotated conn a s (f, (false, connectivity)) =
    finish a (serve_tunnel a.ending) (record s { fallback = f })
rotated conn a s (f, (true, connectivity)) =
    after_rotation a connectivity (record s { fallback = f })
      (get_different_addr a.second_chance s.regions conn true a.now)

unfoldable pub with_address : ℕ → Attempt → EdgeTunnelServer → EdgeTunnelServer × Served
with_address conn a s =
    rotated conn a
      (record s {
        protocols = if a.connects then reset s.protocols a.connected_at else s.protocols;
      })
      (should_get_new_address s.fallback conn (serve_error a.ending))

abbrev pub served_from :
    ℕ
    → Attempt
    → EdgeTunnelServer
    → Regions × Option EdgeAddr
    → EdgeTunnelServer × (Option EdgeAddr × Served)
served_from conn a s (rs, none) = (record s { regions = rs }, (none, no_addresses_left))
served_from conn a s (rs, some addr) =
    let r = with_address conn a (record s { regions = rs }) in (r.0, (some addr, r.1))

-- `Serve`, with the address that it used.
unfoldable pub serve :
    ℕ → Attempt → EdgeTunnelServer → EdgeTunnelServer × (Option EdgeAddr × Served)
serve conn a s = served_from conn a s (get_addr a.first_chance s.regions conn)
