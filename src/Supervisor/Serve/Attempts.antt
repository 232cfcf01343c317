-- ===== src/Supervisor/Serve/Attempts.antt =====
-- supervisor/tunnel.go over edgediscovery and tunnelstate: what an attempt leaves to the next one.
use mathlib.Core.Path.{subst}
use mathlib.Core.Option.{some-injective}
use shitflared.Prelude.{
  ℕ, ◌<◌, ◌≡◌, ◌≢◌, ◌⊎◌, refl, sym, ap, ◌∙◌, arith, Bool, true, false, Option, none, some,
  if◌then◌else◌, lookup, inl, inr,
}
use shitflared.EdgeDiscovery.AddrSet.{EdgeAddr, in_use, addr_eq}
use shitflared.EdgeDiscovery.Regions.{Regions}
use shitflared.EdgeDiscovery.Regions.Flat.{total}
use shitflared.EdgeDiscovery.Edge.{get_addr, get_different_addr}
use shitflared.EdgeDiscovery.Edge.Invariant.{Inv, get_addr-Inv, get_different_addr-Inv}
use shitflared.EdgeDiscovery.Edge.History.{
  get_addr_gives, get_addr_held, finds_held, get_different_addr_differs,
}
use shitflared.Retry.{backoff_timer, get_max_backoff_duration}
use shitflared.Supervisor.Fallback.{IpAddrFallback, should_get_new_address, retries_of, verdict}
use shitflared.Supervisor.Protocol.{ProtocolFallback, reset}
use shitflared.Tracker.{has_connected_with}
use shitflared.Supervisor.Serve.{
  ConnectionEnd, dup_register, edge_quic_dial, idle, dial, without_error, reconnect_signal,
  context_cancelled, unrecoverable, other, panics, server_register, serve_error, serve_tunnel, Wake,
  is_cancelled, shuts_down, timer_fired, Attempt, EdgeTunnelServer, no_addresses_left, after_timer,
  woken, wait_for_retry, finish, fallback_wanted, after_rotation, rotated, with_address,
  served_from, serve,
}

-- The errors for which a connection changes its address.
abbrev pub Rotates : ConnectionEnd → Type 0
Rotates dup_register = Unit
Rotates edge_quic_dial = Unit
Rotates idle = Unit
Rotates dial = Unit
Rotates _ = ⊥

rotates_lem :
    (e : ConnectionEnd) (f : IpAddrFallback) (conn : ℕ)
    → Rotates e
    → (should_get_new_address f conn (serve_error e)).1.0 ≡ true
unfolding should_get_new_address
rotates_lem dup_register f conn r = refl
rotates_lem idle f conn r = refl
rotates_lem dial f conn r = ap (λ v. v.0) (verdict f conn)
rotates_lem edge_quic_dial f conn r = ap (λ v. v.0) (verdict f conn)
rotates_lem without_error f conn r = absurd r
rotates_lem reconnect_signal f conn r = absurd r
rotates_lem context_cancelled f conn r = absurd r
rotates_lem unrecoverable f conn r = absurd r
rotates_lem other f conn r = absurd r
rotates_lem panics f conn r = absurd r
rotates_lem (server_register permanent) f conn r = absurd r

after_rotation_lem :
    (a : Attempt) (connectivity : Option Bool) (s : EdgeTunnelServer)
    (r : Regions × Option EdgeAddr)
    → (after_rotation a connectivity s r).1 ≢ no_addresses_left
    → (z : EdgeAddr) × ((r.1 ≡ some z) × ((after_rotation a connectivity s r).0.regions ≡ r.0))
unfolding finish
after_rotation_lem a connectivity s (rs, none) h = absurd (h refl)
after_rotation_lem a connectivity s (rs, some z) h = (z, (refl, refl))

rotated_lem :
    (conn : ℕ) (a : Attempt) (s : EdgeTunnelServer) (u : IpAddrFallback × (Bool × Option Bool))
    → u.1.0 ≡ true
    → (rotated conn a s u).1 ≢ no_addresses_left
    → let r = get_different_addr a.second_chance s.regions conn true a.now in
      (z : EdgeAddr) × ((r.1 ≡ some z) × ((rotated conn a s u).0.regions ≡ r.0))
rotated_lem conn a s (f, (false, connectivity)) e h = absurd cc
rotated_lem conn a s (f, (true, connectivity)) e h =
    after_rotation_lem a connectivity (record s { fallback = f })
      (get_different_addr a.second_chance s.regions conn true a.now) h

-- The connection has the address, in an edge that is well formed.
abbrev Holds : ℕ → EdgeAddr → Regions → Type 0
Holds conn z rs = Inv (total rs) × (lookup z (total rs) ≡ some (in_use conn))

served_from-moves :
    (conn : ℕ) (a : Attempt) (s : EdgeTunnelServer) (r : Regions × Option EdgeAddr) (x : EdgeAddr)
    → Rotates a.ending
    → Inv (total r.0)
    → (r.1 ≡ some x → lookup x (total r.0) ≡ some (in_use conn))
    → (served_from conn a s r).1.0 ≡ some x
    → (served_from conn a s r).1.1 ≢ no_addresses_left
    → (z : EdgeAddr) × ((z ≢ x) × Holds conn z (served_from conn a s r).0.regions)
unfolding with_address
served_from-moves conn a s (rs, none) x rot v gives used h = absurd cc
served_from-moves conn a s (rs, some y) x rot v gives used h =
    let kept = record s {
      regions = rs;
      protocols = if a.connects then reset s.protocols a.connected_at else s.protocols;
    } in
    let (z, (takes, after)) =
      rotated_lem conn a kept (should_get_new_address s.fallback conn (serve_error a.ending))
        (rotates_lem a.ending s.fallback conn rot) h in
    let other = get_different_addr_differs a.second_chance rs conn true a.now z v takes in
    let same : x ≡ y = some-injective x y (sym used) in
    (
      z,
      (
        λ e. other.0 (ap (λ w. lookup w (total rs)) e ∙ gives used),
        subst (Holds conn z) (sym after)
            (get_different_addr-Inv a.second_chance rs conn true a.now v, other.1),
      ),
    )

address_used :
    (conn : ℕ) (b : Attempt) (s : EdgeTunnelServer) (z : EdgeAddr)
    → Holds conn z s.regions
    → (serve conn b s).1.0 ≡ some z
unfolding serve
address_used conn b s z (v, held) =
    ap (λ r. (served_from conn b s r).1.0)
      (get_addr_held b.first_chance s.regions conn z
        (finds_held b.first_chance.held s.regions conn z v held))

-- After an attempt that fails to dial, idles out or is a duplicate, and finds another address, the next
-- attempt of the connection uses another address than the one that failed.
pub next_attempt_moves :
    (conn : ℕ) (a b : Attempt) (s : EdgeTunnelServer) (x : EdgeAddr)
    → Inv (total s.regions)
    → Rotates a.ending
    → (serve conn a s).1.0 ≡ some x
    → (serve conn a s).1.1 ≢ no_addresses_left
    → (z : EdgeAddr) × ((z ≢ x) × ((serve conn b (serve conn a s).0).1.0 ≡ some z))
unfolding serve
next_attempt_moves conn a b s x v rot used h =
    let (z, (differs, holds)) =
      served_from-moves conn a s (get_addr a.first_chance s.regions conn) x rot
        (get_addr-Inv a.first_chance s.regions conn v)
        (λ e. (get_addr_gives a.first_chance s.regions conn x v e).0) used h in
    (z, (differs, address_used conn b (serve conn a s).0 z holds))

-- The failures that count as connectivity errors.
abbrev pub FailsToDial : ConnectionEnd → Type 0
FailsToDial edge_quic_dial = Unit
FailsToDial dial = Unit
FailsToDial _ = ⊥

-- The protocol in use cannot be what is wrong: a connection is made with it, or there are other
-- addresses to try.
abbrev pub NotToBlame : ℕ → Attempt → EdgeTunnelServer → Type 0
NotToBlame conn a s =
    (has_connected_with a.tracker a.selector.current ≡ true)
    ⊎ (FailsToDial a.ending × (retries_of s.fallback conn < s.fallback.max_retries))

-- The fallback is not wanted, or not tried.
abbrev Unwanted : Attempt → Bool → Type 0
Unwanted a wanted = (has_connected_with a.tracker a.selector.current ≡ true) ⊎ (wanted ≡ false)

after_timer-protocol :
    (a : Attempt) (wanted : Bool) (pf : ProtocolFallback)
    → Unwanted a wanted
    → (after_timer a wanted pf).protocol ≡ pf.protocol
unfolding after_timer
after_timer-protocol a false pf h = refl
after_timer-protocol a true pf (inl c) = rw (c, after_timer) refl
after_timer-protocol a true pf (inr e) = absurd cc

woken-protocol :
    (w : Wake) (a : Attempt) (wanted : Bool) (pf : ProtocolFallback)
    → Unwanted a wanted
    → (woken w a wanted pf).0.protocol ≡ pf.protocol
woken-protocol is_cancelled a wanted pf h = refl
woken-protocol shuts_down a wanted pf h = refl
woken-protocol timer_fired a wanted pf h = after_timer-protocol a wanted pf h

finish-protocol :
    (a : Attempt) (wanted : Bool) (s : EdgeTunnelServer)
    → Unwanted a wanted
    → (finish a wanted s).0.protocols.protocol ≡ s.protocols.protocol
unfolding finish wait_for_retry
finish-protocol a wanted s h = by (get_max_backoff_duration s.protocols.backoff a.cancelled a.now)
  where
    by : (o : Option ℕ) → (wait_for_retry a wanted o s.protocols).0.protocol ≡ s.protocols.protocol
    by none = refl
    by (some d) =
        woken-protocol a.wake a wanted
          (record s.protocols { backoff = (backoff_timer s.protocols.backoff a.timer_at).0 }) h

after_rotation-protocol :
    (a : Attempt) (connectivity : Option Bool) (s : EdgeTunnelServer)
    (r : Regions × Option EdgeAddr)
    → Unwanted a (fallback_wanted (serve_tunnel a.ending) connectivity)
    → (after_rotation a connectivity s r).0.protocols.protocol ≡ s.protocols.protocol
after_rotation-protocol a connectivity s (rs, none) h = refl
after_rotation-protocol a connectivity s (rs, some z) h =
    finish-protocol a (fallback_wanted (serve_tunnel a.ending) connectivity)
      (record s { regions = rs }) h

rotated-protocol :
    (conn : ℕ) (a : Attempt) (s : EdgeTunnelServer) (u : IpAddrFallback × (Bool × Option Bool))
    → (has_connected_with a.tracker a.selector.current ≡ true) ⊎ (u.1 ≡ (true, some false))
    → (rotated conn a s u).0.protocols.protocol ≡ s.protocols.protocol
rotated-protocol conn a s (f, (false, c)) (inl known) =
    finish-protocol a (serve_tunnel a.ending) (record s { fallback = f }) (inl known)
rotated-protocol conn a s (f, (false, c)) (inr e) = absurd cc
rotated-protocol conn a s (f, (true, c)) (inl known) =
    after_rotation-protocol a c (record s { fallback = f })
      (get_different_addr a.second_chance s.regions conn true a.now) (inl known)
rotated-protocol conn a s (f, (true, c)) (inr e) =
    after_rotation-protocol a c (record s { fallback = f })
      (get_different_addr a.second_chance s.regions conn true a.now)
      (inr (ap (λ v. fallback_wanted (serve_tunnel a.ending) v.1) e))

fails_to_dial :
    (e : ConnectionEnd) (f : IpAddrFallback) (conn : ℕ)
    → FailsToDial e
    → retries_of f conn < f.max_retries
    → (should_get_new_address f conn (serve_error e)).1 ≡ (true, some false)
unfolding should_get_new_address
fails_to_dial dial f conn r room = verdict f conn ∙ ap (λ b. (true, some b)) (ground (arith, room))
fails_to_dial edge_quic_dial f conn r room =
    verdict f conn ∙ ap (λ b. (true, some b)) (ground (arith, room))
fails_to_dial dup_register f conn r room = absurd r
fails_to_dial idle f conn r room = absurd r
fails_to_dial without_error f conn r room = absurd r
fails_to_dial reconnect_signal f conn r room = absurd r
fails_to_dial context_cancelled f conn r room = absurd r
fails_to_dial unrecoverable f conn r room = absurd r
fails_to_dial other f conn r room = absurd r
fails_to_dial panics f conn r room = absurd r
fails_to_dial (server_register permanent) f conn r room = absurd r

reset_if-protocol :
    (b : Bool) (pf : ProtocolFallback) (now : ℕ)
    → (if b then reset pf now else pf).protocol ≡ pf.protocol
unfolding reset
reset_if-protocol true pf now = refl
reset_if-protocol false pf now = refl

served_from-protocol :
    (conn : ℕ) (a : Attempt) (s : EdgeTunnelServer) (r : Regions × Option EdgeAddr)
    → NotToBlame conn a s
    → (served_from conn a s r).0.protocols.protocol ≡ s.protocols.protocol
unfolding with_address
served_from-protocol conn a s (rs, none) k = refl
served_from-protocol conn a s (rs, some x) k =
    rotated-protocol conn a
      (record s {
        regions = rs;
        protocols = if a.connects then reset s.protocols a.connected_at else s.protocols;
      })
      (should_get_new_address s.fallback conn (serve_error a.ending))
      (elim k [
        | inl known ↦ inl known
        | inr (fails, room) ↦ inr (fails_to_dial a.ending s.fallback conn fails room)
      ])
    ∙ reset_if-protocol a.connects s.protocols a.connected_at

-- An attempt does not change the protocol of the connection while some connection is known to be made
-- with the current protocol, nor when it fails to dial and there are addresses left to try, however it
-- ends.
pub serve_keeps_protocol :
    (conn : ℕ) (a : Attempt) (s : EdgeTunnelServer)
    → NotToBlame conn a s
    → (serve conn a s).0.protocols.protocol ≡ s.protocols.protocol
unfolding serve
serve_keeps_protocol conn a s k =
    served_from-protocol conn a s (get_addr a.first_chance s.regions conn) k
