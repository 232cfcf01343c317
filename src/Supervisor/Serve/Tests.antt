-- ===== src/Supervisor/Serve/Tests.antt =====
-- Attempts of the connection 0 over an edge with two regions.
use shitflared.Prelude.{
  ◌≡◌, ◌≢◌, refl, ap, arith, true, false, [], ◌∷◌, some, lookup, insert, nat_eq, inr,
}
use shitflared.EdgeDiscovery.AddrSet.{
  EdgeAddr, addr_eq, v4, unused, pick, used_by_conn, unused_but, addr_used_by, available_addrs,
  get_unused_ip, assign, give_back,
}
use shitflared.EdgeDiscovery.AddrSet.Counts.{uses}
use shitflared.EdgeDiscovery.Region.{
  Region, primary_set, region_addr_used_by, region_available_addrs, assign_any_address,
  region_give_back, after_give_back, activate_primary,
}
use shitflared.EdgeDiscovery.Regions.{
  regions_addr_used_by, get_addrs, prefers_1, get_unused_addr, regions_give_back,
}
use shitflared.EdgeDiscovery.Regions.Flat.{total}
use shitflared.EdgeDiscovery.Edge.{Chance, get_addr, get_different_addr}
use shitflared.EdgeDiscovery.Edge.Invariant.{Inv}
use shitflared.Retry.{new_backoff, get_max_backoff_duration, deadline_passed, get_base_time}
use shitflared.Supervisor.Fallback.{
  new_ip_addr_fallback, should_get_new_address, dial_failed, retries_of,
}
use shitflared.Supervisor.Protocol.{quic, http2}
use shitflared.Tracker.{new_conn_tracker}
use shitflared.Supervisor.Serve.{
  Attempt, EdgeTunnelServer, ended, no_addresses_left, dial, timer_fired, serve, with_address,
  finish, wait_for_retry, serve_tunnel,
}
use shitflared.Supervisor.Serve.Attempts.{next_attempt_moves, serve_keeps_protocol, NotToBlame}

abbrev first_addr : EdgeAddr
first_addr = record { pointer = 1; ip_version = v4 }

abbrev other_addr : EdgeAddr
other_addr = record { pointer = 2; ip_version = v4 }

abbrev region_of : EdgeAddr → Region
region_of a = record {
  primary_is_active = true;
  active = primary_set;
  primary = (a, unused) ∷ [];
  secondary = [];
  primary_timeout = 0;
  timeout_duration = 600;
}

abbrev server : EdgeTunnelServer
server = record {
  regions = record { region1 = region_of first_addr; region2 = region_of other_addr };
  fallback = new_ip_addr_fallback 3;
  protocols = record {
    backoff = new_backoff 5 1000000000 true;
    protocol = quic;
    in_fallback = false;
  };
}

abbrev chance : Chance
chance = record { held = 0; free = 0; coin = true }

abbrev fails_to_dial : Attempt
fails_to_dial = record {
  first_chance = chance;
  second_chance = chance;
  connected_at = 40;
  now = 100;
  timer_at = 101;
  woken_at = 130;
  connects = false;
  ending = dial;
  cancelled = false;
  wake = timer_fired;
  tracker = new_conn_tracker;
  selector = record { current = quic; fallback = some http2 };
  quic_broken = false;
}

server-Inv : Inv (total server.regions)
unfolding lookup uses
server-Inv = record { distinct = (refl, (refl, tt)); one_each = λ conn. ground arith }

first_used : (serve 0 fails_to_dial server).1 ≡ (some first_addr, ended dial)
unfolding serve get_addr get_different_addr regions_addr_used_by region_addr_used_by addr_used_by
    pick used_by_conn get_unused_addr prefers_1 region_available_addrs available_addrs get_addrs
    assign_any_address get_unused_ip unused_but assign insert lookup regions_give_back
    region_give_back after_give_back give_back activate_primary with_address finish wait_for_retry
    serve_tunnel should_get_new_address dial_failed retries_of new_ip_addr_fallback
    get_max_backoff_duration get_base_time deadline_passed new_backoff
first_used = refl

found_another : (serve 0 fails_to_dial server).1.1 ≢ no_addresses_left
found_another h = absurd (cc (ap (λ r. r.1) first_used, h))

next_attempt_moves_example :
    (z : EdgeAddr) × ((z ≢ first_addr)
      × ((serve 0 fails_to_dial (serve 0 fails_to_dial server).0).1.0 ≡ some z))
next_attempt_moves_example =
    next_attempt_moves 0 fails_to_dial fails_to_dial server first_addr server-Inv tt
      (ap (λ r. r.0) first_used) found_another

retries_left : NotToBlame 0 fails_to_dial server
unfolding retries_of new_ip_addr_fallback lookup
retries_left = inr (tt, omega arith)

serve_keeps_protocol_example : (serve 0 fails_to_dial server).0.protocols.protocol ≡ quic
serve_keeps_protocol_example = serve_keeps_protocol 0 fails_to_dial server retries_left
