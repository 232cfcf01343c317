-- ===== src/Server/Tests.antt =====
-- Runs of the server's theorems and tests of its definitions.
use shitflared.Prelude.Text.{codes, same_text, has_prefix}
use shitflared.Prelude.{
  ◌+◌, ◌-◌, ◌≤◌, ◌≡◌, ◌↔◌, refl, arith, false, List, [], ◌∷◌, ◌++◌, none, some, length, lookup,
  insert,
}
use shitflared.Server.{
  to_lower, QuickTunnelRequest, AppConfig, known_protocol, known_proxy, validate, proxy_env,
  max_tunnels_reached, port_out_of_range, error_reply, decoded, Server, new_server, check_start,
}
use shitflared.Server.Steps.{
  Event, start_checked, start_registered, worker_exited, step, run, register_start, worker_exits,
  new_handle,
}
use shitflared.Server.Request.{IsValid, validate_iff}
use shitflared.Server.Limit.{
  run-new_server_bounded, checks, registrations, concurrent_starts_pass_limit,
}
use shitflared.Server.Exhaust.{answered_tunnels_exhaust}

abbrev one_tunnel : AppConfig
one_tunnel = record { default_protocol = codes "quic"; max_tunnels = 1 }

abbrev plain : QuickTunnelRequest
plain = record { host = codes "localhost"; port = 80; protocol = codes "QUIC"; proxy = [] }

abbrev proxied : QuickTunnelRequest
proxied = record plain { proxy = codes "socks5://127.0.0.1:9050" }

plain_passes : validate plain ≡ none
unfolding validate known_protocol known_proxy same_text has_prefix to_lower
plain_passes = refl

port_zero_fails : validate (record plain { port = 0 }) ≡ some port_out_of_range
unfolding validate known_protocol known_proxy same_text has_prefix to_lower
port_zero_fails = refl

socks_env : length (proxy_env (codes "socks5://h:1")) ≡ 2
unfolding proxy_env has_prefix
socks_env = refl

validate_iff_example : (validate plain ≡ none) ↔ IsValid plain
validate_iff_example = validate_iff plain

abbrev one_start : List Event
one_start = start_checked (decoded plain) ∷ start_registered 7 7 plain 0 ∷ []

abbrev after_one_start : Server
after_one_start = record {
  config = one_tunnel;
  running = (7, 7) ∷ [];
  heap = (7, new_handle one_tunnel 7 plain 0) ∷ [];
  hub = (7, none) ∷ [];
  admitted = 0;
}

run-one_start : run 1 (new_server one_tunnel) one_start ≡ some after_one_start
unfolding run step check_start validate known_protocol known_proxy same_text has_prefix to_lower
    new_server register_start insert lookup
run-one_start = refl

run-new_server_bounded_example :
    length after_one_start.running + after_one_start.admitted
    ≤ after_one_start.config.max_tunnels + (1 - 1)
run-new_server_bounded_example =
    run-new_server_bounded 1 one_tunnel after_one_start one_start (omega arith) run-one_start

concurrent_starts_pass_limit_example :
    (t : Server) × ((run 3 (new_server one_tunnel) (checks plain 3 ++ registrations plain 3)
        ≡ some t)
      × (length t.running ≡ 3))
concurrent_starts_pass_limit_example =
    concurrent_starts_pass_limit one_tunnel plain 3 plain_passes (omega arith)

abbrev answered : Server
answered = record after_one_start { hub = [] }

abbrev exits : List Event
exits = worker_exited 7 false ∷ []

abbrev after_exits : Server
after_exits = worker_exits answered 7 false

run-exits : run 1 answered exits ≡ some after_exits
unfolding run step
run-exits = refl

answered_tunnels_exhaust_example :
    (after_exits.running ≡ answered.running)
    × (check_start after_exits (decoded plain) ≡ some (error_reply 503 max_tunnels_reached))
answered_tunnels_exhaust_example =
    answered_tunnels_exhaust 1 answered after_exits exits plain (omega arith) refl refl (refl, tt)
      run-exits plain_passes
