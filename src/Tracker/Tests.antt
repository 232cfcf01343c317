-- ===== src/Tracker/Tests.antt =====
-- Runs of the theorems on the tracker.
use shitflared.Prelude.{◌≡◌, refl, true, lookup}
use shitflared.Supervisor.Protocol.{quic, http2}
use shitflared.Tracker.{
  Event, connected, reconnecting, new_conn_tracker, on_tunnel_event, has_connected_with,
}
use shitflared.Tracker.Active.{has_connected_with_unconnected}

abbrev up : Event
up = record { index = 1; event_type = connected; protocol = quic; edge_address = 5 }

abbrev down : Event
down = record { index = 2; event_type = reconnecting; protocol = quic; edge_address = 5 }

has_connected_with_unconnected_example :
    has_connected_with (on_tunnel_event new_conn_tracker down) http2 ≡ true
unfolding new_conn_tracker lookup
has_connected_with_unconnected_example =
    has_connected_with_unconnected new_conn_tracker down refl refl
