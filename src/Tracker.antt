-- ===== src/Tracker.antt =====
-- tunnelstate/conntracker.go: the connections' state by their index. Each method under the mutex is one
-- step; edge addresses are numbers.
pub mod Active
mod Tests
use shitflared.Prelude.{
  ℕ, suc, Bool, true, false, ◌||◌, List, [], ◌∷◌, Option, none, some, if◌then◌else◌, lookup, insert,
  nat_eq,
}
use shitflared.Supervisor.Protocol.{Protocol, http2, quic, same_protocol}

pub data Status : Type 0 where
  disconnected connected reconnecting set_url registering_tunnel unregistering : Status

pub record Event : Type 0 where
  pub index : ℕ  -- uint8
  pub event_type : Status
  pub protocol : Protocol
  pub edge_address : ℕ

pub record ConnectionInfo : Type 0 where
  pub is_connected : Bool
  pub protocol : Protocol
  pub edge_address : ℕ

abbrev pub ConnTracker : Type 0
ConnTracker = List (ℕ × ConnectionInfo)

-- The zero value: protocol 0 is HTTP2.
abbrev pub zero_info : ConnectionInfo
zero_info = record { is_connected = false; protocol = http2; edge_address = 0 }

abbrev pub or_zero_info : Option ConnectionInfo → ConnectionInfo
or_zero_info none = zero_info
or_zero_info (some ci) = ci

unfoldable pub new_conn_tracker : ConnTracker
new_conn_tracker = []

unfoldable pub not_connected : ConnTracker → ℕ → ConnTracker
not_connected ct index =
    insert index (record (or_zero_info (lookup index ct)) { is_connected = false }) ct

unfoldable pub on_status : ConnTracker → Event → Status → ConnTracker
on_status ct e connected =
    insert e.index
      (record { is_connected = true; protocol = e.protocol; edge_address = e.edge_address }) ct
on_status ct e disconnected = not_connected ct e.index
on_status ct e reconnecting = not_connected ct e.index
on_status ct e registering_tunnel = not_connected ct e.index
on_status ct e unregistering = not_connected ct e.index
on_status ct e set_url = ct

unfoldable pub on_tunnel_event : ConnTracker → Event → ConnTracker
on_tunnel_event ct e = on_status ct e e.event_type

unfoldable pub count_active_conns : ConnTracker → ℕ
count_active_conns [] = 0
count_active_conns ((index, ci) ∷ ct) =
    let n = count_active_conns ct in if ci.is_connected then suc n else n

unfoldable pub has_connected_with : ConnTracker → Protocol → Bool
has_connected_with [] p = false
has_connected_with ((index, ci) ∷ ct) p = same_protocol ci.protocol p || has_connected_with ct p

unfoldable pub get_active_connections : ConnTracker → List (ℕ × ConnectionInfo)
get_active_connections [] = []
get_active_connections ((index, ci) ∷ ct) =
    let rest = get_active_connections ct in if ci.is_connected then (index, ci) ∷ rest else rest
