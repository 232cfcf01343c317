-- ===== src/DatagramV2/Tests.antt =====
-- Runs of the datagrams.
use shitflared.Prelude.{ℕ, ◌≡◌, refl, arith, List, [], ◌∷◌, some, replicate}
use shitflared.DatagramV2.{Session, Packet, traced_packet, send_packet, demux, to_packets}
use shitflared.DatagramV2.RoundTrip.{demux-send_packet}

abbrev a_session : Session
a_session = record { id = replicate 16 7; payload = 1 ∷ 2 ∷ 3 ∷ [] }

abbrev a_packet : Packet
a_packet = traced_packet (69 ∷ 0 ∷ []) (replicate 25 9)

demux-send_packet_example :
    (msg : List ℕ) × ((send_packet a_packet ≡ some msg) × (demux msg ≡ some (to_packets a_packet)))
demux-send_packet_example = demux-send_packet a_packet refl (omega arith)
