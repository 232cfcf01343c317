-- ===== src/V3/Muxer/Serve.antt =====
-- The loop over datagrams: what each type starts, and what stops the loop.
use shitflared.Prelude.{ℕ, ◌<◌, ◌≡◌, ◌↔◌, List, [], ◌∷◌, arith, length, get_elem?, some}
use shitflared.V3.Wire.{parse_datagram_type, registration_type}
use shitflared.V3.Registration.Panics.{needed_len, unmarshal_panics_iff}
use shitflared.V3.Payload.RoundTrip.{unmarshal_payload-ne-panicked, unmarshal_icmp-ne-panicked}
use shitflared.V3.Muxer.{crashed, demux}

-- One datagram crashes the loop, and with it the process, exactly if it is of the registration type
-- and shorter than the header that its flags announce; no other datagram does.
pub demux_crashes_iff :
    (bytes : List ℕ)
    → (demux bytes ≡ crashed)
      ↔ ((get_elem? bytes 0 ≡ some registration_type) × (length bytes < needed_len bytes))
unfolding demux parse_datagram_type
demux_crashes_iff [] = (λ h. cc, λ h. cc)
demux_crashes_iff (b ∷ bs) =
    let panics = unmarshal_panics_iff (b ∷ bs) in
    let payload = unmarshal_payload-ne-panicked (b ∷ bs) in
    let icmp = unmarshal_icmp-ne-panicked (b ∷ bs) in
    (λ h. ground (arith, panics.0, payload, icmp), λ h. ground (arith, panics.1))
