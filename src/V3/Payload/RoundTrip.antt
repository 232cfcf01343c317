-- ===== src/V3/Payload/RoundTrip.antt =====
-- The payload and ICMP datagrams, there and back, and which inputs they accept.
use shitflared.Prelude.{
  ℕ, ◌≤◌, ◌≡◌, ◌≢◌, ◌↔◌, refl, List, [], ◌∷◌, ◌++◌, arith, length, length-append,
  drop-append_length, ltb, ◌||◌, false,
}
use shitflared.V3.RequestId.{
  RequestId, IsU128, marshal_id, length-marshal_id, request_id_of-marshal_id,
}
use shitflared.V3.Wire.{
  ok, panicked, ◌>>=◌, parse_datagram_type, slice, slice_from, slice-append, slice_from-append,
}
use shitflared.V3.Payload.{
  marshal_payload_header_to, unmarshal_payload, marshal_icmp, unmarshal_icmp,
}

-- The read loop puts the header in front of what it read from the origin, into one buffer: the peer
-- reads back the identifier and exactly the payload, up to 1280 bytes of it.
pub unmarshal_payload-marshal :
    (id : RequestId) (room payload : List ℕ)
    → IsU128 id
    → length room ≡ 17
    → length payload ≤ 1280
    → (marshal_payload_header_to id (room ++ payload) >>= unmarshal_payload)
      ≡ ok (record { request_id = id; payload = payload })
unfolding marshal_payload_header_to unmarshal_payload parse_datagram_type
unmarshal_payload-marshal id room payload fits hr hp =
    let bytes : List ℕ = 1 ∷ (marshal_id id ++ payload) in
    let enough : ltb (length (room ++ payload)) 17 ≡ false = lengths in
    let fits_all : (ltb (length bytes) 17 || ltb 1297 (length bytes)) ≡ false = whole in
    rw (enough, drop-append_length 17 room payload hr)
      (rw
        (
          fits_all,
          slice-append (1 ∷ []) (marshal_id id) payload 1 17 refl
              (omega (arith, length-marshal_id id)),
          slice_from-append (1 ∷ marshal_id id) payload 17 (omega (arith, length-marshal_id id)),
          request_id_of-marshal_id id fits,
        )
        refl)
  where
    lengths : ltb (length (room ++ payload)) 17 ≡ false
    lengths = ground (arith, length-append room payload)

    whole :
        (ltb (length (1 ∷ (marshal_id id ++ payload))) 17
          || ltb 1297 (length (1 ∷ (marshal_id id ++ payload))))
        ≡ false
    whole = ground (arith, length-append (marshal_id id) payload, length-marshal_id id)

-- No input makes either reader panic.
pub unmarshal_payload-ne-panicked : (bytes : List ℕ) → unmarshal_payload bytes ≢ panicked
unfolding unmarshal_payload parse_datagram_type slice slice_from
unmarshal_payload-ne-panicked [] h = cc
unmarshal_payload-ne-panicked (b ∷ bs) h = ground arith

pub unmarshal_icmp-ne-panicked : (bytes : List ℕ) → unmarshal_icmp bytes ≢ panicked
unfolding unmarshal_icmp parse_datagram_type slice_from
unmarshal_icmp-ne-panicked [] h = cc
unmarshal_icmp-ne-panicked (b ∷ bs) h = ground arith

-- ICMP packets of 1 to 1280 bytes are written and read back, and the reader accepts nothing else:
-- what it returns is what the writer turns into the datagram that was read.
pub unmarshal_icmp-marshal_icmp :
    (bytes payload : List ℕ)
    → (unmarshal_icmp bytes ≡ ok payload) ↔ (marshal_icmp payload ≡ ok bytes)
unfolding unmarshal_icmp marshal_icmp parse_datagram_type slice_from
unmarshal_icmp-marshal_icmp [] payload = (λ h. cc, λ h. ground arith)
unmarshal_icmp-marshal_icmp (b ∷ bs) payload = (λ h. ground arith, λ h. ground arith)
