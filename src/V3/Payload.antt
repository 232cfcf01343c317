-- ===== src/V3/Payload.antt =====
-- quic/v3/datagram.go: the datagrams that carry a UDP payload and an ICMP packet.
pub mod RoundTrip
mod Tests
use shitflared.Prelude.{
  ℕ, ◌+◌, Bool, ◌||◌, List, [], ◌∷◌, ◌++◌, length, drop, ltb, leb, ◌==◌, if◌then◌else◌, Option,
  none, some,
}
use shitflared.V3.RequestId.{RequestId, marshal_id, request_id_of}
use shitflared.V3.Wire.{
  Result, ok, err, payload_header_too_small, payload_invalid_size, invalid_type,
  icmp_payload_too_large, icmp_payload_missing, ◌>>=◌, payload_type, icmp_type,
  max_datagram_payload_len, parse_datagram_type, slice, slice_from,
}

-- The type and the request identifier.
abbrev pub payload_header_len : ℕ
payload_header_len = 17

abbrev pub max_payload_plus_header_len : ℕ
max_payload_plus_header_len = 1297

pub record Payload : Type 0 where
  pub request_id : RequestId
  pub payload : List ℕ

-- `MarshalPayloadHeaderTo` overwrites the first 17 bytes of the buffer that it is given.
unfoldable pub marshal_payload_header_to : RequestId → List ℕ → Result (List ℕ)
marshal_payload_header_to id buffer =
    if ltb (length buffer) payload_header_len
    then err payload_header_too_small
    else ok (payload_type ∷ (marshal_id id ++ drop payload_header_len buffer))

unfoldable pub unmarshal_payload : List ℕ → Result Payload
unmarshal_payload bytes = do
  typ ← parse_datagram_type bytes
  if typ == payload_type
      then (if ltb (length bytes) payload_header_len
            || ltb max_payload_plus_header_len (length bytes)
          then err payload_invalid_size
          else do
            id ← slice 1 payload_header_len bytes
            payload ← slice_from payload_header_len bytes
            ok (record { request_id = request_id_of id; payload = payload }))
      else err invalid_type

unfoldable pub marshal_icmp : List ℕ → Result (List ℕ)
marshal_icmp payload =
    if ltb max_datagram_payload_len (length payload)
    then err icmp_payload_too_large
    else if length payload == 0
    then err icmp_payload_missing
    else ok (icmp_type ∷ payload)

unfoldable pub unmarshal_icmp : List ℕ → Result (List ℕ)
unmarshal_icmp bytes = do
  typ ← parse_datagram_type bytes
  if typ == icmp_type
      then (do
        payload ← slice_from 1 bytes
        if ltb max_datagram_payload_len (length payload)
            then err icmp_payload_too_large
            else if length payload == 0
            then err icmp_payload_missing
            else ok payload)
      else err invalid_type
