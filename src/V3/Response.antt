-- ===== src/V3/Response.antt =====
-- quic/v3/datagram.go: the response to a registration. A message is its bytes.
pub mod RoundTrip
mod Tests
use shitflared.Prelude.{ℕ, ◌+◌, ◌-◌, List, [], ◌∷◌, ◌++◌, length, get_or, ltb, ◌==◌, if◌then◌else◌}
use shitflared.Prelude.Bytes.{put_be, get_be}
use shitflared.V3.RequestId.{RequestId, marshal_id, request_id_of}
use shitflared.V3.Wire.{
  Result, ok, err, response_msg_invalid_size, response_invalid_size, invalid_type,
  response_msg_too_large_maximum, response_msg_too_large_datagram, ◌>>=◌, response_type,
  max_datagram_payload_len, parse_datagram_type, slice, slice_from,
}

-- A `SessionRegistrationResp` byte, and the values that cloudflared sends.
abbrev pub response_ok : ℕ
response_ok = 0

abbrev pub response_destination_unreachable : ℕ
response_destination_unreachable = 1

abbrev pub response_unable_to_bind_socket : ℕ
response_unable_to_bind_socket = 2

abbrev pub response_too_many_active_flows : ℕ
response_too_many_active_flows = 3

abbrev pub response_error_with_msg : ℕ
response_error_with_msg = 255

pub record Response : Type 0 where
  pub request_id : RequestId
  pub response_type : ℕ  -- byte
  pub error_msg : List ℕ

abbrev pub response_len : ℕ
response_len = 20

abbrev pub max_error_message_len : ℕ
max_error_message_len = max_datagram_payload_len - response_len

-- The length field is left 0 for an empty message, which is what `put_be` writes for it.
unfoldable pub marshal_response : Response → Result (List ℕ)
marshal_response s =
    if ltb max_error_message_len (length s.error_msg)
    then err response_msg_invalid_size
    else ok (
        response_type
        ∷ s.response_type
        ∷ (marshal_id s.request_id ++ (put_be 2 (length s.error_msg) ++ s.error_msg)))

-- The message is all that follows the length field, also where the field says less.
unfoldable pub read_message : ℕ → List ℕ → Result (List ℕ)
read_message len bytes =
    if ltb max_error_message_len len then err response_msg_too_large_maximum else do
      rest ← slice_from response_len bytes
      if ltb (length rest) len
          then err response_msg_too_large_datagram
          else if ltb 0 len
          then ok rest
          else ok []

unfoldable pub unmarshal_response : List ℕ → Result Response
unmarshal_response bytes = do
  typ ← parse_datagram_type bytes
  if typ == response_type
      then (if ltb (length bytes) response_len then err response_invalid_size else do
        id ← slice 2 18 bytes
        len ← slice 18 20 bytes
        msg ← read_message (get_be len) bytes
        ok (record {
          request_id = request_id_of id;
          response_type = get_or bytes 1 0;
          error_msg = msg;
        }))
      else err invalid_type
