-- ===== src/V3/Response/Tests.antt =====
-- The response theorem at a concrete response, with a byte behind the datagram.
use shitflared.Prelude.{◌≡◌, [], ◌∷◌, ◌++◌, arith}
use shitflared.V3.Wire.{ok, ◌>>=◌}
use shitflared.V3.Response.{Response, response_error_with_msg, marshal_response, unmarshal_response}
use shitflared.V3.Response.RoundTrip.{extended, unmarshal_response-marshal_response}

abbrev failed : Response
failed = record {
  request_id = record { hi = 1; lo = 2 };
  response_type = response_error_with_msg;
  error_msg = b'n' ∷ b'o' ∷ [];
}

unmarshal_response-marshal_response_example :
    (marshal_response failed >>= λ bytes. unmarshal_response (bytes ++ (0 ∷ [])))
    ≡ ok (record failed { error_msg = b'n' ∷ b'o' ∷ 0 ∷ [] })
unfolding extended
unmarshal_response-marshal_response_example =
    unmarshal_response-marshal_response failed (0 ∷ []) (omega arith) (omega arith)
