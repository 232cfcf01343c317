-- ===== src/V3/Registration/Tests.antt =====
-- Registration datagrams, and the theorems at one.
use shitflared.Prelude.{ℕ, ◌<◌, ◌≡◌, ◌↔◌, refl, true, List, [], ◌∷◌, some, arith, get_elem?}
use shitflared.Prelude.Bytes.{put_be, get_be}
use shitflared.V3.RequestId.{RequestId, marshal_id, request_id_of}
use shitflared.V3.Wire.{ok, panicked, ◌>>=◌, slice, slice_from, parse_datagram_type}
use shitflared.V3.Registration.{
  Registration, ipv4, marshal, flags_of, has_flag, read_dest, read_payload, unmarshal,
  unmarshal_fields,
}
use shitflared.V3.Registration.RoundTrip.{carried, unmarshal-marshal}
use shitflared.V3.Registration.Panics.{needed_len, unmarshal_panics_iff}

abbrev dns : Registration
dns = record {
  request_id = record { hi = 1; lo = 0xffff_ffff_ffff_ffff };
  dest = ipv4 (1 ∷ 1 ∷ 1 ∷ 1 ∷ []);
  port = 53;
  traced = true;
  idle_duration_hint = 5500000000;
  payload = 7 ∷ 8 ∷ [];
}

-- The first six bytes: type, flags, port and whole seconds.
dns_bytes : (marshal dns >>= λ bytes. slice 0 6 bytes) ≡ ok (0 ∷ 6 ∷ 0 ∷ 53 ∷ 0 ∷ 5 ∷ [])
unfolding marshal flags_of slice put_be marshal_id
dns_bytes = refl

dns_read : (marshal dns >>= unmarshal) ≡ ok (record dns { idle_duration_hint = 5000000000 })
unfolding marshal unmarshal unmarshal_fields flags_of has_flag read_dest read_payload slice
    slice_from parse_datagram_type put_be get_be marshal_id request_id_of
dns_read = refl

unmarshal-marshal_example : (marshal dns >>= unmarshal) ≡ ok (carried dns)
unmarshal-marshal_example = unmarshal-marshal dns (record {
  id_fits = omega arith;
  dest_valid = omega arith;
  port_fits = omega arith;
  idle_fits = omega arith;
  payload_fits = omega arith;
})

abbrev zero_byte : List ℕ
zero_byte = 0 ∷ []

-- A single zero byte.
unmarshal_panics_iff_example :
    (unmarshal zero_byte ≡ panicked)
    ↔ ((get_elem? zero_byte 0 ≡ some 0) × (1 < needed_len zero_byte))
unmarshal_panics_iff_example = unmarshal_panics_iff zero_byte

one_byte_panics : unmarshal zero_byte ≡ panicked
unfolding has_flag
one_byte_panics = (unmarshal_panics_iff zero_byte).1 (refl, omega arith)

abbrev low : RequestId
low = record { hi = 0; lo = 5 }

abbrev high : RequestId
high = record { hi = 1; lo = 3 }
