-- ===== src/V3/Registration.antt =====
-- quic/v3/datagram.go: the datagram that registers a UDP session. A duration is its number of
-- nanoseconds, not negative.
pub mod RoundTrip
pub mod Panics
mod Tests
use Prim.Native.Nat.{bit_and, bit_or}
use shitflared.Prelude.{
  ℕ, ◌+◌, ◌*◌, ◌/◌, ◌%◌, ◌^◌, Bool, true, false, ◌&&◌, List, [], ◌∷◌, ◌++◌, length, replicate, ltb,
  leb, ◌==◌, if◌then◌else◌, get_or,
}
use shitflared.Prelude.Bytes.{put_be, get_be}
use shitflared.V3.RequestId.{RequestId, marshal_id, request_id_of}
use shitflared.V3.Wire.{
  Result, ok, err, payload_too_large, invalid_type, ◌>>=◌, registration_type,
  max_datagram_payload_len, parse_datagram_type, slice, slice_from,
}

-- netip.Addr: 4 bytes, 16 bytes (IPv4-mapped addresses too), or the zero value.
pub data Addr : Type 0 where
  no_addr : Addr
  ipv4 ipv6 : List ℕ → Addr

abbrev pub is_6 : Addr → Bool
is_6 (ipv6 bytes) = true
is_6 _ = false

-- `copy(data[22:22+n], addr.AsSlice())` into n zero bytes.
abbrev pub addr_field : Addr → List ℕ
addr_field no_addr = replicate 4 0
addr_field (ipv4 bytes) = bytes
addr_field (ipv6 bytes) = bytes

pub record Registration : Type 0 where
  pub request_id : RequestId
  pub dest : Addr
  pub port : ℕ  -- uint16
  pub traced : Bool
  pub idle_duration_hint : ℕ
  pub payload : List ℕ

abbrev pub ip_mask : ℕ
ip_mask = 1

abbrev pub traced_mask : ℕ
traced_mask = 2

abbrev pub bundled_mask : ℕ
bundled_mask = 4

abbrev pub ipv4_header_len : ℕ
ipv4_header_len = 26

abbrev pub ipv6_header_len : ℕ
ipv6_header_len = 38

abbrev pub second : ℕ
second = 1000000000

unfoldable pub flags_of : Bool → Bool → Bool → ℕ
flags_of traced has_payload v6 =
    bit_or (bit_or (if traced then traced_mask else 0) (if has_payload then bundled_mask else 0))
      (if v6 then ip_mask else 0)

-- The fields are written one behind the other into a buffer of exactly their lengths.
-- `uint16(s.IdleDurationHint.Seconds())` drops the fraction of a second; above 65535 seconds the
-- language leaves the conversion open, and this is the one of the amd64 compiler.
unfoldable pub marshal : Registration → Result (List ℕ)
marshal s =
    let v6 = is_6 s.dest in
    let has_payload = ltb 0 (length s.payload) in
    let max_payload_len =
      max_datagram_payload_len + (if v6 then ipv6_header_len else ipv4_header_len) in
    if ltb max_payload_len (length s.payload)
    then err payload_too_large
    else ok (
        registration_type
        ∷ flags_of s.traced has_payload v6
        ∷ (put_be 2 s.port
            ++ (put_be 2 (s.idle_duration_hint / second)
                ++ (marshal_id s.request_id ++ (addr_field s.dest ++ s.payload)))))

unfoldable pub has_flag : ℕ → ℕ → Bool
has_flag mask flags = bit_and flags mask == mask

-- The address, and the number of bytes before the payload.
unfoldable pub read_dest : Bool → List ℕ → Result (Addr × ℕ)
read_dest true bytes = slice 22 38 bytes >>= λ addr. ok (ipv6 addr, ipv6_header_len)
read_dest false bytes = slice 22 26 bytes >>= λ addr. ok (ipv4 addr, ipv4_header_len)

unfoldable pub read_payload : Bool → ℕ → List ℕ → Result (List ℕ)
read_payload bundled header_len bytes =
    if bundled && leb header_len (length bytes) then slice_from header_len bytes else ok []

-- What follows the test of the type.
unfoldable pub unmarshal_fields : List ℕ → Result Registration
unmarshal_fields bytes = do
  id ← slice 6 22 bytes
  port ← slice 2 4 bytes
  dest ← read_dest (has_flag ip_mask (get_or bytes 1 0)) bytes
  idle ← slice 4 6 bytes
  payload ← read_payload (has_flag bundled_mask (get_or bytes 1 0)) dest.1 bytes
  ok (record {
    request_id = request_id_of id;
    dest = dest.0;
    port = get_be port;
    traced = has_flag traced_mask (get_or bytes 1 0);
    idle_duration_hint = get_be idle * second;
    payload = payload;
  })

unfoldable pub unmarshal : List ℕ → Result Registration
unmarshal bytes = do
  typ ← parse_datagram_type bytes
  if typ == registration_type then unmarshal_fields bytes else err invalid_type
