-- ===== src/V3/Registration/Panics.antt =====
-- A registration datagram that is too short for its fixed fields: `UnmarshalBinary` slices it
-- without a look at its length.
use shitflared.Prelude.{
  ℕ, ◌<◌, ◌≡◌, ◌≢◌, ◌↔◌, refl, Bool, true, false, List, [], ◌∷◌, arith, length, get_or, get_elem?,
  some, if◌then◌else◌,
}
use shitflared.V3.Wire.{panicked, slice, slice_from, registration_type, parse_datagram_type}
use shitflared.V3.Registration.{
  has_flag, bundled_mask, read_dest, read_payload, unmarshal_fields, unmarshal, ip_mask,
  ipv4_header_len, ipv6_header_len,
}

-- The bytes that `UnmarshalBinary` slices without a test, by the address family of the flags.
abbrev pub needed_len : List ℕ → ℕ
needed_len bytes = if has_flag ip_mask (get_or bytes 1 0) then ipv6_header_len else ipv4_header_len

read_payload-ne-panicked : (b : Bool) (n : ℕ) (bytes : List ℕ) → read_payload b n bytes ≢ panicked
unfolding read_payload slice_from
read_payload-ne-panicked b n bytes = ground arith

unmarshal_fields_panics :
    (v6 : Bool) (bytes : List ℕ)
    → has_flag ip_mask (get_or bytes 1 0) ≡ v6
    → (unmarshal_fields bytes ≡ panicked)
      ↔ (length bytes < (if v6 then ipv6_header_len else ipv4_header_len))
unfolding unmarshal_fields slice read_dest
unmarshal_fields_panics true bytes e =
    let rest = read_payload-ne-panicked (has_flag bundled_mask (get_or bytes 1 0)) 38 bytes in
    (λ h. ground (arith, rest), λ h. ground (arith, rest))
unmarshal_fields_panics false bytes e =
    let rest = read_payload-ne-panicked (has_flag bundled_mask (get_or bytes 1 0)) 26 bytes in
    (λ h. ground (arith, rest), λ h. ground (arith, rest))

-- `UnmarshalBinary` panics on exactly the datagrams of the registration type that are shorter than
-- 26 bytes, or 38 where the flag for IPv6 is set (38 and 26 are the header lengths): a byte sequence
-- that the peer chooses, with no error returned.
pub unmarshal_panics_iff :
    (bytes : List ℕ)
    → (unmarshal bytes ≡ panicked)
      ↔ ((get_elem? bytes 0 ≡ some registration_type) × (length bytes < needed_len bytes))
unfolding unmarshal parse_datagram_type
unmarshal_panics_iff [] = ground arith
unmarshal_panics_iff (b ∷ bs) =
    let fields = unmarshal_fields_panics (has_flag ip_mask (get_or (b ∷ bs) 1 0)) (b ∷ bs) refl in
    (λ h. ground (arith, fields.0), λ h. ground (arith, fields.1))
