-- ===== src/V3/Registration/RoundTrip.antt =====
-- The registration datagram read back from what `marshal` wrote.
use mathlib.Core.List.{append_assoc}
use shitflared.Prelude.{
  ℕ, suc, ◌+◌, ◌*◌, ◌/◌, ◌^◌, ◌≤◌, ◌<◌, ◌≡◌, refl, Bool, true, false, List, [], ◌∷◌, ◌++◌, arith,
  length, length-append, ltb, if◌then◌else◌, leb_of_le,
}
use shitflared.Prelude.Bytes.{put_be, get_be, length-put_be, get_be-put_be}
use shitflared.V3.RequestId.{
  IsU128, marshal_id, request_id_of, length-marshal_id, request_id_of-marshal_id,
}
use shitflared.V3.Wire.{
  ok, slice, slice_from, slice-append, slice_from-append, parse_datagram_type, ◌>>=◌,
}
use shitflared.V3.Registration.{
  Addr, no_addr, ipv4, ipv6, is_6, addr_field, Registration, flags_of, marshal, has_flag, read_dest,
  read_payload, unmarshal_fields, unmarshal, second, ipv4_header_len, ipv6_header_len, ip_mask,
  traced_mask, bundled_mask,
}

-- An address of one of the two families, with its number of bytes.
abbrev pub IsAddr : Addr → Type 0
IsAddr no_addr = ⊥
IsAddr (ipv4 bytes) = length bytes ≡ 4
IsAddr (ipv6 bytes) = length bytes ≡ 16

abbrev pub header_len : Addr → ℕ
header_len a = if is_6 a then ipv6_header_len else ipv4_header_len

-- What the wire format can carry without loss.
pub record IsWire (s : Registration) : Type 0 where
  pub id_fits : IsU128 s.request_id
  pub dest_valid : IsAddr s.dest
  pub port_fits : s.port < 2 ^ 16
  pub idle_fits : s.idle_duration_hint / second < 2 ^ 16
  pub payload_fits : length s.payload ≤ 1280

has_flag-flags_of :
    (t b v : Bool)
    → (has_flag traced_mask (flags_of t b v) ≡ t)
      × (has_flag bundled_mask (flags_of t b v) ≡ b)
      × (has_flag ip_mask (flags_of t b v) ≡ v)
unfolding has_flag flags_of
has_flag-flags_of true true true = (refl, refl, refl)
has_flag-flags_of true true false = (refl, refl, refl)
has_flag-flags_of true false true = (refl, refl, refl)
has_flag-flags_of true false false = (refl, refl, refl)
has_flag-flags_of false true true = (refl, refl, refl)
has_flag-flags_of false true false = (refl, refl, refl)
has_flag-flags_of false false true = (refl, refl, refl)
has_flag-flags_of false false false = (refl, refl, refl)

-- The buffer, with each write as a part of its own.
abbrev buffer : ℕ → List ℕ → List ℕ → List ℕ → List ℕ → List ℕ
buffer flags port idle id tail = 0 ∷ flags ∷ (port ++ (idle ++ (id ++ tail)))

record Lengths (port idle id : List ℕ) : Type 0 where
  of_port : length port ≡ 2
  of_idle : length idle ≡ 2
  of_id : length id ≡ 16

module _ (flags : ℕ) (port idle id : List ℕ) (h : Lengths port idle id) where
  slice-port : (tail : List ℕ) → slice 2 4 (buffer flags port idle id tail) ≡ ok port
  slice-port tail =
      slice-append (0 ∷ flags ∷ []) port (idle ++ (id ++ tail)) 2 4 refl (omega (arith, h.of_port))

  slice-idle : (tail : List ℕ) → slice 4 6 (buffer flags port idle id tail) ≡ ok idle
  slice-idle tail =
      slice-append (0 ∷ flags ∷ port) idle (id ++ tail) 4 6 (omega (arith, h.of_port))
        (omega (arith, h.of_idle))

  slice-id : (tail : List ℕ) → slice 6 22 (buffer flags port idle id tail) ≡ ok id
  slice-id tail = rw (← append_assoc port idle (id ++ tail)) (
      slice-append (0 ∷ flags ∷ (port ++ idle)) id tail 6 22
        (omega (arith, length-append port idle, h.of_port, h.of_idle)) (omega (arith, h.of_id)))

  abbrev before_tail : List ℕ
  before_tail = 0 ∷ flags ∷ (port ++ (idle ++ id))

  length-before_tail : length before_tail ≡ 22
  length-before_tail =
      omega (
        arith,
        length-append port (idle ++ id),
        length-append idle id,
        h.of_port,
        h.of_idle,
        h.of_id,
      )

  buffer-split : (tail : List ℕ) → buffer flags port idle id tail ≡ before_tail ++ tail
  buffer-split tail = simp append_assoc

  slice-addr :
      (hi : ℕ) (addr payload : List ℕ)
      → length addr + 22 ≡ hi
      → slice 22 hi (buffer flags port idle id (addr ++ payload)) ≡ ok addr
  slice-addr hi addr payload ha =
      rw (buffer-split (addr ++ payload))
        (slice-append before_tail addr payload 22 hi length-before_tail ha)

  slice_from-payload :
      (lo : ℕ) (addr payload : List ℕ)
      → length addr + 22 ≡ lo
      → slice_from lo (buffer flags port idle id (addr ++ payload)) ≡ ok payload
  slice_from-payload lo addr payload ha =
      rw (buffer-split (addr ++ payload), ← append_assoc before_tail addr payload)
        (slice_from-append (before_tail ++ addr) payload lo
          (omega (arith, length-append before_tail addr, length-before_tail)))

  length-buffer :
      (addr payload : List ℕ)
      → length (buffer flags port idle id (addr ++ payload)) ≡ 22 + length addr + length payload
  length-buffer addr payload = omega (
    arith,
    length-append port (idle ++ (id ++ (addr ++ payload))),
    length-append idle (id ++ (addr ++ payload)),
    length-append id (addr ++ payload),
    length-append addr payload,
    h.of_port,
    h.of_idle,
    h.of_id,
  )

  -- A payload is read where the flag says that there is one, and it is empty otherwise.
  read_payload-buffer :
      (lo : ℕ) (addr payload : List ℕ)
      → length addr + 22 ≡ lo
      → read_payload (ltb 0 (length payload)) lo (buffer flags port idle id (addr ++ payload))
        ≡ ok payload
  unfolding read_payload
  read_payload-buffer lo addr [] ha = refl
  read_payload-buffer lo addr (x ∷ xs) ha =
      let bytes : List ℕ = buffer flags port idle id (addr ++ (x ∷ xs)) in
      let bundled : ltb 0 (suc (length xs)) ≡ true = ground arith in
      rw (bundled, leb_of_le lo (length bytes) (omega (arith, length-buffer addr (x ∷ xs))))
        (slice_from-payload lo addr (x ∷ xs) ha)

-- The source's `s`, as it comes back: the idle time in whole seconds.
unfoldable pub carried : Registration → Registration
carried s = record s { idle_duration_hint = s.idle_duration_hint / second * second }

read_dest-buffer :
    (dest : Addr) (flags : ℕ) (port idle id payload : List ℕ)
    → Lengths port idle id
    → IsAddr dest
    → read_dest (is_6 dest) (buffer flags port idle id (addr_field dest ++ payload))
      ≡ ok (dest, header_len dest)
unfolding read_dest
read_dest-buffer no_addr flags port idle id payload h d = absurd d
read_dest-buffer (ipv4 bytes) flags port idle id payload h d =
    rw (slice-addr flags port idle id h 26 bytes payload (omega arith)) refl
read_dest-buffer (ipv6 bytes) flags port idle id payload h d =
    rw (slice-addr flags port idle id h 38 bytes payload (omega arith)) refl

length-addr_field : (dest : Addr) → IsAddr dest → length (addr_field dest) + 22 ≡ header_len dest
length-addr_field no_addr d = absurd d
length-addr_field (ipv4 bytes) d = omega arith
length-addr_field (ipv6 bytes) d = omega arith

unmarshal_fields-buffer :
    (t : Bool) (dest : Addr) (port idle id payload : List ℕ)
    → Lengths port idle id
    → IsAddr dest
    → unmarshal_fields (
        buffer
          (flags_of t (ltb 0 (length payload)) (is_6 dest))
          port
          idle
          id
          (addr_field dest ++ payload))
      ≡ ok (record {
        request_id = request_id_of id;
        dest = dest;
        port = get_be port;
        traced = t;
        idle_duration_hint = get_be idle * second;
        payload = payload;
      })
unfolding unmarshal_fields
unmarshal_fields-buffer t dest port idle id payload h d =
    let b : Bool = ltb 0 (length payload) in
    let flags : ℕ = flags_of t b (is_6 dest) in
    let tail : List ℕ = addr_field dest ++ payload in
    let read = has_flag-flags_of t b (is_6 dest) in
    rw (slice-id flags port idle id h tail) (
      rw (slice-port flags port idle id h tail) (
        rw read.2 (
          rw (read_dest-buffer dest flags port idle id payload h d) (
            rw (slice-idle flags port idle id h tail) (
              rw read.1 (
                rw
                  (read_payload-buffer flags port idle id h (header_len dest) (addr_field dest)
                    payload (length-addr_field dest d))
                  (rw read.0 refl)))))))

payload_accepted :
    (s : Registration) → IsWire s → ltb (1280 + header_len s.dest) (length s.payload) ≡ false
payload_accepted s w = ground (arith, w.payload_fits)

fields-Lengths :
    (s : Registration)
    → Lengths (put_be 2 s.port) (put_be 2 (s.idle_duration_hint / second)) (marshal_id s.request_id)
fields-Lengths s = record {
  of_port = length-put_be 2 s.port;
  of_idle = length-put_be 2 (s.idle_duration_hint / second);
  of_id = length-marshal_id s.request_id;
}

-- Whatever `MarshalBinary` is given that the format can carry, it succeeds, and `UnmarshalBinary`
-- reads the same registration back, with the idle duration cut down to whole seconds.
pub unmarshal-marshal : (s : Registration) → IsWire s → (marshal s >>= unmarshal) ≡ ok (carried s)
unfolding marshal unmarshal carried parse_datagram_type
unmarshal-marshal s w =
    let port : List ℕ = put_be 2 s.port in
    let idle : List ℕ = put_be 2 (s.idle_duration_hint / second) in
    let id : List ℕ = marshal_id s.request_id in
    rw (payload_accepted s w) (
      rw
        (unmarshal_fields-buffer s.traced s.dest port idle id s.payload (fields-Lengths s)
          w.dest_valid)
        (rw
          (
            request_id_of-marshal_id s.request_id w.id_fits,
            get_be-put_be 2 s.port w.port_fits,
            get_be-put_be 2 (s.idle_duration_hint / second) w.idle_fits,
          )
          refl))
