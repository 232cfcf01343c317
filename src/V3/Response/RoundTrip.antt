-- ===== src/V3/Response/RoundTrip.antt =====
-- The response datagram read back from what `marshal_response` wrote, with bytes behind it or not.
use mathlib.Core.List.{append_assoc}
use shitflared.Prelude.{
  ℕ, ◌≤◌, ◌≡◌, ◌≢◌, refl, false, List, [], ◌∷◌, ◌++◌, arith, length, length-append, ltb,
}
use shitflared.Prelude.Bytes.{put_be, length-put_be, get_be-put_be}
use shitflared.V3.RequestId.{IsU128, marshal_id, length-marshal_id, request_id_of-marshal_id}
use shitflared.V3.Wire.{
  ok, panicked, ◌>>=◌, parse_datagram_type, slice, slice_from, slice-append, slice_from-append,
}
use shitflared.V3.Response.{Response, marshal_response, unmarshal_response, read_message}

-- The bytes of the fixed fields.
module _ (typ : ℕ) (id len : List ℕ) (hid : length id ≡ 16) (hlen : length len ≡ 2) where
  slice-id : (tail : List ℕ) → slice 2 18 (3 ∷ typ ∷ (id ++ (len ++ tail))) ≡ ok id
  slice-id tail = slice-append (3 ∷ typ ∷ []) id (len ++ tail) 2 18 refl (omega arith)

  slice-len : (tail : List ℕ) → slice 18 20 (3 ∷ typ ∷ (id ++ (len ++ tail))) ≡ ok len
  slice-len tail = slice-append (3 ∷ typ ∷ id) len tail 18 20 (omega arith) (omega arith)

  slice_from-tail : (tail : List ℕ) → slice_from 20 (3 ∷ typ ∷ (id ++ (len ++ tail))) ≡ ok tail
  slice_from-tail tail =
      rw (← append_assoc id len tail)
        (slice_from-append (3 ∷ typ ∷ (id ++ len)) tail 20 (omega (arith, length-append id len)))

  long_enough : (tail : List ℕ) → ltb (length (3 ∷ typ ∷ (id ++ (len ++ tail)))) 20 ≡ false
  long_enough tail = ground (arith, length-append id (len ++ tail), length-append len tail)

-- The message that comes back when `extra` bytes follow: an empty message stays empty.
unfoldable pub extended : List ℕ → List ℕ → List ℕ
extended [] extra = []
extended (b ∷ msg) extra = (b ∷ msg) ++ extra

read_message-extended :
    (typ : ℕ) (id len msg extra : List ℕ)
    → length id ≡ 16
    → length len ≡ 2
    → length msg ≤ 1260
    → read_message (length msg) (3 ∷ typ ∷ (id ++ (len ++ (msg ++ extra))))
      ≡ ok (extended msg extra)
unfolding read_message extended
read_message-extended typ id len [] extra hid hlen h =
    rw (slice_from-tail typ id len hid hlen extra) (ground arith)
read_message-extended typ id len (b ∷ msg) extra hid hlen h =
    rw (slice_from-tail typ id len hid hlen ((b ∷ msg) ++ extra))
      (ground (arith, length-append msg extra))

-- A response whose message has at most 1260 bytes is written, and it is read back from the datagram
-- with any bytes behind it. With none behind it that is the same response; otherwise a message that
-- is not empty comes back with those bytes appended, whatever its length field says.
pub unmarshal_response-marshal_response :
    (s : Response) (extra : List ℕ)
    → IsU128 s.request_id
    → length s.error_msg ≤ 1260
    → (marshal_response s >>= λ bytes. unmarshal_response (bytes ++ extra))
      ≡ ok (record s { error_msg = extended s.error_msg extra })
unfolding marshal_response unmarshal_response parse_datagram_type
unmarshal_response-marshal_response s extra fits h =
    let id : List ℕ = marshal_id s.request_id in
    let len : List ℕ = put_be 2 (length s.error_msg) in
    let tail : List ℕ = s.error_msg ++ extra in
    let hid = length-marshal_id s.request_id in
    let hlen = length-put_be 2 (length s.error_msg) in
    let short : ltb 1260 (length s.error_msg) ≡ false = ground arith in
    rw short (
      rw (append_assoc id (len ++ s.error_msg) extra, append_assoc len s.error_msg extra)
        (rw (long_enough s.response_type id len hid hlen tail) (
          rw (slice-id s.response_type id len hid hlen tail) (
            rw (slice-len s.response_type id len hid hlen tail) (
              rw (get_be-put_be 2 (length s.error_msg) (omega arith)) (
                rw
                  (
                    read_message-extended s.response_type id len s.error_msg extra hid hlen h,
                    request_id_of-marshal_id s.request_id fits,
                  )
                  refl))))))

-- No input makes the reader panic.
pub unmarshal_response-ne-panicked : (bytes : List ℕ) → unmarshal_response bytes ≢ panicked
unfolding unmarshal_response parse_datagram_type slice slice_from read_message
unmarshal_response-ne-panicked [] h = cc
unmarshal_response-ne-panicked (b ∷ bs) h = ground arith
