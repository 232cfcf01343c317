-- ===== src/V3/RequestId.antt =====
-- quic/v3/request.go: the 128 bit request identifier.
use shitflared.Prelude.{
  ℕ, ◌+◌, ◌*◌, ◌^◌, ◌<◌, ◌≡◌, ◌↔◌, refl, Bool, true, ◌&&◌, List, ◌++◌, arith, length, length-append,
  take, drop, take-append_length, drop-append_length, ltb, ◌==◌, if◌then◌else◌, Eq,
}
use shitflared.Prelude.Bytes.{put_be, get_be, length-put_be, get_be-put_be}

pub record RequestId : Type 0 where
  pub hi : ℕ  -- uint64
  pub lo : ℕ  -- uint64

abbrev pub IsU128 : RequestId → Type 0
IsU128 id = (id.hi < 2 ^ 64) × (id.lo < 2 ^ 64)

-- Go's `==` on the struct, by which the session map finds its keys.
abbrev pub same : RequestId → RequestId → Bool
same a b = (a.hi == b.hi) && (a.lo == b.lo)

pub same_iff : (a b : RequestId) → (same a b ≡ true) ↔ (a ≡ b)
same_iff a b = ground arith

instance abbrev pub request_id_eq : Eq RequestId
request_id_eq = record { beq = same; beq_iff = same_iff }

-- What `MarshalBinaryTo` writes into the 16 bytes that it is given.
unfoldable pub marshal_id : RequestId → List ℕ
marshal_id id = put_be 8 id.hi ++ put_be 8 id.lo

-- `RequestIDFromSlice` on a slice of 16 bytes.
unfoldable pub request_id_of : List ℕ → RequestId
request_id_of bytes = record { hi = get_be (take 8 bytes); lo = get_be (drop 8 bytes) }

pub data Order : Type 0 where
  less same_id greater : Order

-- `Compare`: -1, 0 and 1 are `less`, `same_id` and `greater`.
unfoldable pub compare_id : RequestId → RequestId → Order
compare_id a b =
    if ltb a.hi b.hi
    then less
    else if ltb b.hi a.hi
    then greater
    else if ltb a.lo b.lo
    then less
    else if ltb b.lo a.lo
    then greater
    else same_id

pub length-marshal_id : (id : RequestId) → length (marshal_id id) ≡ 16
unfolding marshal_id
length-marshal_id id = omega (
  arith,
  length-append (put_be 8 id.hi) (put_be 8 id.lo),
  length-put_be 8 id.hi,
  length-put_be 8 id.lo,
)

-- Reading the 16 bytes back gives the identifier.
pub request_id_of-marshal_id : (id : RequestId) → IsU128 id → request_id_of (marshal_id id) ≡ id
unfolding marshal_id request_id_of
request_id_of-marshal_id id h =
    rw
      (
        take-append_length 8 (put_be 8 id.hi) (put_be 8 id.lo) (length-put_be 8 id.hi),
        drop-append_length 8 (put_be 8 id.hi) (put_be 8 id.lo) (length-put_be 8 id.hi),
        get_be-put_be 8 id.hi h.0,
        get_be-put_be 8 id.lo h.1,
      )
      refl

-- `Compare` orders identifiers as the 128 bit numbers that they stand for.
pub compare_id-number :
    (a b : RequestId)
    → IsU128 a
    → IsU128 b
    → let number = λ (id : RequestId). id.hi * 2 ^ 64 + id.lo in
      ((compare_id a b ≡ less) ↔ (number a < number b))
      × ((compare_id a b ≡ same_id) ↔ (a ≡ b))
      × ((compare_id a b ≡ greater) ↔ (number b < number a))
unfolding compare_id
compare_id-number a b ha hb = ground arith
