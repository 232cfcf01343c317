-- ===== src/V3/Wire.antt =====
-- quic/v3/datagram.go: the datagram types, their lengths, and what the codecs share: errors, panics
-- and slices. A slice's capacity is its length, as quic-go hands datagrams over.
use shitflared.Prelude.{
  ℕ, ◌+◌, ◌-◌, ◌≤◌, ◌≡◌, refl, List, [], ◌∷◌, ◌++◌, arith, length, take, drop, leb, if◌then◌else◌,
  ◌<◌, leb_of_le, leb_of_lt, take-append_length, drop-append_length, length-append,
}

pub data DatagramError : Type 0 where
  header_too_small invalid_type payload_header_too_small payload_invalid_size payload_too_large :
      DatagramError
  response_msg_invalid_size response_invalid_size response_msg_too_large_maximum : DatagramError
  response_msg_too_large_datagram icmp_payload_too_large icmp_payload_missing : DatagramError

-- `panicked` is a slice or an index out of range.
pub data Result {ℓ} (A : Type ℓ) : Type ℓ where
  ok : A → Result A
  err : DatagramError → Result A
  panicked : Result A

infixl 5 ◌>>=◌
abbrev pub ◌>>=◌ {ℓ κ} : {A : Type ℓ} {B : Type κ} → Result A → (A → Result B) → Result B
ok a >>= f = f a
err e >>= f = err e
panicked >>= f = panicked

abbrev pub registration_type : ℕ
registration_type = 0

abbrev pub payload_type : ℕ
payload_type = 1

abbrev pub icmp_type : ℕ
icmp_type = 2

abbrev pub response_type : ℕ
response_type = 3

abbrev pub max_datagram_payload_len : ℕ
max_datagram_payload_len = 1280

unfoldable pub parse_datagram_type : List ℕ → Result ℕ
parse_datagram_type [] = err header_too_small
parse_datagram_type (b ∷ bs) = ok b

-- `data[lo:hi]`.
unfoldable pub slice : ℕ → ℕ → List ℕ → Result (List ℕ)
slice lo hi bytes = if leb hi (length bytes) then ok (take (hi - lo) (drop lo bytes)) else panicked

-- `data[lo:]`.
unfoldable pub slice_from : ℕ → List ℕ → Result (List ℕ)
slice_from lo bytes = if leb lo (length bytes) then ok (drop lo bytes) else panicked

pub slice_in_range :
    (lo hi : ℕ) (bytes : List ℕ)
    → hi ≤ length bytes
    → slice lo hi bytes ≡ ok (take (hi - lo) (drop lo bytes))
unfolding slice
slice_in_range lo hi bytes h = rw (leb_of_le hi (length bytes) h) refl

pub slice_out_of_range :
    (lo hi : ℕ) (bytes : List ℕ) → length bytes < hi → slice lo hi bytes ≡ panicked
unfolding slice
slice_out_of_range lo hi bytes h = rw (leb_of_lt hi (length bytes) h) refl

-- A slice that lies between a front and a back of known lengths.
pub slice-append :
    (front mid back : List ℕ) (lo hi : ℕ)
    → length front ≡ lo
    → length mid + lo ≡ hi
    → slice lo hi (front ++ (mid ++ back)) ≡ ok mid
slice-append front mid back lo hi hf hm =
    rw
      (
        slice_in_range lo hi (front ++ (mid ++ back))
            (omega (arith, length-append front (mid ++ back), length-append mid back)),
        drop-append_length lo front (mid ++ back) hf,
        take-append_length (hi - lo) mid back (omega arith),
      )
      refl

pub slice_from-append :
    (front back : List ℕ) (lo : ℕ) → length front ≡ lo → slice_from lo (front ++ back) ≡ ok back
unfolding slice_from
slice_from-append front back lo h =
    rw
      (
        leb_of_le lo (length (front ++ back)) (omega (arith, length-append front back)),
        drop-append_length lo front back h,
      )
      refl
