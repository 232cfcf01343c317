-- ===== src/Prelude/Bytes.antt =====
-- Big-endian numbers in byte slices, as package encoding/binary writes and reads them.
use native.Mathlib.Nat.{pow-suc}
use shitflared.Prelude.Lists.{length, length-append, All}
use Prim.Native.Nat.{ℕ, zero, suc, ◌+◌, ◌*◌, ◌/◌, ◌%◌, ◌^◌, ◌<◌}
use mathlib.Core.Path.{◌≡◌, refl}
use mathlib.Core.List.{List, [], ◌∷◌, ◌++◌}
use native.Mathlib.Omega.{arith}

abbrev pub IsByte : ℕ → Type 0
IsByte b = b < 256

-- The `n` bytes of `v`, the most significant first; what does not fit is cut off.
unfoldable pub put_be : ℕ → ℕ → List ℕ
put_be zero v = []
put_be (suc n) v = put_be n (v / 256) ++ (v % 256 ∷ [])

get_be_from : ℕ → List ℕ → ℕ
get_be_from acc [] = acc
get_be_from acc (b ∷ bs) = get_be_from (acc * 256 + b) bs

unfoldable pub get_be : List ℕ → ℕ
unfolding get_be_from
get_be bs = get_be_from 0 bs

pub length-put_be : (n v : ℕ) → length (put_be n v) ≡ n
unfolding put_be
length-put_be zero v = refl
length-put_be (suc n) v =
    omega (arith, length-append (put_be n (v / 256)) (v % 256 ∷ []), length-put_be n (v / 256))

get_be_from-append :
    (acc : ℕ) (xs : List ℕ) (b : ℕ)
    → get_be_from acc (xs ++ (b ∷ [])) ≡ get_be_from acc xs * 256 + b
unfolding get_be_from
get_be_from-append acc [] b = refl
get_be_from-append acc (x ∷ xs) b = get_be_from-append (acc * 256 + x) xs b

-- Reading back gives the number that was written, if it fits.
pub get_be-put_be : (n v : ℕ) → v < 256 ^ n → get_be (put_be n v) ≡ v
unfolding get_be put_be
get_be-put_be zero v h = omega arith
get_be-put_be (suc n) v h = omega (
  arith,
  get_be_from-append 0 (put_be n (v / 256)) (v % 256),
  get_be-put_be n (v / 256) (omega (arith, pow-suc 256 n)),
)

pub put_be-IsByte : (n v : ℕ) → All IsByte (put_be n v)
unfolding put_be
put_be-IsByte zero v = tt
put_be-IsByte (suc n) v = snoc (put_be n (v / 256)) (put_be-IsByte n (v / 256))
  where
    snoc : (xs : List ℕ) → All IsByte xs → All IsByte (xs ++ (v % 256 ∷ []))
    snoc [] h = (omega arith, tt)
    snoc (x ∷ xs) h = (h.0, snoc xs h.1)
