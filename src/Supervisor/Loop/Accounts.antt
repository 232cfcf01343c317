-- ===== src/Supervisor/Loop/Accounts.antt =====
-- supervisor/supervisor.go: how the counter of tunnels follows the goroutines.
use shitflared.Prelude.{
  ℕ, zero, suc, ◌+◌, ◌≤◌, ◌<◌, ◌≡◌, refl, List, [], ◌∷◌, ◌++◌, some, arith, ◌==◌, length,
  if◌then◌else◌,
}
use shitflared.Supervisor.Loop.{indices, Loop, start_tunnel, start_all, take_out, drain}

-- How often an index is in a list.
unfoldable pub times : ℕ → List ℕ → ℕ
times i [] = 0
times i (j ∷ rest) = (if i == j then 1 else 0) + times i rest

pub times-append : (i : ℕ) (xs ys : List ℕ) → times i (xs ++ ys) ≡ times i xs + times i ys
unfolding times
times-append i [] ys = omega arith
times-append i (j ∷ xs) ys = ground (arith, times-append i xs ys)

pub times-take_out :
    (i k : ℕ) (list : List ℕ)
    → 1 ≤ times k list
    → times i (take_out k list) + (if i == k then 1 else 0) ≡ times i list
unfolding times take_out
times-take_out i k [] h = absurd (omega (arith, h))
times-take_out i k (j ∷ rest) h = ground (arith, times-take_out i k rest)

pub length-take_out :
    (k : ℕ) (list : List ℕ) → 1 ≤ times k list → length (take_out k list) + 1 ≡ length list
unfolding times take_out
length-take_out k [] h = absurd (omega (arith, h))
length-take_out k (j ∷ rest) h = ground (arith, length-take_out k rest)

pub length-start_all :
    (is : List ℕ) (l : Loop) → length (start_all is l).running ≡ length is + length l.running
unfolding start_all start_tunnel
length-start_all [] l = omega arith
length-start_all (i ∷ is) l = omega (arith, length-start_all is (start_tunnel i l))

pub times-start_all :
    (k : ℕ) (is : List ℕ) (l : Loop)
    → times k (start_all is l).running ≡ times k is + times k l.running
unfolding start_all start_tunnel times
times-start_all k [] l = omega arith
times-start_all k (i ∷ is) l = ground (arith, times-start_all k is (start_tunnel i l))

-- As many errors as goroutines run are all received.
pub drain-length : (list : List ℕ) → drain (length list) list ≡ some []
unfolding drain
drain-length [] = refl
drain-length (i ∷ list) = drain-length list

pub backoff-start_all : (is : List ℕ) (l : Loop) → (start_all is l).backoff ≡ l.backoff
unfolding start_all start_tunnel
backoff-start_all [] l = refl
backoff-start_all (i ∷ is) l = backoff-start_all is (start_tunnel i l)

pub waiting-start_all : (is : List ℕ) (l : Loop) → (start_all is l).waiting ≡ l.waiting
unfolding start_all start_tunnel
waiting-start_all [] l = refl
waiting-start_all (i ∷ is) l = waiting-start_all is (start_tunnel i l)

pub armed-start_all : (is : List ℕ) (l : Loop) → (start_all is l).armed ≡ l.armed
unfolding start_all start_tunnel
armed-start_all [] l = refl
armed-start_all (i ∷ is) l = armed-start_all is (start_tunnel i l)

pub active-start_all : (is : List ℕ) (l : Loop) → (start_all is l).active ≡ l.active
unfolding start_all start_tunnel
active-start_all [] l = refl
active-start_all (i ∷ is) l = active-start_all is (start_tunnel i l)

pub times-indices :
    (i from n : ℕ) → (times i (indices from n) ≤ 1) × (i < from → times i (indices from n) ≡ 0)
unfolding times
times-indices i from zero = (omega arith, λ h. refl)
times-indices i from (suc n) =
    let later = times-indices i (suc from) n in
    (ground (arith, later.0, later.1), λ h. ground (arith, later.1, h))

pub length-indices : (from n : ℕ) → length (indices from n) ≡ n
length-indices from zero = refl
length-indices from (suc n) = omega (arith, length-indices (suc from) n)

pub shutting_down-start_all :
    (is : List ℕ) (l : Loop) → (start_all is l).shutting_down ≡ l.shutting_down
unfolding start_all start_tunnel
shutting_down-start_all [] l = refl
shutting_down-start_all (i ∷ is) l = shutting_down-start_all is (start_tunnel i l)

pub times-indices_in : (i from n : ℕ) → from ≤ i → i < from + n → times i (indices from n) ≡ 1
unfolding times
times-indices_in i from zero low high = absurd (omega (arith, low, high))
times-indices_in i from (suc n) low high =
    ground (arith, times-indices_in i (suc from) n, (times-indices i (suc from) n).1, low, high)
