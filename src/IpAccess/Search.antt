-- ===== src/IpAccess/Search.antt =====
-- ipaccess/access.go: the binary search over the ports of a rule finds a port if and only if it is
-- there.
use shitflared.Prelude.{
  ℕ, zero, suc, ◌+◌, ◌/◌, ◌≤◌, ◌<◌, ◌≡◌, refl, Bool, false, ◌&&◌, ◌||◌, List, [], ◌∷◌, arith,
  length, get_or, leb, ltb, ◌==◌, Bool-cases, inl, inr,
}
use shitflared.Prelude.Sort.{SortedFrom}
use shitflared.IpAccess.{search_between, search_ints}

abbrev pub value : ℕ → ℕ
value p = p

abbrev pub is_member : ℕ → List ℕ → Bool
is_member x [] = false
is_member x (p ∷ rest) = (p == x) || is_member x rest

get_or-ge :
    (n : ℕ) (ports : List ℕ) (i : ℕ)
    → SortedFrom value n ports
    → i < length ports
    → n ≤ get_or ports i 0
get_or-ge n [] i s h = absurd (omega arith)
get_or-ge n (p ∷ rest) zero s h = s.0
get_or-ge n (p ∷ rest) (suc i) s h = omega (arith, s.0, get_or-ge p rest i s.1 (omega arith))

get_or_mono :
    (n : ℕ) (ports : List ℕ) (i j : ℕ)
    → SortedFrom value n ports
    → i ≤ j
    → j < length ports
    → get_or ports i 0 ≤ get_or ports j 0
get_or_mono n [] i j s h l = absurd (omega arith)
get_or_mono n (p ∷ rest) zero zero s h l = omega arith
get_or_mono n (p ∷ rest) zero (suc j) s h l = get_or-ge p rest j s.1 (omega arith)
get_or_mono n (p ∷ rest) (suc i) zero s h l = absurd (omega arith)
get_or_mono n (p ∷ rest) (suc i) (suc j) s h l =
    get_or_mono p rest i j s.1 (omega arith) (omega arith)

-- All ports in front of `k` are below `x`, and all others are not.
record Splits (ports : List ℕ) (x k : ℕ) : Type 0 where
  below : (i : ℕ) → i < k → get_or ports i 0 < x
  above : (i : ℕ) → k ≤ i → i < length ports → x ≤ get_or ports i 0

search_between-Splits :
    (rounds : ℕ) (ports : List ℕ) (x i j : ℕ)
    → SortedFrom value 0 ports
    → j ≤ length ports
    → j ≤ rounds + i
    → i ≤ j
    → ((k : ℕ) → k < i → get_or ports k 0 < x)
    → ((k : ℕ) → j ≤ k → k < length ports → x ≤ get_or ports k 0)
    → Splits ports x (search_between rounds ports x i j)
unfolding search_between
search_between-Splits zero ports x i j s l f o b a = record {
  below = b;
  above = λ k h m. a k (omega arith) m;
}
search_between-Splits (suc rounds) ports x i j s l f o b a = elim (Bool-cases (ltb i j)) [
  | inr done ↦
      rw (done, search_between) (record { below = b; above = λ k h m. a k (ground arith) m })
  | inl more ↦ elim (Bool-cases (leb x (get_or ports ((i + j) / 2) 0))) [
    | inl high ↦
        rw (more, high, search_between)
          (search_between-Splits rounds ports x i ((i + j) / 2) s (ground arith) (ground arith)
            (ground arith) b (λ k h m. at_most k ((i + j) / 2) h m (ground (arith, high))))
    | inr low ↦
        rw (more, low, search_between)
          (search_between-Splits rounds ports x ((i + j) / 2 + 1) j s l (ground arith)
            (ground arith)
            (λ k h. at_least k ((i + j) / 2) (omega arith) (ground arith) (ground (arith, low))) a)
  ]
]
  where
    at_most : (k h : ℕ) → h ≤ k → k < length ports → x ≤ get_or ports h 0 → x ≤ get_or ports k 0
    at_most k h le m e = omega (arith, e, get_or_mono 0 ports h k s le m)

    at_least : (k h : ℕ) → k ≤ h → h < length ports → get_or ports h 0 < x → get_or ports k 0 < x
    at_least k h le m e = omega (arith, e, get_or_mono 0 ports k h s le m)

search_ints-Splits :
    (ports : List ℕ) (x : ℕ) → SortedFrom value 0 ports → Splits ports x (search_ints ports x)
unfolding search_ints
search_ints-Splits ports x s =
    search_between-Splits (length ports) ports x 0 (length ports) s (omega arith) (omega arith)
      (omega arith) (λ k h. absurd (omega arith)) (λ k h m. absurd (omega arith))

Splits-tail : (p : ℕ) (ports : List ℕ) (x k : ℕ) → Splits (p ∷ ports) x (suc k) → Splits ports x k
Splits-tail p ports x k s = record {
  below = λ i h. s.below (suc i) (omega arith);
  above = λ i h m. s.above (suc i) (omega arith) (omega arith);
}

absent :
    (n : ℕ) (ports : List ℕ) (x : ℕ) → SortedFrom value n ports → x < n → is_member x ports ≡ false
absent n [] x s h = refl
absent n (p ∷ rest) x s h = ground (arith, s.0, absent p rest x s.1)

-- Where the ports split at `k`, `x` is among them if and only if it is the port at `k`.
Splits-is_member :
    (ports : List ℕ) (x k n : ℕ)
    → SortedFrom value n ports
    → Splits ports x k
    → (ltb k (length ports) && (get_or ports k 0 == x)) ≡ is_member x ports
Splits-is_member [] x k n o s = ground arith
Splits-is_member (p ∷ rest) x zero n o s =
    ground (arith, s.above 0 (omega arith) (omega arith), absent p rest x o.1)
Splits-is_member (p ∷ rest) x (suc k) n o s =
    ground
      (arith, s.below 0 (omega arith), Splits-is_member rest x k p o.1 (Splits-tail p rest x k s))

-- The test that `Allowed` makes with the search is membership.
pub search_ints-is_member :
    (ports : List ℕ) (x : ℕ)
    → SortedFrom value 0 ports
    → (ltb (search_ints ports x) (length ports) && (get_or ports (search_ints ports x) 0 == x))
      ≡ is_member x ports
search_ints-is_member ports x s =
    Splits-is_member ports x (search_ints ports x) 0 s (search_ints-Splits ports x s)
