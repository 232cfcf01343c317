-- ===== src/Prelude/Sort.antt =====
-- Sorting by a number, for the calls of the standard library's sort, which promises an ascending
-- permutation: the insertion sort is one of its outcomes.
use Prim.Native.Nat.{ℕ, ◌+◌, ◌≤◌}
use mathlib.Core.Path.{◌≡◌, refl, ap, ◌∙◌}
use mathlib.Core.Logic.{inl, inr}
use mathlib.Core.List.{List, [], ◌∷◌}
use mathlib.Core.Bool.{Bool}
use native.Mathlib.Omega.{arith}
use shitflared.Prelude.Tests.{leb, if◌then◌else◌, Bool-cases}

module _ {A : Type 0} (key : A → ℕ) where
  unfoldable pub insert_by : A → List A → List A
  insert_by x [] = x ∷ []
  insert_by x (y ∷ rest) =
      let later = insert_by x rest in if leb (key x) (key y) then x ∷ y ∷ rest else y ∷ later

  unfoldable pub sort_by : List A → List A
  sort_by [] = []
  sort_by (x ∷ rest) = insert_by x (sort_by rest)

  -- No element is below `n`, nor below the one in front of it.
  abbrev pub SortedFrom : ℕ → List A → Type 0
  SortedFrom n [] = Unit
  SortedFrom n (x ∷ rest) = (n ≤ key x) × SortedFrom (key x) rest

  insert_by-SortedFrom :
      (x : A) (list : List A) (n : ℕ)
      → n ≤ key x
      → SortedFrom n list
      → SortedFrom n (insert_by x list)
  unfolding insert_by
  insert_by-SortedFrom x [] n low s = (low, tt)
  insert_by-SortedFrom x (y ∷ rest) n low s = elim (Bool-cases (leb (key x) (key y))) [
    | inl first ↦ rw first (low, (ground arith, s.1))
    | inr after ↦ rw after (s.0, insert_by-SortedFrom x rest (key y) (ground arith) s.1)
  ]

  pub sort_by-SortedFrom : (list : List A) → SortedFrom 0 (sort_by list)
  unfolding sort_by
  sort_by-SortedFrom [] = tt
  sort_by-SortedFrom (x ∷ rest) =
      insert_by-SortedFrom x (sort_by rest) 0 (omega arith) (sort_by-SortedFrom rest)

  -- How many elements pass a test.
  unfoldable pub count : (A → Bool) → List A → ℕ
  count test [] = 0
  count test (x ∷ rest) = (if test x then 1 else 0) + count test rest

  count-insert_by :
      (test : A → Bool) (x : A) (list : List A)
      → count test (insert_by x list) ≡ (if test x then 1 else 0) + count test list
  unfolding insert_by count
  count-insert_by test x [] = refl
  count-insert_by test x (y ∷ rest) = elim (Bool-cases (leb (key x) (key y))) [
    | inl first ↦ rw first refl
    | inr after ↦ rw after (omega (arith, count-insert_by test x rest))
  ]

  pub count-sort_by :
      (test : A → Bool) (list : List A) → count test (sort_by list) ≡ count test list
  unfolding sort_by count
  count-sort_by test [] = refl
  count-sort_by test (x ∷ rest) =
      count-insert_by test x (sort_by rest)
      ∙ ap (λ n. (if test x then 1 else 0) + n) (count-sort_by test rest)
