-- ===== src/Prelude/Keys.antt =====
-- Association lists whose keys are distinct, as those of a Go map are, and pieces of them.
use mathlib.Core.Path.{◌≡◌, refl, ◌∙◌, subst}
use mathlib.Core.Logic.{inl, inr}
use mathlib.Core.List.{List, [], ◌∷◌, ◌++◌}
use mathlib.Core.Option.{none, some}
use mathlib.Core.Bool.{false}
use native.Mathlib.Omega.{arith}
use shitflared.Prelude.Tests.{Bool-cases}
use shitflared.Prelude.Map.{Eq, lookup, insert, lookup-insert, beq_refl}

module _ {K V : Type 0} ⦃e : Eq K⦄ where
  abbrev pub Distinct : List (K × V) → Type 0
  Distinct [] = Unit
  Distinct ((k, v) ∷ m) = (lookup k m ≡ none) × Distinct m

  pub lookup-append_found :
      (k : K) (xs ys : List (K × V)) {v : V} → lookup k xs ≡ some v → lookup k (xs ++ ys) ≡ some v
  unfolding lookup
  lookup-append_found k [] ys h = cc
  lookup-append_found k ((j, w) ∷ xs) ys {v} h = ground (arith, lookup-append_found k xs ys {v = v})

  pub lookup-append_missing :
      (k : K) (xs ys : List (K × V)) → lookup k xs ≡ none → lookup k (xs ++ ys) ≡ lookup k ys
  unfolding lookup
  lookup-append_missing k [] ys h = refl
  lookup-append_missing k ((j, w) ∷ xs) ys h = ground (arith, lookup-append_missing k xs ys)

  pub insert-append_found :
      (k : K) (u : V) (xs ys : List (K × V)) {v : V}
      → lookup k xs ≡ some v
      → insert k u (xs ++ ys) ≡ insert k u xs ++ ys
  unfolding lookup insert
  insert-append_found k u [] ys h = cc
  insert-append_found k u ((j, w) ∷ xs) ys {v} h =
      ground (arith, insert-append_found k u xs ys {v = v})

  pub insert-append_missing :
      (k : K) (u : V) (xs ys : List (K × V))
      → lookup k xs ≡ none
      → insert k u (xs ++ ys) ≡ xs ++ insert k u ys
  unfolding lookup insert
  insert-append_missing k u [] ys h = refl
  insert-append_missing k u ((j, w) ∷ xs) ys h = ground (arith, insert-append_missing k u xs ys)

  pub Distinct-insert : (k : K) (u : V) (m : List (K × V)) → Distinct m → Distinct (insert k u m)
  unfolding lookup insert
  Distinct-insert k u [] d = (refl, tt)
  Distinct-insert k u ((j, w) ∷ m) d = elim (Bool-cases (e.beq j k)) [
    | inl same ↦ rw same (subst (λ i. (lookup i m ≡ none) × Distinct m) ((e.beq_iff j k).0 same) d)
    | inr other ↦
        rw other (lookup-insert k j u m ∙ rw (flipped j other) d.0, Distinct-insert k u m d.1)
  ]
    where
      flipped : (j : K) → e.beq j k ≡ false → e.beq k j ≡ false
      flipped j h = ground (arith, e.beq_iff j k, e.beq_iff k j)

  pub lookup-append_none :
      (k : K) (xs ys : List (K × V))
      → lookup k (xs ++ ys) ≡ none
      → (lookup k xs ≡ none) × (lookup k ys ≡ none)
  unfolding lookup
  lookup-append_none k [] ys h = (refl, h)
  lookup-append_none k ((j, w) ∷ xs) ys h = ground (arith, lookup-append_none k xs ys)

  -- A key of the back is no key of the front.
  pub Distinct-append_disjoint :
      (xs ys : List (K × V)) (k : K) {v : V}
      → Distinct (xs ++ ys)
      → lookup k ys ≡ some v
      → lookup k xs ≡ none
  unfolding lookup
  Distinct-append_disjoint [] ys k d h = refl
  Distinct-append_disjoint ((j, w) ∷ xs) ys k {v} d h = elim (Bool-cases (e.beq j k)) [
    | inl same ↦
        let gone : lookup k ys ≡ none =
          subst (λ i. lookup i ys ≡ none) ((e.beq_iff j k).0 same)
            (lookup-append_none j xs ys d.0).1 in
        absurd (cc (gone, h))
    | inr other ↦ rw other (Distinct-append_disjoint xs ys k {v = v} d.1 h)
  ]

  pub Distinct-append_front : (xs ys : List (K × V)) → Distinct (xs ++ ys) → Distinct xs
  Distinct-append_front [] ys d = tt
  Distinct-append_front ((j, w) ∷ xs) ys d =
      ((lookup-append_none j xs ys d.0).0, Distinct-append_front xs ys d.1)

  pub Distinct-append_back : (xs ys : List (K × V)) → Distinct (xs ++ ys) → Distinct ys
  Distinct-append_back [] ys d = d
  Distinct-append_back ((j, w) ∷ xs) ys d = Distinct-append_back xs ys d.1

  -- What the rest of the list holds is not hidden by its first key.
  pub lookup-cons_tail :
      (j k : K) (u : V) (m : List (K × V)) {v : V}
      → lookup j m ≡ none
      → lookup k m ≡ some v
      → lookup k ((j, u) ∷ m) ≡ some v
  unfolding lookup
  lookup-cons_tail j k u m {v} h found = elim (Bool-cases (e.beq j k)) [
    | inl same ↦
        let gone : lookup k m ≡ none = subst (λ i. lookup i m ≡ none) ((e.beq_iff j k).0 same) h in
        absurd (cc (gone, found))
    | inr other ↦ rw other found
  ]

  pub lookup-cons_head : (k : K) (u : V) (m : List (K × V)) → lookup k ((k, u) ∷ m) ≡ some u
  unfolding lookup
  lookup-cons_head k u m = rw (beq_refl k) refl
