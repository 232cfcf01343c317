-- ===== src/Ingress/Validate/Wildcard.antt =====
-- ingress/ingress.go: where a "*" stands in a hostname that passes validateHostname.
use shitflared.Prelude.{
  ℕ, ◌≡◌, ◌≢◌, refl, Bool, true, false, [], ◌∷◌, Option, none, some, All, drop, arith, ◌==◌,
  Option-cases, inl, inr,
}
use shitflared.Prelude.Text.{Text}
use shitflared.Ingress.HostPort.{last_index_of, last_or}
use shitflared.Ingress.Rules.{has_later}

-- `c` is nowhere behind the first place.
abbrev pub OnlyInFront : ℕ → Text → Type 0
OnlyInFront c s = All (λ a. a ≢ c) (drop 1 s)

last_or-here : (b : Bool) → last_or none b ≡ none → b ≡ false
last_or-here true h = absurd cc
last_or-here false h = refl

absent : (c : ℕ) (s : Text) → last_index_of c s ≡ none → All (λ a. a ≢ c) s
absent c [] h = tt
absent c (a ∷ s) h = elim (Option-cases (last_index_of c s)) [
  | inl missing ↦ (other (last_index_of c s) missing h, absent c s missing)
  | inr (i, found) ↦ absurd (there (last_index_of c s) (a == c) i found h)
]
  where
    other : (o : Option ℕ) → o ≡ none → last_or o (a == c) ≡ none → a ≢ c
    other none missing h same = absurd (ground (arith, same, last_or-here (a == c) h))
    other (some i) missing h same = absurd cc

    there : (o : Option ℕ) (b : Bool) (i : ℕ) → o ≡ some i → last_or o b ≡ none → ⊥
    there none b i found h = cc
    there (some j) b i found h = cc

pub has_later-OnlyInFront :
    (c : ℕ) (s : Text) → has_later (last_index_of c s) ≡ false → OnlyInFront c s
has_later-OnlyInFront c [] h = tt
has_later-OnlyInFront c (a ∷ s) h = elim (Option-cases (last_index_of c s)) [
  | inl missing ↦ absent c s missing
  | inr (i, found) ↦ absurd (later (last_index_of c s) i (a == c) found h)
]
  where
    later : (o : Option ℕ) (i : ℕ) (b : Bool) → o ≡ some i → has_later (last_or o b) ≡ false → ⊥
    later none i b found h = cc
    later (some j) i b found h = ground arith
