-- ===== src/Prelude/Text.antt =====
-- Texts, as the source's strings are read: the list of the code points, which for ASCII are the bytes.
use Prim.Native.Char.{code}
use Prim.Native.String.{String}
use Prim.Native.Nat.{ℕ}
use mathlib.Core.Path.{◌≡◌, refl, ◌∙◌, ap}
use mathlib.Core.Logic.{◌↔◌}
use mathlib.Core.List.{List, [], ◌∷◌, ◌++◌}
use mathlib.Core.Bool.{Bool, true, false, ◌&&◌}
use native.Mathlib.Omega.{arith}
use shitflared.Prelude.Tests.{◌==◌}
use shitflared.Prelude.Map.{Eq}

-- A text is the list of its code points.
abbrev pub Text : Type 0
Text = List ℕ

abbrev pub codes : String → Text
codes String.[] = []
codes (String.◌∷◌ c s) = code c ∷ codes s

unfoldable pub same_text : Text → Text → Bool
same_text [] [] = true
same_text (a ∷ s) (b ∷ t) = (a == b) && same_text s t
same_text _ _ = false

unfoldable pub has_prefix : Text → Text → Bool
has_prefix s [] = true
has_prefix [] (b ∷ t) = false
has_prefix (a ∷ s) (b ∷ t) = (a == b) && has_prefix s t

abbrev pub is_empty : Text → Bool
is_empty [] = true
is_empty (a ∷ s) = false

pub same_text_iff : (s t : Text) → (same_text s t ≡ true) ↔ (s ≡ t)
unfolding same_text
same_text_iff [] [] = ground arith
same_text_iff [] (b ∷ t) = ground arith
same_text_iff (a ∷ s) [] = ground arith
same_text_iff (a ∷ s) (b ∷ t) = ground (arith, same_text_iff s t)

pub is_empty_iff : (s : Text) → (is_empty s ≡ true) ↔ (s ≡ [])
is_empty_iff [] = ground arith
is_empty_iff (c ∷ s) = ground arith

instance abbrev pub text_eq : Eq Text
text_eq = record { beq = same_text; beq_iff = same_text_iff }

has_prefix-cons :
    (a b : ℕ) (s p : Text)
    → (has_prefix s p ≡ true) ↔ ((rest : Text) × (s ≡ p ++ rest))
    → (((a == b) && has_prefix s p) ≡ true) ↔ ((rest : Text) × (a ∷ s ≡ b ∷ (p ++ rest)))
has_prefix-cons a b s p later = (split, join)
  where
    split : ((a == b) && has_prefix s p) ≡ true → (rest : Text) × (a ∷ s ≡ b ∷ (p ++ rest))
    split h =
        let found = later.0 (ground (arith, h)) in
        let same : a ≡ b = ground (arith, h) in
        (found.0, ap (λ x. x ∷ s) same ∙ ap (λ x. b ∷ x) found.1)

    join : (rest : Text) × (a ∷ s ≡ b ∷ (p ++ rest)) → ((a == b) && has_prefix s p) ≡ true
    join (rest, e) =
        let same : a ≡ b = cc in
        let tail : s ≡ p ++ rest = cc in ground (arith, same, later.1 (rest, tail))

-- The texts with a prefix are those that go on from it.
pub has_prefix_iff : (s p : Text) → (has_prefix s p ≡ true) ↔ ((rest : Text) × (s ≡ p ++ rest))
unfolding has_prefix
has_prefix_iff s [] = (λ h. (s, refl), λ h. refl)
has_prefix_iff [] (b ∷ p) = (λ h. absurd cc, λ h. absurd cc)
has_prefix_iff (a ∷ s) (b ∷ p) = has_prefix-cons a b s p (has_prefix_iff s p)
