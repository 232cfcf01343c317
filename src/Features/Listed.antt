-- ===== src/Features/Listed.antt =====
-- features/features.go, features/selector.go: what the list for the edge has.
use shitflared.Prelude.{
  ◌≡◌, refl, ap, ◌∙◌, arith, Bool, true, false, not, ◌&&◌, ◌||◌, List, [], ◌∷◌, ◌++◌, Bool-cases,
  inl, inr,
}
use shitflared.Prelude.Text.{Text, same_text, same_text_iff}
use shitflared.Features.{
  contains, default_features, deprecated_features, DatagramVersion, datagram_v2, datagram_v3,
  version_feature, dedup_and_remove_features, FeatureSelector, datagram_version, client_features,
}

-- No feature is listed twice.
abbrev pub Unrepeated : List Text → Type 0
Unrepeated [] = Unit
Unrepeated (f ∷ rest) = (contains rest f ≡ false) × Unrepeated rest

contains-append :
    (xs ys : List Text) (f : Text) → contains (xs ++ ys) f ≡ (contains xs f || contains ys f)
contains-append [] ys f = refl
contains-append (x ∷ xs) ys f = ground (arith, contains-append xs ys f)

contains-same :
    (list : List Text) (f g : Text) → same_text f g ≡ true → contains list f ≡ contains list g
contains-same list f g e = ap (contains list) ((same_text_iff f g).0 e)

contains-dedup :
    (list : List Text) (g : Text)
    → contains (dedup_and_remove_features list) g
      ≡ (not (contains deprecated_features g) && contains list g)
unfolding dedup_and_remove_features
contains-dedup [] g = ground arith
contains-dedup (f ∷ rest) g = ground (
  arith,
  contains-dedup rest g,
  contains-dedup rest f,
  contains-same deprecated_features f g,
  contains-same (dedup_and_remove_features rest) f g,
)

dedup-Unrepeated : (list : List Text) → Unrepeated (dedup_and_remove_features list)
unfolding dedup_and_remove_features
dedup-Unrepeated [] = tt
dedup-Unrepeated (f ∷ rest) =
    elim (Bool-cases
      (contains deprecated_features f || contains (dedup_and_remove_features rest) f)) [
        | inl out ↦ rw out (dedup-Unrepeated rest)
        | inr fresh ↦ rw fresh (ground (arith, fresh), dedup-Unrepeated rest)
      ]

listed :
    (fs : FeatureSelector) (g : Text)
    → contains (client_features fs) g ≡ (
        not (contains deprecated_features g)
        && (contains default_features g
            || (contains fs.cli_features g
                || contains (version_feature (datagram_version fs) ∷ []) g)))
unfolding client_features
listed fs g =
    let version = version_feature (datagram_version fs) ∷ [] in
    contains-dedup (default_features ++ (fs.cli_features ++ version)) g
    ∙ ap (λ b. not (contains deprecated_features g) && b)
        (contains-append default_features (fs.cli_features ++ version) g
          ∙ ap (λ b. contains default_features g || b) (contains-append fs.cli_features version g))

version_listed :
    (v : DatagramVersion) (b : Bool)
    → (not (contains deprecated_features (version_feature v))
        && (contains default_features (version_feature v)
            || (b || contains (version_feature v ∷ []) (version_feature v))))
      ≡ true
unfolding same_text
version_listed datagram_v2 b = refl
version_listed datagram_v3 true = refl
version_listed datagram_v3 false = refl

-- The list for the edge has no feature twice and no deprecated one. It has the datagram version that
-- the connection uses, and every feature of the command line that is not deprecated.
pub client_features_lem :
    (fs : FeatureSelector) (g : Text)
    → Unrepeated (client_features fs)
      × ((contains (client_features fs) (version_feature (datagram_version fs)) ≡ true)
          × (contains (client_features fs) g ≡ (
              not (contains deprecated_features g)
              && (contains default_features g
                  || (contains fs.cli_features g
                      || contains (version_feature (datagram_version fs) ∷ []) g)))))
unfolding client_features
client_features_lem fs g = (
  dedup-Unrepeated
      (default_features ++ (fs.cli_features ++ (version_feature (datagram_version fs) ∷ []))),
  (
    listed fs (version_feature (datagram_version fs))
        ∙ version_listed (datagram_version fs)
            (contains fs.cli_features (version_feature (datagram_version fs))),
    listed fs g,
  ),
)
