-- ===== src/Ingress/Rules/Host.antt =====
-- ingress/ingress.go: which hostnames a pattern matches.
use mathlib.Core.Path.{subst}
use shitflared.Prelude.{
  ℕ, zero, suc, ◌+◌, ◌-◌, ◌≡◌, ◌↔◌, ◌⊎◌, refl, sym, ◌∙◌, ap, Bool, true, false, ◌&&◌, [], ◌∷◌, ◌++◌,
  arith, take, drop, length, leb, if◌then◌else◌, inl, inr, length-append, drop-append_length,
}
use shitflared.Prelude.Text.{Text, codes, same_text, has_prefix, same_text_iff}
use shitflared.Ingress.Rules.{has_suffix, match_host}

take-append-drop : (n : ℕ) (s : Text) → take n s ++ drop n s ≡ s
take-append-drop zero s = refl
take-append-drop (suc n) [] = refl
take-append-drop (suc n) (c ∷ s) = ap (◌∷◌ c) (take-append-drop n s)

both : (a b : Bool) → (a && b) ≡ true → (a ≡ true) × (b ≡ true)
both true true h = (refl, refl)
both true false h = absurd cc
both false b h = absurd cc

minus : (a b c : ℕ) → a ≡ c + b → a - b ≡ c
minus a b c h = omega arith

suffix_of : (p t : Text) → has_suffix (p ++ t) t ≡ true
unfolding has_suffix
suffix_of p t = ground (
  arith,
  length-append p t,
  (same_text_iff (drop (length (p ++ t) - length t) (p ++ t)) t).1 rest,
)
  where
    rest : drop (length (p ++ t) - length t) (p ++ t) ≡ t
    rest =
        ap (λ k. drop k (p ++ t))
          (minus (length (p ++ t)) (length t) (length p) (length-append p t))
        ∙ drop-append_length (length p) p t refl

-- A suffix in the sense of `strings.HasSuffix` is one.
pub has_suffix_iff : (s t : Text) → (has_suffix s t ≡ true) ↔ ((p : Text) × (s ≡ p ++ t))
unfolding has_suffix
has_suffix_iff s t = (split, λ found. rw found.1 (suffix_of found.0 t))
  where
    split : has_suffix s t ≡ true → (p : Text) × (s ≡ p ++ t)
    split h =
        let parts =
          both (leb (length t) (length s)) (same_text (drop (length s - length t) s) t) h in
        (
          take (length s - length t) s,
          sym (take-append-drop (length s - length t) s)
              ∙ ap (λ u. take (length s - length t) s ++ u)
                  ((same_text_iff (drop (length s - length t) s) t).0 parts.1),
        )

has_prefix_wildcard :
    (s : Text) → has_prefix s (codes "*.") ≡ true → (d : Text) × (s ≡ codes "*." ++ d)
unfolding has_prefix
has_prefix_wildcard [] h = absurd cc
has_prefix_wildcard (a ∷ []) h = absurd (ground arith)
has_prefix_wildcard (a ∷ b ∷ d) h = (d, λ i. star i ∷ dot i ∷ d)
  where
    star : a ≡ 42
    star = ground (arith, h)

    dot : b ≡ 46
    dot = ground (arith, h)

wildcard_prefix : (d : Text) → has_prefix (codes "*." ++ d) (codes "*.") ≡ true
unfolding has_prefix
wildcard_prefix d = refl

branches :
    (a b c : Bool)
    → (if a then true else if b then c else false) ≡ true
    → (a ≡ true) ⊎ ((b ≡ true) × (c ≡ true))
branches true b c h = inl refl
branches false true c h = inr (refl, h)
branches false false c h = absurd cc

branches_back :
    (a b c : Bool)
    → (a ≡ true) ⊎ ((b ≡ true) × (c ≡ true))
    → (if a then true else if b then c else false) ≡ true
branches_back true b c h = refl
branches_back false true c h = ground arith
branches_back false false c h = ground arith

-- A pattern matches a hostname if and only if they are the same, or the pattern is "*." with a domain
-- behind it and the hostname ends in a dot and that domain, with anything, also nothing, in front.
pub match_host_iff :
    (rule_host req_host : Text)
    → (match_host rule_host req_host ≡ true) ↔ (
        (rule_host ≡ req_host)
        ⊎ ((domain : Text) × ((rule_host ≡ codes "*." ++ domain)
              × ((p : Text) × (req_host ≡ p ++ (codes "." ++ domain))))))
unfolding match_host
match_host_iff rule_host req_host = (
  λ h.
      elim (branches (same_text rule_host req_host) (has_prefix rule_host (codes "*."))
        (has_suffix req_host (drop 1 rule_host)) h) [
          | inl same ↦ inl ((same_text_iff rule_host req_host).0 same)
          | inr (prefix, suffix) ↦
              let domain = has_prefix_wildcard rule_host prefix in
              inr (
                domain.0,
                (
                  domain.1,
                  (has_suffix_iff req_host (codes "." ++ domain.0)).0
                      (subst (λ r. has_suffix req_host (drop 1 r) ≡ true) domain.1 suffix),
                ),
              )
        ],
  λ m.
      branches_back (same_text rule_host req_host) (has_prefix rule_host (codes "*."))
        (has_suffix req_host (drop 1 rule_host))
        (elim m [
          | inl same ↦ inl ((same_text_iff rule_host req_host).1 same)
          | inr (domain, (pattern, end)) ↦ inr (
            rw pattern (wildcard_prefix domain),
            rw pattern ((has_suffix_iff req_host (codes "." ++ domain)).1 end),
          )
        ]),
)
