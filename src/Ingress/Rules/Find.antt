-- ===== src/Ingress/Rules/Find.antt =====
-- ingress/ingress.go: the rule that a request is sent to is the first that matches it.
use shitflared.Prelude.{
  ℕ, zero, suc, ◌+◌, ◌<◌, ◌≡◌, ◌⊎◌, refl, sym, ◌∙◌, ap, Bool, true, false, ◌&&◌, ◌||◌, List, [],
  ◌∷◌, Option, none, some, arith, get_elem?, Bool-cases, inl, inr,
}
use mathlib.Core.Option.{some-injective, none-ne-some}
use shitflared.Prelude.Text.{Text, codes, same_text, is_empty}
use shitflared.Ingress.HostPort.{without_port}
use shitflared.Ingress.Rules.{
  Rule, Ingress, ℤ, pos, negsuc, matches, path_matches, find_from, found_user, found_internal,
  find_matching_rule,
}

-- The rule at the index matches, and none in front of it does.
pub record FirstMatch (rules : List Rule) (hostname path : Text) (r : Rule) (i : ℕ) : Type 0 where
  pub there : get_elem? rules i ≡ some r
  pub matching : matches r hostname path ≡ true
  pub first :
      (j : ℕ) (q : Rule) → j < i → get_elem? rules j ≡ some q → matches q hostname path ≡ false

abbrev pub NoMatch : List Rule → Text → Text → Type 0
NoMatch rules hostname path =
    (j : ℕ) (q : Rule) → get_elem? rules j ≡ some q → matches q hostname path ≡ false

FirstMatch-cons :
    (r q : Rule) (rest : List Rule) (hostname path : Text) (i : ℕ)
    → matches r hostname path ≡ false
    → FirstMatch rest hostname path q i
    → FirstMatch (r ∷ rest) hostname path q (suc i)
FirstMatch-cons r q rest hostname path i fails f = record {
  there = f.there;
  matching = f.matching;
  first = earlier;
}
  where
    earlier :
        (j : ℕ) (p : Rule)
        → j < suc i
        → get_elem? (r ∷ rest) j ≡ some p
        → matches p hostname path ≡ false
    earlier zero p l h = ap (λ x. matches x hostname path) (sym (some-injective r p h)) ∙ fails
    earlier (suc j) p l h = f.first j p (omega arith) h

NoMatch-cons :
    (r : Rule) (rest : List Rule) (hostname path : Text)
    → matches r hostname path ≡ false
    → NoMatch rest hostname path
    → NoMatch (r ∷ rest) hostname path
NoMatch-cons r rest hostname path fails f zero q h =
    ap (λ x. matches x hostname path) (sym (some-injective r q h)) ∙ fails
NoMatch-cons r rest hostname path fails f (suc j) q h = f j q h

-- The loop finds the first match, or there is none.
find_from_cases :
    (n : ℕ) (rules : List Rule) (hostname path : Text)
    → ((r : Rule) × ((i : ℕ) × ((find_from n rules hostname path ≡ some (r, n + i))
            × FirstMatch rules hostname path r i)))
      ⊎ ((find_from n rules hostname path ≡ none) × NoMatch rules hostname path)
unfolding find_from
find_from_cases n [] hostname path = inr (refl, λ j q h. absurd (none-ne-some q h))
find_from_cases n (r ∷ rest) hostname path = elim (Bool-cases (matches r hostname path)) [
  | inl yes_it_does ↦ inl (
    r,
    (
      0,
      (
        rw yes_it_does (ap (λ k. some (r, k)) (omega arith)),
        record { there = refl; matching = yes_it_does; first = λ j q l h. absurd (omega arith) },
      ),
    ),
  )
  | inr fails ↦ elim (find_from_cases (n + 1) rest hostname path) [
    | inl (q, (i, (found, f))) ↦ inl (
      q,
      (
        suc i,
        (
          rw fails (found ∙ ap (λ k. some (q, k)) (omega arith)),
          FirstMatch-cons r q rest hostname path i fails f,
        ),
      ),
    )
    | inr (missing, f) ↦ inr (rw fails missing, NoMatch-cons r rest hostname path fails f)
  ]
]

-- Whether a rule is for every hostname and path.
abbrev pub no_path : Option (Text → Bool) → Bool
no_path none = true
no_path (some p) = false

abbrev pub catches_all : Rule → Bool
catches_all r = (is_empty r.hostname || same_text r.hostname (codes "*")) && no_path r.path

no_path-matches :
    (p : Option (Text → Bool)) (path : Text) → no_path p ≡ true → path_matches p path ≡ true
no_path-matches none path h = refl
no_path-matches (some p) path h = absurd cc

pub catches_all-matches :
    (r : Rule) (hostname path : Text) → catches_all r ≡ true → matches r hostname path ≡ true
unfolding matches
catches_all-matches r hostname path h = ground (arith, h, no_path-matches r.path path)

-- The last rule of a list that is not empty is for every hostname and path.
abbrev pub EndsCatchingAll : List Rule → Type 0
EndsCatchingAll [] = ⊥
EndsCatchingAll (r ∷ []) = catches_all r ≡ true
EndsCatchingAll (r ∷ q ∷ rest) = EndsCatchingAll (q ∷ rest)

some_match :
    (rules : List Rule) (hostname path : Text)
    → EndsCatchingAll rules
    → NoMatch rules hostname path
    → ⊥
some_match [] hostname path e n = e
some_match (r ∷ []) hostname path e n =
    absurd (cc (n 0 r refl, catches_all-matches r hostname path e))
some_match (r ∷ q ∷ rest) hostname path e n =
    some_match (q ∷ rest) hostname path e (λ j p h. n (suc j) p h)

-- Where the last of the users' rules is for every hostname and path, a rule is found for each request:
-- the first of the internal rules that matches its hostname without the port, under a negative index,
-- or, where none of these does, the first of the users' rules that matches.
pub find_matching_rule_first :
    (ing : Ingress) (hostname path : Text)
    → EndsCatchingAll ing.rules
    → ((r : Rule) × ((i : ℕ) × ((find_matching_rule ing hostname path ≡ some (r, negsuc i))
            × FirstMatch ing.internal_rules (without_port hostname) path r i)))
      ⊎ (NoMatch ing.internal_rules (without_port hostname) path
          × ((r : Rule) × ((i : ℕ) × ((find_matching_rule ing hostname path ≡ some (r, pos i))
                  × FirstMatch ing.rules (without_port hostname) path r i))))
unfolding find_matching_rule
find_matching_rule_first ing hostname path e =
    elim (find_from_cases 0 ing.internal_rules (without_port hostname) path) [
      | inl (r, (i, (found, f))) ↦ inl (
        r,
        (i, (ap (λ x. found_internal x user) (found ∙ ap (λ k. some (r, k)) (omega arith)), f)),
      )
      | inr (missing, n) ↦ elim (find_from_cases 0 ing.rules (without_port hostname) path) [
        | inl (r, (i, (found, f))) ↦ inr (
          n,
          (
            r,
            (
              i,
              (
                ap (λ x. found_internal x user) missing
                    ∙ ap (λ x. found_user x ing.rules)
                        (found ∙ ap (λ k. some (r, k)) (omega arith)),
                f,
              ),
            ),
          ),
        )
        | inr (no_rule, m) ↦ absurd (some_match ing.rules (without_port hostname) path e m)
      ]
    ]
  where
    user : Option (Rule × ℤ)
    user = found_user (find_from 0 ing.rules (without_port hostname) path) ing.rules
