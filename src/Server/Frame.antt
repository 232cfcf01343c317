-- ===== src/Server/Frame.antt =====
-- cmd/cloudflared/main.go: what the steps that write to a handle leave alone, and how a property of one
-- step becomes one of a run.
use mathlib.Core.Path.{subst}
use mathlib.Core.Option.{some-injective, none-ne-some}
use shitflared.Prelude.Text.{Text}
use shitflared.Prelude.{
  ℕ, ◌≡◌, refl, ◌∙◌, Bool, true, false, List, [], ◌∷◌, Option, none, some, All, lookup, nat_eq, inl,
  inr, Option-cases,
}
use shitflared.Server.{AppConfig, Handle, stopped, Server, update_handle}
use shitflared.Server.Steps.{Event, step, run, when, mark_stopped, mark_all}

pub run_invariant :
    {P : Server → Type 0} {Q : Event → Type 0} (most : ℕ)
    → ((s t : Server) (e : Event) → Q e → step most s e ≡ some t → P s → P t)
    → (s t : Server) (es : List Event) → All Q es
    → run most s es ≡ some t
    → P s
    → P t
unfolding run
run_invariant {P = P} most kept s t [] q h p = subst P (some-injective s t h) p
run_invariant {P = P} {Q = Q} most kept s t (e ∷ es) q h p = elim (Option-cases (step most s e)) [
  | inl stuck ↦ absurd (none-ne-some t (subst (λ o. goes o ≡ some t) stuck h))
  | inr (u, taken) ↦
      run_invariant {P = P} {Q = Q} most kept u t es q.1 (subst (λ o. goes o ≡ some t) taken h)
        (kept s u e q.0 taken p)
]
  where
    goes : Option Server → Option Server
    goes o = elim o [ none ↦ none | some u ↦ run most u es ]

-- What a write to a handle leaves alone.

abbrev pub tables : Server → List (ℕ × ℕ) × (List (ℕ × Option Text) × (ℕ × AppConfig))
tables s = (s.running, (s.hub, (s.admitted, s.config)))

pub tables-update_handle :
    (s : Server) (p : ℕ) (f : Handle → Handle) → tables (update_handle s p f) ≡ tables s
unfolding update_handle
tables-update_handle s p f = elim (Option-cases (lookup p s.heap)) [
  | inl missing ↦ rw (missing, update_handle) refl
  | inr (h, found) ↦ rw (found, update_handle) refl
]

pub tables-mark_all : (s : Server) (rest : List (ℕ × ℕ)) → tables (mark_all s rest) ≡ tables s
unfolding mark_all mark_stopped
tables-mark_all s [] = refl
tables-mark_all s ((id, p) ∷ rest) =
    tables-mark_all (mark_stopped s p) rest
    ∙ tables-update_handle s p (λ h. record h { status = stopped })

pub when-some : (b : Bool) (s t : Server) → when b s ≡ some t → (b ≡ true) × (s ≡ t)
when-some true s t h = (refl, some-injective s t h)
when-some false s t h = absurd (none-ne-some t h)
