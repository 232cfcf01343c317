-- ===== src/Funnel/Closing.antt =====
-- packet/funnel.go: every funnel is tracked or closed.
use mathlib.Core.Path.{subst}
use mathlib.Core.Option.{some-injective}
use shitflared.Prelude.{
  nat_eq, beq_refl, ℕ, ◌+◌, ◌≡◌, refl, ap, ◌∙◌, arith, Bool, true, false, List, [], ◌∷◌, Option,
  none, some, ◌==◌, ltb, lookup, insert, remove, lookup-remove, if◌then◌else◌, Bool-cases, inl, inr,
}
use shitflared.Prelude.Keys.{Distinct, Distinct-insert}
use shitflared.Supervisor.Loop.Accounts.{times}
use shitflared.Funnel.{
  FunnelTracker, new_funnel_tracker, sweep, cleanup, close_all, close_and_delete, register_new,
  register_over, get_or_register, unregister_found, unregister, Call, registers, unregisters,
  cleans_up, call, calls,
}

-- How often a funnel is tracked.
unfoldable pub tracked : ℕ → List (ℕ × ℕ) → ℕ
tracked f [] = 0
tracked f ((id, g) ∷ rest) = (if f == g then 1 else 0) + tracked f rest

remove_missing : (id : ℕ) (m : List (ℕ × ℕ)) → lookup id m ≡ none → remove id m ≡ m
unfolding lookup remove
remove_missing id [] h = refl
remove_missing id ((j, g) ∷ m) h = elim (Bool-cases (j == id)) [
  | inl same ↦ absurd (cc (rw same at h))
  | inr other ↦ rw other (ap (λ r. (j, g) ∷ r) (remove_missing id m (rw other at h)))
]

tracked-remove :
    (f id g : ℕ) (m : List (ℕ × ℕ))
    → Distinct m
    → lookup id m ≡ some g
    → tracked f (remove id m) + (if f == g then 1 else 0) ≡ tracked f m
unfolding lookup remove tracked
tracked-remove f id g [] d h = absurd cc
tracked-remove f id g ((j, k) ∷ m) d h = elim (Bool-cases (j == id)) [
  | inl same ↦
      let held : k ≡ g = some-injective k g (rw same at h) in
      let at : j ≡ id = ground arith in
      let gone : lookup id m ≡ none = subst (λ i. lookup i m ≡ none) at d.0 in
      rw same (
        ap (λ n. n + (if f == g then 1 else 0)) (ap (tracked f) (remove_missing id m gone))
        ∙ ground (arith, held))
  | inr other ↦ rw other (omega (arith, tracked-remove f id g m d.1 (rw other at h)))
]

tracked-insert :
    (f id g : ℕ) (m : List (ℕ × ℕ))
    → lookup id m ≡ none
    → tracked f (insert id g m) ≡ (if f == g then 1 else 0) + tracked f m
unfolding lookup insert tracked
tracked-insert f id g [] h = refl
tracked-insert f id g ((j, k) ∷ m) h = ground (arith, tracked-insert f id g m)

Distinct-remove : (id : ℕ) (m : List (ℕ × ℕ)) → Distinct m → Distinct (remove id m)
unfolding remove
Distinct-remove id [] d = tt
Distinct-remove id ((j, g) ∷ m) d = elim (Bool-cases (j == id)) [
  | inl same ↦ rw same (Distinct-remove id m d.1)
  | inr other ↦ rw other (lookup-remove id j m ∙ ground (arith, d.0), Distinct-remove id m d.1)
]

sweep-missing :
    (is_idle : ℕ → Bool) (id : ℕ) (m : List (ℕ × ℕ))
    → lookup id m ≡ none
    → lookup id (sweep is_idle m).0 ≡ none
unfolding sweep lookup
sweep-missing is_idle id [] h = refl
sweep-missing is_idle id ((j, g) ∷ m) h = ground (arith, sweep-missing is_idle id m)

Distinct-sweep : (is_idle : ℕ → Bool) (m : List (ℕ × ℕ)) → Distinct m → Distinct (sweep is_idle m).0
unfolding sweep
Distinct-sweep is_idle [] d = tt
Distinct-sweep is_idle ((j, g) ∷ m) d = elim (Bool-cases (is_idle g)) [
  | inl stale ↦ rw stale (Distinct-sweep is_idle m d.1)
  | inr active ↦ rw active (sweep-missing is_idle j m d.0, Distinct-sweep is_idle m d.1)
]

tracked-sweep :
    (is_idle : ℕ → Bool) (f : ℕ) (m : List (ℕ × ℕ))
    → tracked f (sweep is_idle m).0 + times f (sweep is_idle m).1 ≡ tracked f m
unfolding sweep tracked times
tracked-sweep is_idle f [] = refl
tracked-sweep is_idle f ((j, g) ∷ m) = elim (Bool-cases (is_idle g)) [
  | inl stale ↦ rw stale (omega (arith, tracked-sweep is_idle f m))
  | inr active ↦ rw active (omega (arith, tracked-sweep is_idle f m))
]

times-close_all :
    (f : ℕ) (xs closed : List ℕ) → times f (close_all xs closed) ≡ times f xs + times f closed
unfolding times
times-close_all f [] closed = omega arith
times-close_all f (x ∷ xs) closed = omega (arith, times-close_all f xs closed)

-- A funnel that was made is tracked once or closed once; no other funnel is tracked or closed.
pub record Accounted (ft : FunnelTracker) : Type 0 where
  pub distinct : Distinct ft.funnels
  pub once : (f : ℕ) → tracked f ft.funnels + times f ft.closed ≡ (if ltb f ft.made then 1 else 0)

close_and_delete-Accounted :
    (id funnel : ℕ) (ft : FunnelTracker)
    → lookup id ft.funnels ≡ some funnel
    → Accounted ft
    → Accounted (close_and_delete id funnel ft)
unfolding close_and_delete times
close_and_delete-Accounted id funnel ft h a = record {
  distinct = Distinct-remove id ft.funnels a.distinct;
  once = λ f. omega (arith, tracked-remove f id funnel ft.funnels a.distinct h, a.once f);
}

register_new-Accounted :
    (id : ℕ) (makes : Bool) (ft : FunnelTracker)
    → lookup id ft.funnels ≡ none
    → Accounted ft
    → Accounted (register_new id makes ft).0
unfolding register_new
register_new-Accounted id false ft h a = a
register_new-Accounted id true ft h a = record {
  distinct = Distinct-insert id ft.made ft.funnels a.distinct;
  once = λ f. ground (arith, tracked-insert f id ft.made ft.funnels h, a.once f);
}

register_over-Accounted :
    (id : ℕ) (replaces : ℕ → Bool) (makes : Bool) (o : Option ℕ) (ft : FunnelTracker)
    → lookup id ft.funnels ≡ o
    → Accounted ft
    → Accounted (register_over id replaces makes o ft).0
unfolding close_and_delete
register_over-Accounted id replaces makes none ft h a = register_new-Accounted id makes ft h a
register_over-Accounted id replaces makes (some funnel) ft h a =
    elim (Bool-cases (replaces funnel)) [
      | inl yes_replace ↦ rw yes_replace (
          register_new-Accounted id makes (close_and_delete id funnel ft)
            (lookup-remove id id ft.funnels ∙ rw (beq_refl id) refl)
            (close_and_delete-Accounted id funnel ft h a))
      | inr keeps ↦ rw keeps a
    ]

unregister_found-Accounted :
    (id : ℕ) (equal : ℕ → Bool) (o : Option ℕ) (ft : FunnelTracker)
    → lookup id ft.funnels ≡ o
    → Accounted ft
    → Accounted (unregister_found id equal o ft).0
unregister_found-Accounted id equal none ft h a = a
unregister_found-Accounted id equal (some funnel) ft h a = elim (Bool-cases (equal funnel)) [
  | inl same ↦ rw same (close_and_delete-Accounted id funnel ft h a)
  | inr other ↦ rw other a
]

call-Accounted : (ft : FunnelTracker) (c : Call) → Accounted ft → Accounted (call ft c)
unfolding call get_or_register unregister cleanup
call-Accounted ft (registers id replaces makes) a =
    register_over-Accounted id replaces makes (lookup id ft.funnels) ft refl a
call-Accounted ft (unregisters id equal) a =
    unregister_found-Accounted id equal (lookup id ft.funnels) ft refl a
call-Accounted ft (cleans_up is_idle) a = record {
  distinct = Distinct-sweep is_idle ft.funnels a.distinct;
  once = λ f. omega (
    arith,
    tracked-sweep is_idle f ft.funnels,
    times-close_all f (sweep is_idle ft.funnels).1 ft.closed,
    a.once f,
  );
}

calls-Accounted : (ft : FunnelTracker) (cs : List Call) → Accounted ft → Accounted (calls ft cs)
unfolding calls
calls-Accounted ft [] a = a
calls-Accounted ft (c ∷ cs) a = calls-Accounted (call ft c) cs (call-Accounted ft c a)

-- After any calls of a new tracker, every funnel that was made is either tracked, under one identifier,
-- and was not closed, or is not tracked and was closed once.
pub calls-new_funnel_tracker-Accounted : (cs : List Call) → Accounted (calls new_funnel_tracker cs)
unfolding new_funnel_tracker tracked times
calls-new_funnel_tracker-Accounted cs =
    calls-Accounted new_funnel_tracker cs (record { distinct = tt; once = λ f. ground arith })
