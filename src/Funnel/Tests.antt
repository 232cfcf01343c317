-- ===== src/Funnel/Tests.antt =====
-- A run of the tracker in which a funnel is replaced.
use shitflared.Prelude.{◌≡◌, refl, true, false, List, [], ◌∷◌, lookup, insert, remove, nat_eq, ◌==◌}
use shitflared.Funnel.{
  new_funnel_tracker, Call, registers, unregisters, cleans_up, call, calls, get_or_register,
  register_new, close_and_delete, unregister, cleanup, sweep,
}
use shitflared.Funnel.Closing.{Accounted, calls-new_funnel_tracker-Accounted}

abbrev some_calls : List Call
some_calls =
    registers 7 (λ f. false) true
    ∷ registers 7 (λ f. true) true
    ∷ unregisters 7 (λ f. f == 0)
    ∷ cleans_up (λ f. f == 5)
    ∷ []

calls-new_funnel_tracker-Accounted_example : Accounted (calls new_funnel_tracker some_calls)
calls-new_funnel_tracker-Accounted_example = calls-new_funnel_tracker-Accounted some_calls

one_is_left :
    calls new_funnel_tracker some_calls
    ≡ record { funnels = (7, 1) ∷ []; closed = 0 ∷ []; made = 2 }
unfolding calls call new_funnel_tracker get_or_register register_new close_and_delete unregister
    cleanup sweep lookup insert remove
one_is_left = refl
