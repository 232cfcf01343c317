-- ===== src/Funnel.antt =====
-- packet/funnel.go: the tracker of funnels. A method under the lock is one step; a funnel is a number,
-- those below `made` were made by the callers' functions, and what the funnels answer are arguments.
pub mod Closing
mod Tests
use shitflared.Prelude.{
  nat_eq, ℕ, zero, suc, ◌+◌, Bool, true, false, List, [], ◌∷◌, Option, none, some, ltb, lookup,
  insert, remove, if◌then◌else◌,
}

-- `closed` has the funnels whose `Close` was called, once for each call.
pub record FunnelTracker : Type 0 where
  pub funnels : List (ℕ × ℕ)
  pub closed : List ℕ
  pub made : ℕ

unfoldable pub new_funnel_tracker : FunnelTracker
new_funnel_tracker = record { funnels = []; closed = []; made = 0 }

-- `is_idle` is whether the last activity is longer ago than the timeout.
unfoldable pub sweep : (is_idle : ℕ → Bool) → List (ℕ × ℕ) → List (ℕ × ℕ) × List ℕ
sweep is_idle [] = ([], [])
sweep is_idle ((id, funnel) ∷ rest) =
    let later = sweep is_idle rest in
    if is_idle funnel then (later.0, funnel ∷ later.1) else ((id, funnel) ∷ later.0, later.1)

abbrev pub close_all : List ℕ → List ℕ → List ℕ
close_all [] closed = closed
close_all (funnel ∷ rest) closed = funnel ∷ close_all rest closed

unfoldable pub cleanup : (is_idle : ℕ → Bool) → FunnelTracker → FunnelTracker
cleanup is_idle ft =
    let swept = sweep is_idle ft.funnels in
    record ft { funnels = swept.0; closed = close_all swept.1 ft.closed }

unfoldable pub get : ℕ → FunnelTracker → Option ℕ
get id ft = lookup id ft.funnels

unfoldable pub close_and_delete : (id funnel : ℕ) → FunnelTracker → FunnelTracker
close_and_delete id funnel ft = record ft {
  funnels = remove id ft.funnels;
  closed = funnel ∷ ft.closed;
}

-- The funnel that is returned with whether it is new, or the error.
pub data Registered : Type 0 where
  error : Registered
  registered : (funnel : ℕ) → (new : Bool) → Registered

unfoldable pub register_new : (id : ℕ) → (makes : Bool) → FunnelTracker → FunnelTracker × Registered
register_new id false ft = (ft, error)
register_new id true ft = (
  record ft { funnels = insert id ft.made ft.funnels; made = suc ft.made },
  registered ft.made true,
)

abbrev pub register_over :
    (id : ℕ)
    → (replaces : ℕ → Bool) → (makes : Bool) → Option ℕ
    → FunnelTracker
    → FunnelTracker × Registered
register_over id replaces makes none ft = register_new id makes ft
register_over id replaces makes (some funnel) ft =
    if replaces funnel
    then register_new id makes (close_and_delete id funnel ft)
    else (ft, registered funnel false)

-- `replaces` is `shouldReplaceFunc`, `makes` whether `newFunnelFunc` makes a funnel.
unfoldable pub get_or_register :
    (id : ℕ) → (replaces : ℕ → Bool) → (makes : Bool) → FunnelTracker → FunnelTracker × Registered
get_or_register id replaces makes ft = register_over id replaces makes (lookup id ft.funnels) ft

abbrev pub unregister_found :
    (id : ℕ) → (equal : ℕ → Bool) → Option ℕ → FunnelTracker → FunnelTracker × Bool
unregister_found id equal none ft = (ft, true)
unregister_found id equal (some funnel) ft =
    if equal funnel then (close_and_delete id funnel ft, true) else (ft, false)

-- `equal` compares with the funnel of the caller.
unfoldable pub unregister : (id : ℕ) → (equal : ℕ → Bool) → FunnelTracker → FunnelTracker × Bool
unregister id equal ft = unregister_found id equal (lookup id ft.funnels) ft

pub data Call : Type 0 where
  registers : (id : ℕ) → (replaces : ℕ → Bool) → (makes : Bool) → Call
  unregisters : (id : ℕ) → (equal : ℕ → Bool) → Call
  cleans_up : (is_idle : ℕ → Bool) → Call

unfoldable pub call : FunnelTracker → Call → FunnelTracker
call ft (registers id replaces makes) = (get_or_register id replaces makes ft).0
call ft (unregisters id equal) = (unregister id equal ft).0
call ft (cleans_up is_idle) = cleanup is_idle ft

unfoldable pub calls : FunnelTracker → List Call → FunnelTracker
calls ft [] = ft
calls ft (c ∷ rest) = calls (call ft c) rest
