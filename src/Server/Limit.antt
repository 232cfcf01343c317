-- ===== src/Server/Limit.antt =====
-- cmd/cloudflared/main.go: the number of running tunnels against `MaxTunnels`, over all interleavings.
use shitflared.Prelude.{
  ℕ, zero, suc, ◌+◌, ◌-◌, ◌≤◌, ◌<◌, ◌≡◌, refl, ◌∙◌, ap, Bool, true, false, List, [], ◌∷◌, ◌++◌,
  none, some, All, length, leb, ltb, if◌then◌else◌, lookup, nat_eq, arith, length-insert_new,
  lookup-insert,
}
use shitflared.Server.{
  QuickTunnelRequest, AppConfig, max_tunnels_reached, error_reply, decoded, Server, validate,
  new_server, check_start,
}
use shitflared.Server.Steps.{
  Event, start_checked, start_registered, step, run, new_handle, can_register, when, admit,
  register_start,
}
use shitflared.Server.Frame.{run_invariant}
use shitflared.Server.Within.{Within, step-Within}

abbrev AnyEvent : Event → Type 0
AnyEvent e = Unit

All-AnyEvent : (es : List Event) → All AnyEvent es
All-AnyEvent [] = tt
All-AnyEvent (e ∷ es) = (tt, All-AnyEvent es)

-- Where at most `most` start handlers, and `most` is not 0, are ever between the test of the limit and
-- the addition of their tunnel, no history from an empty server runs more than `most - 1` tunnels
-- above the limit. With one at a time the limit is never passed.
pub run-new_server_bounded :
    (most : ℕ) (cfg : AppConfig) (t : Server) (es : List Event)
    → 1 ≤ most
    → run most (new_server cfg) es ≡ some t
    → length t.running + t.admitted ≤ t.config.max_tunnels + (most - 1)
unfolding new_server
run-new_server_bounded most cfg t es one h =
    let end : Within most t =
      run_invariant {P = Within most} {Q = AnyEvent} most (step-Within most) (new_server cfg) t es
        (All-AnyEvent es) h (omega arith) in
    omega arith

-- `n` requests are tested one behind the other, and `n` tunnels are added after that.
unfoldable pub checks : QuickTunnelRequest → ℕ → List Event
checks r zero = []
checks r (suc n) = start_checked (decoded r) ∷ checks r n

unfoldable pub registrations : QuickTunnelRequest → ℕ → List Event
registrations r zero = []
registrations r (suc n) = start_registered n n r 0 ∷ registrations r n

when-true : (b : Bool) (s : Server) → b ≡ true → when b s ≡ some s
when-true true s h = refl
when-true false s h = absurd cc

run-step :
    (most : ℕ) (s t : Server) (e : Event) (es : List Event)
    → step most s e ≡ some t
    → run most s (e ∷ es) ≡ run most t es
unfolding run
run-step most s t e es h = rw (h, run) refl

check_start_free :
    (r : QuickTunnelRequest) (s : Server)
    → validate r ≡ none
    → length s.running < s.config.max_tunnels
    → check_start s (decoded r) ≡ none
unfolding check_start
check_start_free r s valid room =
    rw (valid, check_start) (unless (leb s.config.max_tunnels (length s.running)) (ground arith))
  where
    unless :
        (b : Bool)
        → b ≡ false
        → (if b then some (error_reply 503 max_tunnels_reached) else none) ≡ none
    unless true h = absurd cc
    unless false h = refl

step-checked :
    (r : QuickTunnelRequest) (most : ℕ) (s : Server)
    → validate r ≡ none
    → length s.running < s.config.max_tunnels
    → s.admitted < most
    → step most s (start_checked (decoded r)) ≡ some (record s { admitted = s.admitted + 1 })
unfolding step
step-checked r most s valid room fits =
    ap (admit most s) (check_start_free r s valid room)
    ∙ when-true (ltb s.admitted most) (record s { admitted = s.admitted + 1 }) (ground arith)

run-checks :
    (r : QuickTunnelRequest) (most n : ℕ) (s : Server) (rest : List Event)
    → validate r ≡ none
    → length s.running < s.config.max_tunnels
    → s.admitted + n ≤ most
    → run most s (checks r n ++ rest) ≡ run most (record s { admitted = s.admitted + n }) rest
unfolding checks
run-checks r most zero s rest valid room h =
    ap (λ k. run most (record s { admitted = k }) rest) (omega arith)
run-checks r most (suc n) s rest valid room h =
    run-step most s (record s { admitted = s.admitted + 1 }) (start_checked (decoded r))
      (checks r n ++ rest) (step-checked r most s valid room (omega arith))
    ∙ (run-checks r most n (record s { admitted = s.admitted + 1 }) rest valid room (omega arith)
        ∙ ap (λ k. run most (record s { admitted = k }) rest) (omega arith))

-- The tables have no key below `n`.
record Above (n : ℕ) (s : Server) : Type 0 where
  running : (id : ℕ) → id < n → lookup id s.running ≡ none
  hub : (id : ℕ) → id < n → lookup id s.hub ≡ none
  heap : (id : ℕ) → id < n → lookup id s.heap ≡ none

step-registered :
    (r : QuickTunnelRequest) (most n : ℕ) (s : Server)
    → Above (suc n) s
    → s.admitted ≡ suc n
    → step most s (start_registered n n r 0) ≡ some (register_start s n n r 0)
unfolding step
step-registered r most n s above h = when-true (can_register s n n) (register_start s n n r 0) (
    ground (
      arith,
      h,
      above.running n (omega arith),
      above.hub n (omega arith),
      above.heap n (omega arith),
    ))

Above-register_start :
    (r : QuickTunnelRequest) (n : ℕ) (s : Server)
    → Above (suc n) s
    → Above n (register_start s n n r 0)
unfolding register_start
Above-register_start r n s above = record {
  running = λ id h. lookup-insert n id n s.running ∙ ground (arith, above.running id (omega arith));
  hub = λ id h. lookup-insert n id none s.hub ∙ ground (arith, above.hub id (omega arith));
  heap = λ id h.
      lookup-insert n id (new_handle s.config n r 0) s.heap
      ∙ ground (arith, above.heap id (omega arith));
}

run-registrations :
    (r : QuickTunnelRequest) (most n : ℕ) (s : Server)
    → Above n s
    → s.admitted ≡ n
    → (t : Server) × ((run most s (registrations r n) ≡ some t)
        × (length t.running ≡ length s.running + n))
unfolding run registrations register_start
run-registrations r most zero s above h = (s, (refl, omega arith))
run-registrations r most (suc n) s above h =
    let rest =
      run-registrations r most n (register_start s n n r 0) (Above-register_start r n s above)
        (omega arith) in
    (
      rest.0,
      (
        run-step most s (register_start s n n r 0) (start_registered n n r 0) (registrations r n)
              (step-registered r most n s above h)
            ∙ rest.1.0,
        omega (arith, rest.1.1, length-insert_new n n s.running (above.running n (omega arith))),
      ),
    )

-- The test of the limit and the addition are apart: `n` valid requests that are tested before any of
-- them is added all become running tunnels, whatever the limit is, unless it is 0.
pub concurrent_starts_pass_limit :
    (cfg : AppConfig) (r : QuickTunnelRequest) (n : ℕ)
    → validate r ≡ none
    → 1 ≤ cfg.max_tunnels
    → (t : Server) × ((run n (new_server cfg) (checks r n ++ registrations r n) ≡ some t)
        × (length t.running ≡ n))
unfolding new_server lookup
concurrent_starts_pass_limit cfg r n valid room =
    let rest =
      run-registrations r n n (record (new_server cfg) { admitted = 0 + n })
        (record { running = λ id h. refl; hub = λ id h. refl; heap = λ id h. refl })
        (omega arith) in
    (
      rest.0,
      (
        run-checks r n n (new_server cfg) (registrations r n) valid room (omega arith) ∙ rest.1.0,
        omega (arith, rest.1.1),
      ),
    )
