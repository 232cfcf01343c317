-- ===== src/Server/Exhaust.antt =====
-- cmd/cloudflared/main.go: tunnels whose start handler has answered stay in the table of running
-- tunnels until a stop request, also when their worker has exited.
use mathlib.Core.Option.{some-injective, none-ne-some}
use shitflared.Prelude.Text.{Text, is_empty}
use shitflared.Prelude.{
  ℕ, ◌≤◌, ◌≡◌, refl, sym, ◌∙◌, ap, Bool, true, false, not, ◌&&◌, ◌||◌, List, [], ◌∷◌, Option, none,
  some, All, length, leb, ◌==◌, if◌then◌else◌, lookup, nat_eq, arith, Bool-cases, Option-cases, inl,
  inr,
}
use shitflared.Server.{
  QuickTunnelRequest, max_tunnels_reached, error_reply, Response, stopped, Body, not_post,
  unreadable, undecodable, decoded, Server, validate, check_start,
}
use shitflared.Server.Steps.{
  Event, start_checked, start_registered, start_without_executable, start_failing, worker_started,
  worker_exited, start_ready, start_exited, start_timed_out, stop_marked, stop_finished,
  called_back, shut_down, step, run, admit, can_register, ready, waiting, is_none, register_start,
  refuse_without_executable, fail_start, drop_start, run_worker, worker_exits, exited_start,
  timeout_start, mark_stopped, push, Callback, report, no_id, exit_status, apply_callback,
  handle_callback, mark_all,
}
use shitflared.Server.Frame.{
  run_invariant, tables, tables-update_handle, tables-mark_all, when-some,
}
use shitflared.Server.Within.{check_start_admits}

-- No stop request ends.
abbrev pub keeps : Event → Bool
keeps (stop_finished id snap) = false
keeps _ = true

-- The tables are those of `s`, and no start handler is under way.
abbrev Frozen : Server → Server → Type 0
Frozen s t = tables t ≡ (s.running, ([], (0, s.config)))

check_start-full :
    (s : Server) (body : Body QuickTunnelRequest)
    → s.config.max_tunnels ≤ length s.running
    → (r : Response) × (check_start s body ≡ some r)
check_start-full s body full = elim (Option-cases (check_start s body)) [
  | inl admitted ↦ absurd (omega (arith, check_start_admits s body admitted))
  | inr refused ↦ refused
]

check_start-full_valid :
    (s : Server) (r : QuickTunnelRequest)
    → s.config.max_tunnels ≤ length s.running
    → validate r ≡ none
    → check_start s (decoded r) ≡ some (error_reply 503 max_tunnels_reached)
unfolding check_start
check_start-full_valid s r full valid =
    rw (valid, check_start) (chosen (leb s.config.max_tunnels (length s.running)) (ground arith))
  where
    chosen :
        (b : Bool)
        → b ≡ true
        → (if b then some (error_reply 503 max_tunnels_reached) else none)
          ≡ some (error_reply 503 max_tunnels_reached)
    chosen true h = refl
    chosen false h = absurd cc

push-empty : (hub : List (ℕ × Option Text)) (id : ℕ) (url : Text) → hub ≡ [] → push hub id url ≡ []
unfolding push lookup
push-empty [] id url h = refl
push-empty (c ∷ hub) id url h = absurd cc

tables-apply_callback :
    (s : Server) (cb : Callback) → s.hub ≡ [] → tables (apply_callback s cb) ≡ tables s
unfolding apply_callback
tables-apply_callback s cb h = elim (Option-cases (lookup cb.id s.running)) [
  | inl missing ↦ rw (missing, apply_callback) refl
  | inr (p, found) ↦
      rw (found, apply_callback)
        (ap (λ x. (x.0, (if is_empty cb.url then s.hub else push s.hub cb.id cb.url, x.1.1)))
            (tables-update_handle s p (report cb))
          ∙ ap (λ x. (s.running, (x, (s.admitted, s.config)))) (same_hub (is_empty cb.url)))
]
  where
    same_hub : (b : Bool) → (if b then s.hub else push s.hub cb.id cb.url) ≡ s.hub
    same_hub true = refl
    same_hub false = push-empty s.hub cb.id cb.url h ∙ sym h

tables-handle_callback :
    (s : Server) (body : Body Callback) → s.hub ≡ [] → tables (handle_callback s body).0 ≡ tables s
unfolding handle_callback
tables-handle_callback s not_post h = refl
tables-handle_callback s unreadable h = refl
tables-handle_callback s undecodable h = refl
tables-handle_callback s (decoded cb) h = elim (Bool-cases (cb.id == no_id)) [
  | inl missing ↦ rw missing refl
  | inr named ↦ rw named (tables-apply_callback s cb h)
]

admit-refused :
    (most : ℕ) (t u : Server) (o : Option Response) (r : Response)
    → o ≡ some r
    → admit most t o ≡ some u
    → t ≡ u
admit-refused most t u none r e h = absurd (none-ne-some r e)
admit-refused most t u (some x) r e h = some-injective t u h

ready-nobody :
    (t u : Server) (id p : ℕ) (o : Option (Option Text))
    → o ≡ none
    → ready t id p o ≡ some u
    → t ≡ u
ready-nobody t u id p none e h = absurd (none-ne-some u h)
ready-nobody t u id p (some x) e h = absurd cc

moved : (s t x u : Server) → tables x ≡ tables t → x ≡ u → Frozen s t → Frozen s u
moved s t x u same e w = ap tables (sym e) ∙ (same ∙ w)

lookup-nobody : (hub : List (ℕ × Option Text)) (id : ℕ) → hub ≡ [] → lookup id hub ≡ none
unfolding lookup
lookup-nobody [] id h = refl
lookup-nobody (c ∷ hub) id h = absurd cc

-- A start handler's step needs a channel in the hub.
no_waiting : {A : Type 0} (t : Server) (id : ℕ) → t.hub ≡ [] → waiting t id ≡ true → A
no_waiting t id h present = absurd (ground (arith, present, lookup-nobody t.hub id h))

step-Frozen :
    (most : ℕ) (s t u : Server) (e : Event)
    → s.config.max_tunnels ≤ length s.running
    → keeps e ≡ true
    → step most t e ≡ some u
    → Frozen s t
    → Frozen s u
unfolding step fail_start lookup run_worker worker_exits mark_stopped
step-Frozen most s t u (start_checked body) full q h w =
    moved s t t u refl
      (admit-refused most t u (check_start t body) (check_start-full t body (full_there w)).0
        (check_start-full t body (full_there w)).1 h)
      w
  where
    full_there : Frozen s t → t.config.max_tunnels ≤ length t.running
    full_there w = omega (arith, full, ap (λ x. x.1.1.1.max_tunnels) w, ap (λ x. length x.0) w)
step-Frozen most s t u (start_registered id p r now) full q h w = absurd (
    ground (
      arith,
      (when-some (can_register t id p) (register_start t id p r now) u h).0,
      ap (λ x. x.1.1.0) w,
    ))
step-Frozen most s t u start_without_executable full q h w = absurd (
    ground (
      arith,
      (when-some (leb 1 t.admitted) (refuse_without_executable t).0 u h).0,
      ap (λ x. x.1.1.0) w,
    ))
step-Frozen most s t u (start_failing id) full q h w =
    no_waiting t id (ap (λ x. x.1.0) w) (when-some (waiting t id) (drop_start t id) u h).0
step-Frozen most s t u (worker_started p pid) full q h w =
    moved s t (run_worker t p pid) u (tables-update_handle t p (λ h. record h { pid = pid }))
      (some-injective (run_worker t p pid) u h) w
step-Frozen most s t u (worker_exited p error) full q h w =
    moved s t (worker_exits t p error) u
      (tables-update_handle t p (λ h. record h {
        failure = h.failure || error;
        status = exit_status error h.status;
        exited = true;
      }))
      (some-injective (worker_exits t p error) u h) w
step-Frozen most s t u (start_ready id p) full q h w =
    moved s t t u refl
      (ready-nobody t u id p (lookup id t.hub) (lookup-nobody t.hub id (ap (λ x. x.1.0) w)) h) w
step-Frozen most s t u (start_exited id p) full q h w = no_waiting t id (ap (λ x. x.1.0) w) (
    ground (
      arith,
      (when-some (waiting t id && not (is_none (exited_start t id p).1)) (exited_start t id p).0 u
          h).0,
    ))
step-Frozen most s t u (start_timed_out id p) full q h w =
    no_waiting t id (ap (λ x. x.1.0) w) (when-some (waiting t id) (timeout_start t id p).0 u h).0
step-Frozen most s t u (stop_marked p) full q h w =
    moved s t (mark_stopped t p) u (tables-update_handle t p (λ h. record h { status = stopped }))
      (some-injective (mark_stopped t p) u h) w
step-Frozen most s t u (stop_finished id snap) full q h w = absurd cc
step-Frozen most s t u (called_back body) full q h w =
    moved s t (handle_callback t body).0 u (tables-handle_callback t body (ap (λ x. x.1.0) w))
      (some-injective (handle_callback t body).0 u h) w
step-Frozen most s t u shut_down full q h w =
    moved s t (mark_all t t.running) u (tables-mark_all t t.running)
      (some-injective (mark_all t t.running) u h) w

-- Once as many tunnels as the limit are in the table and each start handler has answered, whatever
-- happens, workers that exit included, the table stays as it is until a stop request ends, and every
-- valid request to start a tunnel is refused.
pub answered_tunnels_exhaust :
    (most : ℕ) (s t : Server) (es : List Event) (r : QuickTunnelRequest)
    → s.config.max_tunnels ≤ length s.running
    → s.hub ≡ []
    → s.admitted ≡ 0
    → All (λ e. keeps e ≡ true) es
    → run most s es ≡ some t
    → validate r ≡ none
    → (t.running ≡ s.running)
      × (check_start t (decoded r) ≡ some (error_reply 503 max_tunnels_reached))
answered_tunnels_exhaust most s t es r full nobody none_admitted q h valid =
    let end : Frozen s t =
      run_invariant {P = Frozen s} {Q = λ e. keeps e ≡ true} most
        (λ t u e q h w. step-Frozen most s t u e full q h w) s t es q h
        (ap (λ x. (s.running, (x, (s.admitted, s.config)))) nobody
          ∙ ap (λ k. (s.running, ([], (k, s.config)))) none_admitted) in
    (
      ap (λ x. x.0) end,
      check_start-full_valid t r
          (omega (arith, full, ap (λ x. x.1.1.1.max_tunnels) end, ap (λ x. length x.0) end)) valid,
    )
