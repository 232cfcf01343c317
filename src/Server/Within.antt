-- ===== src/Server/Within.antt =====
-- cmd/cloudflared/main.go: each step keeps the number of running tunnels within its bound.
use mathlib.Core.Path.{subst}
use mathlib.Core.Option.{some-injective, none-ne-some}
use shitflared.Prelude.Text.{Text}
use shitflared.Prelude.{
  ℕ, ◌+◌, ◌≤◌, ◌<◌, ◌≡◌, refl, ◌∙◌, ap, Bool, true, not, ◌&&◌, ◌||◌, Option, none, some, length,
  leb, ltb, ◌==◌, lookup, nat_eq, arith, Bool-cases, Option-cases, inl, inr, length-remove-le,
  length-insert_new,
}
use shitflared.Server.{
  QuickTunnelRequest, Response, Handle, started, stopped, timeout, Body, not_post, unreadable,
  undecodable, decoded, Server, update_handle, check_start,
}
use shitflared.Server.Steps.{
  Event, start_checked, start_registered, start_without_executable, start_failing, worker_started,
  worker_exited, start_ready, start_exited, start_timed_out, stop_marked, stop_finished,
  called_back, shut_down, step, admit, ready, waiting, can_register, is_none, register_start,
  refuse_without_executable, fail_start, drop_start, run_worker, worker_exits, ready_start,
  exited_start, timeout_start, mark_stopped, finish_stop, Callback, report, no_id, exit_status,
  apply_callback, handle_callback, mark_all,
}
use shitflared.Server.Frame.{tables, tables-update_handle, tables-mark_all, when-some}

-- The tunnels and the handlers on their way to one, against the limit.
abbrev pub Within : ℕ → Server → Type 0
Within most s = length s.running + s.admitted + 1 ≤ s.config.max_tunnels + most

abbrev Shrinks : Server → Server → Type 0
Shrinks s t =
    (length t.running ≤ length s.running) × ((t.admitted ≤ s.admitted) × (t.config ≡ s.config))

Shrinks-Within : (most : ℕ) (s t : Server) → Shrinks s t → Within most s → Within most t
Shrinks-Within most s t c w = omega (arith, c.0, c.1.0, ap (λ x. x.max_tunnels) c.1.1, w)

tables-Shrinks : (s t : Server) → tables t ≡ tables s → Shrinks s t
tables-Shrinks s t h = (
  omega (arith, ap (λ x. length x.0) h),
  (omega (arith, ap (λ x. x.1.1.0) h), ap (λ x. x.1.1.1) h),
)

Shrinks-trans : (s t u : Server) → Shrinks s t → Shrinks t u → Shrinks s u
Shrinks-trans s t u a b = (omega (arith, a.0, b.0), (omega (arith, a.1.0, b.1.0), b.1.1 ∙ a.1.1))

shrunk : (most : ℕ) (s x t : Server) → Shrinks s x → x ≡ t → Within most s → Within most t
shrunk most s x t c e w = subst (Within most) e (Shrinks-Within most s x c w)

update_handle-Shrinks : (s : Server) (p : ℕ) (f : Handle → Handle) → Shrinks s (update_handle s p f)
update_handle-Shrinks s p f = tables-Shrinks s (update_handle s p f) (tables-update_handle s p f)

pub check_start_admits :
    (s : Server) (body : Body QuickTunnelRequest)
    → check_start s body ≡ none
    → length s.running < s.config.max_tunnels
unfolding check_start
check_start_admits s not_post h = cc
check_start_admits s unreadable h = cc
check_start_admits s undecodable h = cc
check_start_admits s (decoded r) h = ground arith

Shrinks-apply_callback : (s : Server) (cb : Callback) → Shrinks s (apply_callback s cb)
unfolding apply_callback
Shrinks-apply_callback s cb = elim (Option-cases (lookup cb.id s.running)) [
  | inl missing ↦ rw (missing, apply_callback) (tables-Shrinks s s refl)
  | inr (p, found) ↦
      rw (found, apply_callback)
        (tables-Shrinks s (update_handle s p (report cb)) (tables-update_handle s p (report cb)))
]

Shrinks-handle_callback : (s : Server) (body : Body Callback) → Shrinks s (handle_callback s body).0
unfolding handle_callback
Shrinks-handle_callback s not_post = tables-Shrinks s s refl
Shrinks-handle_callback s unreadable = tables-Shrinks s s refl
Shrinks-handle_callback s undecodable = tables-Shrinks s s refl
Shrinks-handle_callback s (decoded cb) = elim (Bool-cases (cb.id == no_id)) [
  | inl missing ↦ rw missing (tables-Shrinks s s refl)
  | inr named ↦ rw named (Shrinks-apply_callback s cb)
]

Shrinks-drop_start : (s : Server) (id : ℕ) → Shrinks s (drop_start s id)
unfolding drop_start
Shrinks-drop_start s id = (length-remove-le id s.running, (omega arith, refl))

Shrinks-refuse_without_executable : (s : Server) → Shrinks s (refuse_without_executable s).0
unfolding refuse_without_executable
Shrinks-refuse_without_executable s = (omega arith, (omega arith, refl))

Shrinks-timeout_start : (s : Server) (id p : ℕ) → Shrinks s (timeout_start s id p).0
unfolding timeout_start
Shrinks-timeout_start s id p =
    Shrinks-trans s (update_handle s p (λ h. record h { status = timeout }))
      (drop_start (update_handle s p (λ h. record h { status = timeout })) id)
      (update_handle-Shrinks s p (λ h. record h { status = timeout }))
      (Shrinks-drop_start (update_handle s p (λ h. record h { status = timeout })) id)

Shrinks-ready_start : (s : Server) (id p : ℕ) (url : Text) → Shrinks s (ready_start s id p url).0
unfolding ready_start
Shrinks-ready_start s id p url =
    update_handle-Shrinks s p (λ h. record h { url = url; status = started })

Within-admit :
    (most : ℕ) (s t : Server) (o : Option Response)
    → (o ≡ none → length s.running < s.config.max_tunnels)
    → admit most s o ≡ some t
    → Within most s
    → Within most t
Within-admit most s t (some refusal) room h w = subst (Within most) (some-injective s t h) w
Within-admit most s t none room h w =
    let taken = when-some (ltb s.admitted most) (record s { admitted = s.admitted + 1 }) t h in
    subst (Within most) taken.1 (ground (arith, taken.0, room refl))

Within-register_start :
    (most : ℕ) (s : Server) (id p : ℕ) (r : QuickTunnelRequest) (now : ℕ)
    → 1 ≤ s.admitted
    → lookup id s.running ≡ none
    → Within most s
    → Within most (register_start s id p r now)
unfolding register_start
Within-register_start most s id p r now one fresh w =
    omega (arith, length-insert_new id p s.running fresh)

Shrinks-run_worker : (s : Server) (p pid : ℕ) → Shrinks s (run_worker s p pid)
unfolding run_worker
Shrinks-run_worker s p pid = update_handle-Shrinks s p (λ h. record h { pid = pid })

Shrinks-mark_stopped : (s : Server) (p : ℕ) → Shrinks s (mark_stopped s p)
unfolding mark_stopped
Shrinks-mark_stopped s p = update_handle-Shrinks s p (λ h. record h { status = stopped })

Shrinks-worker_exits : (s : Server) (p : ℕ) (error : Bool) → Shrinks s (worker_exits s p error)
unfolding worker_exits
Shrinks-worker_exits s p error = update_handle-Shrinks s p (λ h. record h {
  failure = h.failure || error;
  status = exit_status error h.status;
  exited = true;
})

Shrinks-exited_start : (s : Server) (id p : ℕ) → Shrinks s (exited_start s id p).0
unfolding exited_start
Shrinks-exited_start s id p = Shrinks-drop_start s id

Shrinks-finish_stop : (s : Server) (id : ℕ) (snap : Handle) → Shrinks s (finish_stop s id snap).0
unfolding finish_stop
Shrinks-finish_stop s id snap = (length-remove-le id s.running, (omega arith, refl))

Within-ready :
    (most : ℕ) (s t : Server) (id p : ℕ) (held : Option (Option Text))
    → ready s id p held ≡ some t
    → Within most s
    → Within most t
Within-ready most s t id p none h w = absurd (none-ne-some t h)
Within-ready most s t id p (some none) h w = absurd (none-ne-some t h)
Within-ready most s t id p (some (some url)) h w =
    shrunk most s (ready_start s id p url).0 t (Shrinks-ready_start s id p url)
      (some-injective (ready_start s id p url).0 t h) w

registered_guard :
    (s : Server) (id p : ℕ)
    → (can_register s id p) ≡ true
    → (1 ≤ s.admitted) × (lookup id s.running ≡ none)
registered_guard s id p h = ground arith

pub step-Within :
    (most : ℕ) (s t : Server) (e : Event)
    → Unit {0}
    → step most s e ≡ some t
    → Within most s
    → Within most t
unfolding step fail_start
step-Within most s t (start_checked body) q h w =
    Within-admit most s t (check_start s body) (check_start_admits s body) h w
step-Within most s t (start_registered id p r now) q h w =
    registered (when-some (can_register s id p) (register_start s id p r now) t h)
  where
    registered : ((can_register s id p) ≡ true) × (register_start s id p r now ≡ t) → Within most t
    registered (guard, e) = subst (Within most) e (
        Within-register_start most s id p r now (registered_guard s id p guard).0
          (registered_guard s id p guard).1 w)
step-Within most s t start_without_executable q h w =
    shrunk most s (refuse_without_executable s).0 t (Shrinks-refuse_without_executable s)
      (when-some (leb 1 s.admitted) (refuse_without_executable s).0 t h).1 w
step-Within most s t (start_failing id) q h w =
    shrunk most s (drop_start s id) t (Shrinks-drop_start s id)
      (when-some (waiting s id) (drop_start s id) t h).1 w
step-Within most s t (worker_started p pid) q h w =
    shrunk most s (run_worker s p pid) t (Shrinks-run_worker s p pid)
      (some-injective (run_worker s p pid) t h) w
step-Within most s t (worker_exited p error) q h w =
    shrunk most s (worker_exits s p error) t (Shrinks-worker_exits s p error)
      (some-injective (worker_exits s p error) t h) w
step-Within most s t (start_ready id p) q h w = Within-ready most s t id p (lookup id s.hub) h w
step-Within most s t (start_exited id p) q h w =
    shrunk most s (exited_start s id p).0 t (Shrinks-exited_start s id p)
      (when-some (waiting s id && not (is_none (exited_start s id p).1)) (exited_start s id p).0 t
        h).1
      w
step-Within most s t (start_timed_out id p) q h w =
    shrunk most s (timeout_start s id p).0 t (Shrinks-timeout_start s id p)
      (when-some (waiting s id) (timeout_start s id p).0 t h).1 w
step-Within most s t (stop_marked p) q h w =
    shrunk most s (mark_stopped s p) t (Shrinks-mark_stopped s p)
      (some-injective (mark_stopped s p) t h) w
step-Within most s t (stop_finished id snap) q h w =
    shrunk most s (finish_stop s id snap).0 t (Shrinks-finish_stop s id snap)
      (some-injective (finish_stop s id snap).0 t h) w
step-Within most s t (called_back body) q h w =
    shrunk most s (handle_callback s body).0 t (Shrinks-handle_callback s body)
      (some-injective (handle_callback s body).0 t h) w
step-Within most s t shut_down q h w =
    shrunk most s (mark_all s s.running) t
      (tables-Shrinks s (mark_all s s.running) (tables-mark_all s s.running))
      (some-injective (mark_all s s.running) t h) w
