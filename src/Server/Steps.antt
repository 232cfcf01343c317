-- ===== src/Server/Steps.antt =====
-- cmd/cloudflared/main.go: the steps of the handlers and of the goroutine that waits for a worker, and
-- their interleaving as a list of events.
use shitflared.Prelude.Text.{Text, is_empty}
use shitflared.Prelude.{
  ℕ, ◌+◌, ◌-◌, Bool, true, false, not, ◌&&◌, ◌||◌, List, [], ◌∷◌, Option, none, some, leb, ltb,
  ◌==◌, if◌then◌else◌, lookup, insert, remove, nat_eq,
}
use shitflared.Server.{
  QuickTunnelRequest, AppConfig, method_not_allowed, cannot_read_body, invalid_json, missing_id,
  no_executable_path, start_failed, timed_out, tunnel_not_found, choose_protocol, TunnelStatus,
  starting, started, stopped, failed, timeout, Handle, Response, error_reply, snapshot_reply,
  no_content, Body, not_post, unreadable, undecodable, decoded, Server, update_handle, check_start,
}

abbrev pub new_handle : AppConfig → ℕ → QuickTunnelRequest → ℕ → Handle
new_handle cfg id r now = record {
  id = id;
  host = r.host;
  port = r.port;
  proxy = r.proxy;
  protocol = choose_protocol cfg r;
  status = starting;
  url = [];
  failure = false;
  pid = 0;
  started_at = now;
  exited = false;
}

-- `hub.register(id)` and `running[id] = h`: nobody else knows the new id in between.
unfoldable pub register_start : Server → ℕ → ℕ → QuickTunnelRequest → ℕ → Server
register_start s id p r now = record s {
  running = insert id p s.running;
  heap = insert p (new_handle s.config id r now) s.heap;
  hub = insert id none s.hub;
  admitted = s.admitted - 1;
}

-- `os.Executable` fails: the handler leaves before it adds its tunnel, and its channel, whose id nobody
-- else knows, is registered and unregistered in between.
unfoldable pub refuse_without_executable : Server → Server × Response
refuse_without_executable s =
    (record s { admitted = s.admitted - 1 }, error_reply 500 no_executable_path)

-- The handler leaves: `delete(running, id)` and the deferred `hub.unregister(id)`.
unfoldable pub drop_start : Server → ℕ → Server
drop_start s id = record s { running = remove id s.running; hub = remove id s.hub }

-- `cmd.Start` fails.
unfoldable pub fail_start : Server → ℕ → Server × Response
fail_start s id = (drop_start s id, error_reply 500 start_failed)

-- `cmd.Start` succeeds.
unfoldable pub run_worker : Server → ℕ → ℕ → Server
run_worker s p pid = update_handle s p (λ h. record h { pid = pid })

abbrev pub exit_status : Bool → TunnelStatus → TunnelStatus
exit_status true timeout = timeout
exit_status true stopped = stopped
exit_status true _ = failed
exit_status false _ = stopped

-- The goroutine behind `cmd.Wait()`, whose error is `error`.
unfoldable pub worker_exits : Server → ℕ → Bool → Server
worker_exits s p error = update_handle s p (λ h. record h {
  failure = h.failure || error;
  status = exit_status error h.status;
  exited = true;
})

-- The three cases of the `select` of `handleStartQuickTunnel`; `none` where the case is not ready.
abbrev ready_reply : Option Handle → Option Response
ready_reply none = none
ready_reply (some h) = some (snapshot_reply 200 (record h { failure = false }))

unfoldable pub ready_start : Server → ℕ → ℕ → Text → Server × Option Response
ready_start s id p url =
    let after = update_handle s p (λ h. record h { url = url; status = started }) in
    (record after { hub = remove id s.hub }, ready_reply (lookup p after.heap))

abbrev pub exit_reply : Option Handle → Option Response
exit_reply none = none
exit_reply (some h) =
    if not h.exited
    then none
    else if h.failure
    then some (snapshot_reply 500 h)
    else some (snapshot_reply 200 (record h { status = stopped }))

unfoldable pub exited_start : Server → ℕ → ℕ → Server × Option Response
exited_start s id p = (drop_start s id, exit_reply (lookup p s.heap))

unfoldable pub timeout_start : Server → ℕ → ℕ → Server × Response
timeout_start s id p = (
  drop_start (update_handle s p (λ h. record h { status = timeout })) id,
  error_reply 504 timed_out,
)

-- `handleStopTunnel` up to the lookup: a reply, or the pointer that it found.
pub data StopCheck : Type 0 where
  stop_refused : Response → StopCheck
  stop_found : ℕ → StopCheck

-- The id of a request that names none.
abbrev pub no_id : ℕ
no_id = 0

unfoldable pub check_stop : Server → Body ℕ → StopCheck
check_stop s not_post = stop_refused (error_reply 405 method_not_allowed)
check_stop s unreadable = stop_refused (error_reply 400 cannot_read_body)
check_stop s undecodable = stop_refused (error_reply 400 invalid_json)
check_stop s (decoded id) =
    if id == no_id then stop_refused (error_reply 400 missing_id) else elim (lookup id s.running) [
      | none ↦ stop_refused (error_reply 404 tunnel_not_found)
      | some p ↦ stop_found p
    ]

unfoldable pub mark_stopped : Server → ℕ → Server
mark_stopped s p = update_handle s p (λ h. record h { status = stopped })

-- After the wait for the worker: `snap` was taken before the mark.
unfoldable pub finish_stop : Server → ℕ → Handle → Server × Response
finish_stop s id snap = (
  record s { running = remove id s.running },
  snapshot_reply 200 (record snap { status = stopped }),
)

pub record Callback : Type 0 where
  pub id : ℕ
  pub url : Text
  pub status_is_error : Bool
  pub error : Text

unfoldable pub report : Callback → Handle → Handle
report cb h =
    let noted =
      if cb.status_is_error && not (is_empty cb.error)
      then record h { failure = true; status = failed }
      else h in
    if is_empty cb.url then noted else record noted { url = cb.url }

-- `push`: the channel has room for one URL, and a second one is dropped.
unfoldable pub push : List (ℕ × Option Text) → ℕ → Text → List (ℕ × Option Text)
push hub id url = elim (lookup id hub) [
  | none ↦ hub
  | some none ↦ insert id (some url) hub
  | some (some held) ↦ hub
]

unfoldable pub apply_callback : Server → Callback → Server
apply_callback s cb = elim (lookup cb.id s.running) [
  | none ↦ s
  | some p ↦ record (update_handle s p (report cb)) {
    hub = (if is_empty cb.url then s.hub else push s.hub cb.id cb.url);
  }
]

unfoldable pub handle_callback : Server → Body Callback → Server × Response
handle_callback s not_post = (s, error_reply 405 method_not_allowed)
handle_callback s unreadable = (s, error_reply 400 cannot_read_body)
handle_callback s undecodable = (s, error_reply 400 invalid_json)
handle_callback s (decoded cb) =
    if cb.id == no_id then (s, error_reply 400 missing_id) else (apply_callback s cb, no_content)

-- The loop over the running tunnels when the server is told to end.
unfoldable pub mark_all : Server → List (ℕ × ℕ) → Server
mark_all s [] = s
mark_all s ((id, p) ∷ rest) = mark_all (mark_stopped s p) rest

pub data Event : Type 0 where
  start_checked : Body QuickTunnelRequest → Event
  start_registered : (id p : ℕ) → QuickTunnelRequest → (now : ℕ) → Event
  start_without_executable : Event
  start_failing : (id : ℕ) → Event
  worker_started : (p pid : ℕ) → Event
  worker_exited : (p : ℕ) → (error : Bool) → Event
  start_ready start_exited start_timed_out : (id p : ℕ) → Event
  stop_marked : (p : ℕ) → Event
  stop_finished : (id : ℕ) → Handle → Event
  called_back : Body Callback → Event
  shut_down : Event

abbrev pub when : Bool → Server → Option Server
when true s = some s
when false s = none

-- One more handler is past the test, if at most `most` are there.
abbrev pub admit : ℕ → Server → Option Response → Option Server
admit most s (some refusal) = some s
admit most s none = when (ltb s.admitted most) (record s { admitted = s.admitted + 1 })

abbrev pub is_none {ℓ} : {A : Type ℓ} → Option A → Bool
is_none none = true
is_none (some a) = false

-- The steps of a start handler need that it is there: its channel is in the hub.
abbrev pub waiting : Server → ℕ → Bool
waiting s id = not (is_none (lookup id s.hub))

abbrev pub can_register : Server → ℕ → ℕ → Bool
can_register s id p =
    leb 1 s.admitted
    && is_none (lookup id s.running)
    && is_none (lookup id s.hub)
    && is_none (lookup p s.heap)

abbrev pub ready : Server → ℕ → ℕ → Option (Option Text) → Option Server
ready s id p (some (some url)) = some (ready_start s id p url).0
ready s id p _ = none

-- `none` where the event cannot happen; which pointer belongs to which id is left open. `most` bounds
-- the start handlers between the test of the limit and the addition of their tunnel. Ids are random
-- and pointers new, so both are fresh.
unfoldable pub step : ℕ → Server → Event → Option Server
step most s (start_checked body) = admit most s (check_start s body)
step most s (start_registered id p r now) = when (can_register s id p) (register_start s id p r now)
step most s start_without_executable = when (leb 1 s.admitted) (refuse_without_executable s).0
step most s (start_failing id) = when (waiting s id) (fail_start s id).0
step most s (worker_started p pid) = some (run_worker s p pid)
step most s (worker_exited p error) = some (worker_exits s p error)
step most s (start_ready id p) = ready s id p (lookup id s.hub)
step most s (start_exited id p) =
    when (waiting s id && not (is_none (exited_start s id p).1)) (exited_start s id p).0
step most s (start_timed_out id p) = when (waiting s id) (timeout_start s id p).0
step most s (stop_marked p) = some (mark_stopped s p)
step most s (stop_finished id snap) = some (finish_stop s id snap).0
step most s (called_back body) = some (handle_callback s body).0
step most s shut_down = some (mark_all s s.running)

unfoldable pub run : ℕ → Server → List Event → Option Server
run most s [] = some s
run most s (e ∷ rest) = elim (step most s e) [ none ↦ none | some t ↦ run most t rest ]
