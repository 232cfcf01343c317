-- ===== src/Supervisor/Loop.antt =====
-- supervisor/supervisor.go: the loop of `Run` after `initialize`, over the backoff of
-- retry/backoffhandler.go. A case of the `select` is one event; logs are left out.
pub mod Accounts
pub mod Invariant
pub mod Wait
pub mod Progress
pub mod Liveness
pub mod Runs
use shitflared.Prelude.{
  nat_eq, ℕ, zero, suc, ◌+◌, ◌-◌, Bool, true, false, not, ◌&&◌, List, [], ◌∷◌, ◌++◌, Option, none,
  some, ◌==◌, length, insert, remove, if◌then◌else◌,
}
use shitflared.Retry.{
  Backoff, Timer, no_timer, panics, fires_within, new_backoff, backoff_timer, set_grace_period,
  get_max_backoff_duration,
}

abbrev pub tunnel_retry_duration : ℕ
tunnel_retry_duration = 10000000000

-- The local variables of `Run` with the fields that it uses. A signal is a number, those below `fresh`
-- were made; `connecting` has them by the index of the tunnel; `armed` is whether the backoff timer is
-- set. `running` has the goroutines of `startTunnel` whose error was not received yet, by their index.
pub record Loop : Type 0 where
  pub active : ℕ
  pub waiting : List ℕ
  pub backoff : Backoff
  pub armed : Bool
  pub shutting_down : Bool
  pub connecting : List (ℕ × ℕ)
  pub next_index : ℕ
  pub next_signal : Option ℕ
  pub fresh : ℕ
  pub running : List ℕ

-- `crashed` is a panic, `blocked` a receive that nothing is sent to.
pub data Status : Type 0 where
  going returned crashed blocked : Status

-- How `Serve` ended: without an error, with a `ReconnectSignal`, or with another error.
pub data Ending : Type 0 where
  ends_well reconnects fails : Ending

-- `go s.startTunnel(ctx, index, s.newConnectedTunnelSignal(index))`.
unfoldable pub start_tunnel : ℕ → Loop → Loop
start_tunnel index l = record l {
  connecting = insert index l.fresh l.connecting;
  next_index = index;
  next_signal = some l.fresh;
  fresh = suc l.fresh;
  running = index ∷ l.running;
}

unfoldable pub start_all : List ℕ → Loop → Loop
start_all [] l = l
start_all (index ∷ rest) l = start_all rest (start_tunnel index l)

-- The first entry that the iteration over a map gives, which Go does not determine.
unfoldable pub pick {ℓ} : {A : Type ℓ} → ℕ → List A → Option A
pick choice [] = none
pick zero (x ∷ xs) = some x
pick (suc choice) (x ∷ []) = some x
pick (suc choice) (x ∷ y ∷ xs) = pick choice (y ∷ xs)

abbrev pub next_tunnel : Option (ℕ × ℕ) → Loop → Loop × Bool
next_tunnel none l = (record l { next_signal = none }, false)
next_tunnel (some (index, signal)) l =
    (record l { next_index = index; next_signal = some signal }, true)

unfoldable pub wait_for_next_tunnel : ℕ → (choice : ℕ) → Loop → Loop × Bool
wait_for_next_tunnel index choice l =
    next_tunnel (pick choice (remove index l.connecting))
      (record l { connecting = remove index l.connecting })

abbrev pub armed_by : Loop → Backoff × Timer → Loop × Status
armed_by l (b, no_timer) = (record l { backoff = b }, going)
armed_by l (b, panics) = (record l { backoff = b }, crashed)
armed_by l (b, fires_within d) = (record l { backoff = b; armed = true }, going)

unfoldable pub arm : (now : ℕ) → Loop → Loop × Status
arm now l = if l.armed then (l, going) else armed_by l (backoff_timer l.backoff now)

-- The branch of an error, which has one more wait if `wait` is not `none`.
abbrev pub retry_later : (wait : Option ℕ) → (index choice now : ℕ) → Loop → Loop × Status
retry_later none index choice now l = (l, going)
retry_later (some d) index choice now l =
    arm now (wait_for_next_tunnel index choice (record l { waiting = l.waiting ++ (index ∷ []) })).0

unfoldable pub restart : ℕ → Loop → Loop
restart index l =
    let started = start_tunnel index l in record started { active = started.active + 1 }

abbrev pub end_if_none : Loop → Loop × Status
end_if_none l = (l, if l.active == 0 then returned else going)

abbrev pub after_ending : Ending → (wait : Option ℕ) → (index choice now : ℕ) → Loop → Loop × Status
after_ending ends_well wait index choice now l = end_if_none l
after_ending reconnects wait index choice now l =
    if l.shutting_down then end_if_none l else (restart index l, going)
after_ending fails wait index choice now l =
    if l.shutting_down then end_if_none l else retry_later wait index choice now l

-- One goroutine of the index is done.
unfoldable pub take_out : ℕ → List ℕ → List ℕ
take_out i [] = []
take_out i (j ∷ rest) = let later = take_out i rest in if i == j then rest else j ∷ later

unfoldable pub terminated : ℕ → Loop → Loop
terminated index l = record l { active = l.active - 1; running = take_out index l.running }

-- `fallback` is the backoff of the tunnel's protocol fallback.
unfoldable pub on_tunnel_error :
    ℕ → Ending → (fallback : Backoff) → (cancelled : Bool) → (choice now : ℕ) → Loop → Loop × Status
on_tunnel_error index ending fallback cancelled choice now l =
    after_ending ending (get_max_backoff_duration fallback cancelled now) index choice now
      (terminated index l)

unfoldable pub on_timer : Loop → Loop
on_timer l =
    let started = start_all l.waiting l in
    record started { armed = false; active = l.active + length l.waiting; waiting = [] }

abbrev pub graced : Loop → Option Backoff → Loop × Status
graced l none = (l, crashed)
graced l (some b) = (record l { backoff = b }, going)

abbrev pub grace_if_idle : (now wait : ℕ) → Loop × Bool → Loop × Status
grace_if_idle now wait (l, more) =
    if not more && (length l.waiting == 0)
    then graced l (set_grace_period l.backoff now wait)
    else (l, going)

unfoldable pub on_connected : (choice now wait : ℕ) → Loop → Loop × Status
on_connected choice now wait l = grace_if_idle now wait (wait_for_next_tunnel l.next_index choice l)

-- `n` errors are received, from goroutines that run.
unfoldable pub drain : (n : ℕ) → List ℕ → Option (List ℕ)
drain zero running = some running
drain (suc n) [] = none
drain (suc n) (i ∷ running) = drain n running

abbrev pub drained : Loop → Option (List ℕ) → Loop × Status
drained l none = (l, blocked)
drained l (some left) = (record l { active = 0; running = left }, returned)

unfoldable pub on_cancelled : Loop → Loop × Status
on_cancelled l = drained l (drain l.active l.running)

pub data Event : Type 0 where
  is_cancelled : Event
  tunnel_ended :
      (index : ℕ) → Ending → (fallback : Backoff) → (cancelled : Bool) → (choice now : ℕ) → Event
  timer_fired : Event
  connected : (choice now wait : ℕ) → Event
  shuts_down : Event

unfoldable pub step : Event → Loop → Loop × Status
step is_cancelled l = on_cancelled l
step (tunnel_ended index ending fallback cancelled choice now) l =
    on_tunnel_error index ending fallback cancelled choice now l
step timer_fired l = (on_timer l, going)
step (connected choice now wait) l = on_connected choice now wait l
step shuts_down l = (record l { shutting_down = true }, going)

-- `from`, `from + 1` and so on, `n` of them.
abbrev pub indices : (from n : ℕ) → List ℕ
indices from zero = []
indices from (suc n) = from ∷ indices (suc from) n

-- The first tunnel is connected, for `others + 1` connections.
abbrev pub first_tunnel : (others retries : ℕ) → Loop
first_tunnel others retries = record {
  active = others + 1;
  waiting = [];
  backoff = new_backoff retries tunnel_retry_duration true;
  armed = false;
  shutting_down = false;
  connecting = [];
  next_index = 0;
  next_signal = none;
  fresh = 0;
  running = 0 ∷ [];
}

-- What `initialize` leaves.
unfoldable pub initialized : (others retries : ℕ) → Loop
initialized others retries = start_all (indices 1 others) (first_tunnel others retries)
