-- ===== src/Retry/Tests.antt =====
-- Runs of the theorems on retries.
use shitflared.Prelude.{ℕ, ◌+◌, ◌≡◌, ◌↔◌, refl, arith, true, false, List, [], ◌∷◌, none}
use shitflared.Retry.{Backoff, no_timer, backoff_timer}
use shitflared.Retry.Bounds.{Call, backs_off, sets_grace, resets, retry_times, retries_end}

abbrev five_seconds : Backoff
five_seconds = record {
  max_retries = 3;
  retry_forever = true;
  base_time = 5000000000;
  retries = 1;
  reset_deadline = none;
}

abbrev used_up : Backoff
used_up = record five_seconds { retries = 3 }

abbrev ending : Backoff
ending = record five_seconds { retry_forever = false }

abbrev some_calls : List Call
some_calls =
    backs_off false 0 ∷ backs_off true 1 ∷ backs_off false 2 ∷ sets_grace 3 9 ∷ resets 4 ∷ []

abbrev two_times : List ℕ
two_times = 10 ∷ 20 ∷ []

retries_end_example :
    ((backoff_timer (retry_times 2 ending two_times) 30).1 ≡ no_timer)
    ↔ (ending.retries + 2 ≡ ending.max_retries)
retries_end_example = retries_end ending 2 two_times 30 refl refl (omega arith) (omega arith)
