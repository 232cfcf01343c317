-- ===== src/Supervisor/Fallback/Tests.antt =====
-- A run of the theorem on address changes.
use shitflared.Prelude.{◌≡◌, refl}
use shitflared.Prelude.{lookup}
use shitflared.Supervisor.Fallback.{new_ip_addr_fallback, retries_of}

no_retries : retries_of (new_ip_addr_fallback 3) 0 ≡ 0
unfolding retries_of new_ip_addr_fallback lookup
no_retries = refl
