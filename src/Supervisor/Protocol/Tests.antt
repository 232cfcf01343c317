-- ===== src/Supervisor/Protocol/Tests.antt =====
-- A run of the theorem on the fallback of the protocol.
use shitflared.Prelude.{◌≡◌, refl, true, false, some, none}
use shitflared.Supervisor.Protocol.{http2, quic, Selector, fallback_of, ProtocolFallback}

abbrev quic_first : Selector
quic_first = record { current = quic; fallback = some http2 }

abbrev on_quic : ProtocolFallback
on_quic = record {
  backoff = record {
    max_retries = 5;
    retry_forever = true;
    base_time = 0;
    retries = 5;
    reset_deadline = none;
  };
  protocol = quic;
  in_fallback = false;
}

quic_falls_back : fallback_of quic ≡ some http2
unfolding fallback_of
quic_falls_back = refl
