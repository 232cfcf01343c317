-- ===== src/V3/Payload/Tests.antt =====
-- The payload and ICMP theorems at concrete datagrams.
use shitflared.V3.RequestId.{RequestId}

abbrev flow : RequestId
flow = record { hi = 3; lo = 4 }
