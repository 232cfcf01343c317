-- ===== src/Ingress.antt =====
-- ingress: which origin a request goes to, and how cloudflared talks to it.
pub mod Origin
pub mod HostPort
pub mod Rules
pub mod Validate
