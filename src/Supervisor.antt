-- ===== src/Supervisor.antt =====
-- supervisor/fuse.go, the loop of supervisor/supervisor.go and the fallbacks of supervisor/tunnel.go.
-- Each method under a mutex is one step.
pub mod Fuse
pub mod Fallback
pub mod Protocol
pub mod Loop
pub mod Serve
