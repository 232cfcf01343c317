-- ===== src/V3.antt =====
-- quic/v3: the datagram protocol between the edge and cloudflared, version 3.
pub mod RequestId
pub mod Wire
pub mod Registration
pub mod Payload
pub mod Response
pub mod Manager
pub mod Muxer
