-- ===== src/Sfu.antt =====
-- The forwarding unit, sfu/: the tracks that the clients publish, what each peer is sent, and the
-- renegotiation that keeps the two in step.
pub mod Types
pub mod Tracks
pub mod Signal
pub mod Socket
pub mod OnTrack
pub mod System
pub mod Setup
pub mod Log
pub mod Protocol
pub mod Interceptor
mod Fake
