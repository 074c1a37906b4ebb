-- ===== src/Peer.antt =====
-- The peer client, peer/: the fragmentation of frames into packets, the proxy connection to the
-- DLL, the signalling messages, what the client does with them, and the lock with priorities.
pub mod Packet
pub mod Proxy
pub mod Tracks
pub mod EndToEnd
pub mod Start
pub mod Setup
pub mod Log
pub mod Signaling
pub mod Client
pub mod Transcoder
pub mod Media
pub mod Receiver
pub mod Connected
pub mod PriorityLock
