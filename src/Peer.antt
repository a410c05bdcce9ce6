-- ===== src/Peer.antt =====
-- agenttorrent/peer.py: the peer process, as requester and as worker.
pub mod Delegate
pub mod Worker
pub mod Control
pub mod Settings
pub mod Serve
pub mod Samples
pub mod Deal
pub mod Node
pub mod Threads
pub mod Lifecycle
