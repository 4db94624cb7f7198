-- ===== src/Node.antt =====
-- src/lib/node, and the block ranges of src/lib/net/peer.ts.
pub mod PeerPool
pub mod Rounds
pub mod Ranges
pub mod Synchronizer
pub mod Linked
pub mod Synced
pub mod Rewound
pub mod Listeners
pub mod Connected
pub mod Server
pub mod Running
pub mod Started
