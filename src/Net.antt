-- ===== src/Net.antt =====
-- src/lib/net: the calls between two nodes, or between a wallet and a node.
pub mod Payload
pub mod Calls
pub mod Peer
pub mod Messages
pub mod Steps
pub mod Kept
pub mod Answers
pub mod Closing
pub mod Abandoned
pub mod Exchange
pub mod Client
pub mod Socket
pub mod Codec
pub mod Decoding
pub mod Stream
pub mod Handshake
pub mod Verdict
pub mod Heard
pub mod Greeted
pub mod Holding
pub mod Exclusive
pub mod Unconnected
pub mod Portless
