-- ===== src/P2p.antt =====
-- src/p2p.rs: the Bitcoin wire protocol, a module for each part of the file.
pub mod Wire
pub mod Frame
pub mod Headers
pub mod Peer
pub mod Addr
pub mod Version
pub mod Socks
pub mod Session
