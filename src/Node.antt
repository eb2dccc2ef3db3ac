-- ===== src/Node.antt =====
-- lapinbeam/node.py
pub mod State
pub mod Refs
pub mod Events
pub mod Mailboxes
pub mod Signals
pub mod Tasks
pub mod Peers
pub mod Running
pub mod Initial
