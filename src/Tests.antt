-- ===== src/Tests.antt =====
-- Examples: a node to run on, and what is proved, at that node.
pub mod Samples
pub mod Supervision
pub mod Cluster
pub mod Delivery
pub mod Dispatching
pub mod Calls
pub mod Peers
pub mod Payloads
pub mod Pools
pub mod Nesting
pub mod Reaching
pub mod Driving
pub mod Setting
pub mod Crossing
