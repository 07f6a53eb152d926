-- ===== src/State.antt =====
-- src/ethereum/state: the state database that records accesses, and the one that reads a remote node.
pub mod Interface
pub mod Tracker
pub mod Rpc
pub mod Tries
pub mod Tests
