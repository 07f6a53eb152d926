-- ===== src/Proto.antt =====
-- src/prover-input/proto: the conversion of prover inputs to protobuf messages and back.
pub mod Message
pub mod Helpers
pub mod Headers
pub mod AccessLists
pub mod Sidecars
pub mod Transactions
pub mod ChainConfigs
pub mod Inputs
pub mod Malformed
pub mod Tests
