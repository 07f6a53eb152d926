-- ===== src/Generator.antt =====
-- src/generator: the three steps that make a prover input, and check it.
pub mod Interface
pub mod Chains
pub mod Run
pub mod Preflight
pub mod Prepare
pub mod Execute
pub mod Executed
pub mod Sample
pub mod Tests
