-- ===== src/Evm.antt =====
-- src/ethereum/evm: the execution of a block.
pub mod Interface
pub mod Executor
pub mod LoggerTracer
pub mod Decorators
pub mod Tags
pub mod Tests
