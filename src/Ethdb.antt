-- ===== src/Ethdb.antt =====
-- src/ethereum/ethdb/rpcdb: the key-value database that takes headers from a remote node.
pub mod Keys
pub mod Rpcdb
pub mod Tests
