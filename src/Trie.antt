-- ===== src/Trie.antt =====
-- src/ethereum/trie: node sets of Merkle Patricia tries from account and storage proofs.
pub mod Interface
pub mod Nodes
pub mod Proofs
pub mod NodeSets
pub mod Sample
mod Tests
