-- ===== src/Trie/Interface.antt =====
-- What the repository calls of its fork of go-ethereum (`trie`, `trienode`, `memorydb`, `crypto`,
-- `hexutil`), and what the documentation says of node sets.
use zk_pig.Base.{
  ℕ, Option, none, some, Slice, List, String, Bytes, bytes_eq, Outcome, ◌≡◌, if◌then◌else◌,
}
use zk_pig.Geth.Types.{Hash}

-- A call of the reporter: `ReportNode(hash, key, node)` or `ReportLeaf(parent, blob)`.
pub data Report : Type 0 where
  node : Hash → Bytes → Bytes → Report
  leaf : Hash → Bytes → Report

pub record TrieLib : Type 1 where
  -- `crypto`
  pub keccak256 : Bytes → Bytes
  pub keccak256_hash : Bytes → Hash
  -- `hexutil.Decode`
  pub hex_decode : String → Outcome Bytes
  -- `memorydb.Database` as the database of a proof, and `trie.StoreHexProofs`
  pub ProofDb : Type 0
  pub new_proof_db : ProofDb
  pub store_hex_proofs : List String → ProofDb → Outcome ProofDb
  -- `trienode.Node`, `trienode.NodeSet` and its field `Nodes`
  pub Node : Type 0
  pub new_node : Hash → Bytes → Node
  pub NodeSet : Type 0
  pub new_node_set : Hash → NodeSet
  pub add_node : NodeSet → Bytes → Node → NodeSet
  pub add_leaf : NodeSet → Hash → Bytes → NodeSet
  pub nodes : NodeSet → Bytes → Option Node
  -- `trienode.MergedNodeSet`
  pub MergedNodeSet : Type 0
  pub new_with_node_set : NodeSet → MergedNodeSet
  pub merge : MergedNodeSet → NodeSet → Outcome MergedNodeSet
  -- `trie.VerifyProofWithReporting`: the reports that it makes, in order, and how it ends
  pub verify_with_reporting : Hash → Bytes → ProofDb → List Report × Outcome (Unit {0})
  -- `trie.VerifyProofWithLastNode`: the value or nil, the path of the last node, and that node
  pub LastNode : Type 0
  pub verify_with_last_node : Hash → Bytes → ProofDb → Outcome (Slice ℕ × Bytes × LastNode)
  -- `trie.ReduceShortNode`: not a short node, or a map from key suffixes to nodes, in the order in
  -- which a loop over it happens to visit its entries
  pub reduce_short_node : LastNode → Option (List (Bytes × Node))

-- A node set maps paths to nodes; leaves are kept apart.
pub record IsLawful (T : TrieLib) : Type 0 where
  pub nodes-new_node_set : (owner : Hash) (p : Bytes) → T.nodes (T.new_node_set owner) p ≡ none
  pub nodes-add_node :
      (s : T.NodeSet) (p : Bytes) (n : T.Node) (q : Bytes)
      → T.nodes (T.add_node s p n) q ≡ (if bytes_eq p q then some n else T.nodes s q)
  pub nodes-add_leaf :
      (s : T.NodeSet) (h : Hash) (b q : Bytes) → T.nodes (T.add_leaf s h b) q ≡ T.nodes s q
