-- ===== src/Trie/Nodes.antt =====
-- `AddNodes` and `AddOrphanNodes` (src/ethereum/trie/node_set.go). The node set is passed along: a
-- call returns it as it then is, also beside an error.
pub mod Added
pub mod Orphans
use mathlib.Core.List.{foldl}
use zk_pig.Base.{
  ℕ, Option, none, some, Slice, List, [], ◌∷◌, ◌++◌, Bytes, Outcome, ok, err, panic, wrap, ◌>>=◌,
}
use zk_pig.Geth.Types.{Hash}
use zk_pig.Trie.Interface.{TrieLib, Report, node, leaf}

module _ (T : TrieLib) where
  abbrev pub Update : Type 0
  Update = T.NodeSet × Outcome (Unit {0})

  -- The reporter of `AddNodes`.
  pub report : T.NodeSet → Report → T.NodeSet
  report set (node hash key blob) = T.add_node set key (T.new_node hash blob)
  report set (leaf parent blob) = T.add_leaf set parent blob

  -- What the set is after a key, from the reports and the end of its verification.
  after_key : T.NodeSet → List Report × Outcome (Unit {0}) → Update
  unfolding report
  after_key set (reports, ok _) = (foldl report set reports, ok tt)
  after_key set (reports, err e) =
      (foldl report set reports, err (wrap "failed to add proof for key" e))
  after_key set (reports, panic) = (foldl report set reports, panic)

  -- The loop goes on after a key that was added, and returns at the first error.
  pub proceed : Update → (T.NodeSet → Update) → Update
  proceed (set, ok _) rest = rest set
  proceed (set, err e) rest = (set, err e)
  proceed (set, panic) rest = (set, panic)

  unfoldable pub add_nodes : T.NodeSet → Hash → T.ProofDb → List Bytes → Update
  unfolding after_key proceed
  add_nodes set root proof_db [] = (set, ok tt)
  add_nodes set root proof_db (key ∷ keys) =
      proceed (after_key set (T.verify_with_reporting root key proof_db))
        (λ set'. add_nodes set' root proof_db keys)

  -- An orphan is added under the path of the last node and a suffix, unless a node is there.
  pub add_short_node : Bytes → T.NodeSet → Bytes × T.Node → T.NodeSet
  add_short_node prefix set (sub_key, orphan) =
      let full_path = prefix ++ sub_key in
      elim (T.nodes set full_path) [ none ↦ T.add_node set full_path orphan | some n ↦ set ]

  pub add_short_nodes : T.NodeSet → Bytes → Option (List (Bytes × T.Node)) → T.NodeSet
  unfolding add_short_node
  add_short_nodes set prefix none = set
  add_short_nodes set prefix (some short_nodes) = foldl (add_short_node prefix) set short_nodes

  -- A key that has a value in the post-state was not deleted.
  after_last_node : T.NodeSet → Outcome (Slice ℕ × Bytes × T.LastNode) → Update
  unfolding add_short_nodes
  after_last_node set (ok (some v, prefix, last)) = (set, ok tt)
  after_last_node set (ok (none, prefix, last)) =
      (add_short_nodes set prefix (T.reduce_short_node last), ok tt)
  after_last_node set (err e) = (set, err (wrap "invalid post-state proofs" e))
  after_last_node set panic = (set, panic)

  unfoldable pub add_orphan_nodes : T.NodeSet → Hash → T.ProofDb → List Bytes → Update
  unfolding after_last_node proceed
  add_orphan_nodes set post_root proof_db [] = (set, ok tt)
  add_orphan_nodes set post_root proof_db (key ∷ keys) =
      proceed (after_last_node set (T.verify_with_last_node post_root key proof_db))
        (λ set'. add_orphan_nodes set' post_root proof_db keys)
