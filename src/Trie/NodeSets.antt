-- ===== src/Trie/NodeSets.antt =====
-- `NodeSetFromStateProofs` and `NodeSetFromStateTransitionProofs` (src/ethereum/trie/node_set.go).
pub mod Valid
pub mod Compared
pub mod Accepted
pub mod Transitions
pub mod Proven
use mathlib.Core.List.{foldl}
use zk_pig.Base.{
  ℕ, Option, none, some, List, [], ◌∷◌, Outcome, ok, err, panic, ◌>>=◌, ◌>>◌, context, zeros,
  array_eq, Bool, if◌then◌else◌,
}
use zk_pig.Geth.Types.{Hash, Address}
use zk_pig.Trie.Interface.{TrieLib}
use zk_pig.Trie.Proofs.{
  AccountProof, new_account_node_set, new_storage_node_set, add_account_nodes,
  add_account_orphan_nodes, add_storage_nodes, add_storage_orphan_nodes,
}

-- `accountProof.StorageHash == (gethcommon.Hash{})`
abbrev pub no_storage : AccountProof → Bool
no_storage p = array_eq p.storage_hash (zeros 32)

-- A map from addresses: a later proof replaces an earlier one of the same address.
pub put_proof : (Address → Option AccountProof) → AccountProof → Address → Option AccountProof
put_proof m p addr = if array_eq p.address addr then some p else m addr

unfoldable pub post_proofs_by_address : List AccountProof → Address → Option AccountProof
unfolding put_proof
post_proofs_by_address = foldl put_proof (λ addr. none)

module _ (T : TrieLib) where
  pub add_account_storage : T.MergedNodeSet → AccountProof → Outcome T.MergedNodeSet
  add_account_storage merged p = if no_storage p then ok merged else do
    let (set, done) =
        add_storage_nodes T (new_storage_node_set T p.address) p.storage_hash p.storage
    context "failed to create node set from storage proofs for account" done
    context "failed to merge storage node set for account" (T.merge merged set)

  pub add_storages : T.MergedNodeSet → List AccountProof → Outcome T.MergedNodeSet
  unfolding add_account_storage
  add_storages merged [] = ok merged
  add_storages merged (p ∷ ps) = do merged' ← add_account_storage merged p; add_storages merged' ps

  unfoldable pub node_set_from_state_proofs : Hash → List AccountProof → Outcome T.MergedNodeSet
  unfolding add_storages
  node_set_from_state_proofs state_root account_proofs = do
    let (set, done) = add_account_nodes T (new_account_node_set T) state_root account_proofs
    context "failed to create node set from account state proofs for state root" done
    add_storages (T.new_with_node_set set) account_proofs

  -- The orphan nodes of the account in the post-state, if it has a proof there.
  pub add_post_orphans : T.NodeSet → Option AccountProof → T.NodeSet × Outcome (Unit {0})
  add_post_orphans set none = (set, ok tt)
  add_post_orphans set (some post) = add_storage_orphan_nodes T set post.storage_hash post.storage

  pub add_transition_storage :
      (Address → Option AccountProof) → T.MergedNodeSet → AccountProof → Outcome T.MergedNodeSet
  unfolding add_post_orphans
  add_transition_storage by_address merged p = if no_storage p then ok merged else do
    let (set, done) =
        add_storage_nodes T (new_storage_node_set T p.address) p.storage_hash p.storage
    context "failed to add storage nodes for account" done
    let (set', orphans_done) = add_post_orphans set (by_address p.address)
    context "failed to add storage orphan nodes for account" orphans_done
    context "failed to merge storage node set for account" (T.merge merged set')

  pub add_transition_storages :
      (Address → Option AccountProof)
      → T.MergedNodeSet
      → List AccountProof
      → Outcome T.MergedNodeSet
  unfolding add_transition_storage
  add_transition_storages by_address merged [] = ok merged
  add_transition_storages by_address merged (p ∷ ps) = do
    merged' ← add_transition_storage by_address merged p
    add_transition_storages by_address merged' ps

  unfoldable pub node_set_from_state_transition_proofs :
      Hash → Hash → List AccountProof → List AccountProof → Outcome T.MergedNodeSet
  unfolding add_transition_storages
  node_set_from_state_transition_proofs pre_root post_root pre_proofs post_proofs = do
    let (set, done) = add_account_nodes T (new_account_node_set T) pre_root pre_proofs
    context "failed to add account nodes for pre-state root" done
    let (set', orphans_done) = add_account_orphan_nodes T set post_root post_proofs
    context "failed to add account orphan nodes for post-state root" orphans_done
    add_transition_storages (post_proofs_by_address post_proofs) (T.new_with_node_set set')
        pre_proofs
