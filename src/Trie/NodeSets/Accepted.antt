-- ===== src/Trie/NodeSets/Accepted.antt =====
-- When `NodeSetFromStateProofs` (src/ethereum/trie/node_set.go) returns a node set, in terms of the
-- databases and keys that it made of the proofs.
use zk_pig.Base.{
  List, [], ◌∷◌, Outcome, ok, err, panic, false, Bool-cases, inl, inr, ◌≡◌, ◌↔◌, refl,
}
use zk_pig.Geth.Types.{Hash}
use zk_pig.Trie.Interface.{TrieLib}
use zk_pig.Trie.Nodes.{add_nodes}
use zk_pig.Trie.Nodes.Added.{add_nodes-ok_iff}
use zk_pig.Trie.Proofs.{
  AccountProof, DbAndKeys, new_account_node_set, new_storage_node_set, accounts_proof_db_and_keys,
  storage_proof_db_and_keys, add_account_nodes, add_storage_nodes, or_error, or_nothing,
}
use zk_pig.Trie.NodeSets.{no_storage, add_account_storage, add_storages, node_set_from_state_proofs}
use zk_pig.Trie.NodeSets.Valid.{
  Valid, ValidOrUnread, AllStorageValid, node_set_from_state_proofs_valid,
}

-- Two node sets of different tries, or of the same, can be merged.
abbrev pub Merges : (T : TrieLib) → Type 0
Merges T = (m : T.MergedNodeSet) (s : T.NodeSet) → (r : T.MergedNodeSet) × (T.merge m s ≡ ok r)

module _ (T : TrieLib) where
  pub or_error-Valid :
      (set : T.NodeSet) (root : Hash) (d : Outcome (DbAndKeys T))
      → Valid T root d
      → (or_error T set d (λ d. add_nodes T set root d.0 d.1)).1 ≡ ok tt
  unfolding add_storage_nodes
  or_error-Valid set root (ok (db, keys)) h = (add_nodes-ok_iff T set root db keys).1 h
  or_error-Valid set root (err e) h = absurd h
  or_error-Valid set root panic h = absurd h

  pub or_nothing-ValidOrUnread :
      (set : T.NodeSet) (root : Hash) (d : Outcome (DbAndKeys T))
      → ValidOrUnread T root d
      → (or_nothing T set d (λ d. add_nodes T set root d.0 d.1)).1 ≡ ok tt
  unfolding add_account_nodes
  or_nothing-ValidOrUnread set root (ok (db, keys)) h = (add_nodes-ok_iff T set root db keys).1 h
  or_nothing-ValidOrUnread set root (err e) h = refl
  or_nothing-ValidOrUnread set root panic h = absurd h

  add_account_storage-Valid :
      Merges T
      → (merged : T.MergedNodeSet) (p : AccountProof)
      → (no_storage p ≡ false → Valid T p.storage_hash (storage_proof_db_and_keys T p.storage))
      → (m : T.MergedNodeSet) × (add_account_storage T merged p ≡ ok m)
  unfolding add_account_storage add_storage_nodes
  add_account_storage-Valid M merged p h = elim (Bool-cases (no_storage p)) [
    | inl none_here ↦ rw none_here (merged, refl)
    | inr some_here ↦
        let set = new_storage_node_set T p.address in
        let d = storage_proof_db_and_keys T p.storage in
        let (m, e) = M merged (add_storage_nodes T set p.storage_hash p.storage).0 in
        rw (some_here, or_error-Valid set p.storage_hash d (h some_here), e) (m, refl)
  ]

  add_storages-AllStorageValid :
      Merges T
      → (merged : T.MergedNodeSet) (ps : List AccountProof) → AllStorageValid T ps
      → (m : T.MergedNodeSet) × (add_storages T merged ps ≡ ok m)
  unfolding add_storages
  add_storages-AllStorageValid M merged [] h = (merged, refl)
  add_storages-AllStorageValid M merged (p ∷ ps) (h, hs) =
      let (merged', first) = add_account_storage-Valid M merged p h in
      rw first (add_storages-AllStorageValid M merged' ps hs)

  -- If node sets can be merged, then a node set is returned exactly if the storage proofs of every
  -- account whose storage hash is not zero could be read and are valid against that hash, and the
  -- account proofs are valid against the state root or could not be read.
  pub node_set_from_state_proofs_made :
      Merges T
      → (root : Hash) (ps : List AccountProof)
      → ((m : T.MergedNodeSet) × (node_set_from_state_proofs T root ps ≡ ok m))
        ↔ (ValidOrUnread T root (accounts_proof_db_and_keys T ps) × AllStorageValid T ps)
  unfolding node_set_from_state_proofs add_account_nodes
  node_set_from_state_proofs_made M root ps =
      (λ r. node_set_from_state_proofs_valid T root ps r.1, made)
    where
      made :
          ValidOrUnread T root (accounts_proof_db_and_keys T ps) × AllStorageValid T ps
          → (m : T.MergedNodeSet) × (node_set_from_state_proofs T root ps ≡ ok m)
      made (accounts, storages) =
          let set = new_account_node_set T in
          rw (or_nothing-ValidOrUnread set root (accounts_proof_db_and_keys T ps) accounts)
            (add_storages-AllStorageValid M _ ps storages)
