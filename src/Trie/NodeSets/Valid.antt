-- ===== src/Trie/NodeSets/Valid.antt =====
-- What the success of `NodeSetFromStateProofs` (src/ethereum/trie/node_set.go) says of the proofs.
use zk_pig.Base.{List, [], ◌∷◌, Outcome, ok, err, panic, >>=-eq-ok, context-eq-ok, false, ◌≡◌}
use zk_pig.Geth.Types.{Hash}
use zk_pig.Trie.Interface.{TrieLib}
use zk_pig.Trie.Nodes.{add_nodes}
use zk_pig.Trie.Nodes.Added.{AllVerified, add_nodes-ok_iff}
use zk_pig.Trie.Proofs.{
  AccountProof, DbAndKeys, new_account_node_set, new_storage_node_set, accounts_proof_db_and_keys,
  storage_proof_db_and_keys, add_account_nodes, add_storage_nodes, or_error, or_nothing,
}
use zk_pig.Trie.Proofs.Checked.{IfRead, IfNotRefused}
use zk_pig.Trie.NodeSets.{no_storage, add_account_storage, add_storages, node_set_from_state_proofs}

module _ (T : TrieLib) where
  -- The proofs could be read, and the proof of every key is valid against the root.
  abbrev pub Valid : Hash → Outcome (DbAndKeys T) → Type 0
  Valid root = IfRead T (AllVerified T root)

  -- The account proofs could not be read, or the proof of every account is valid.
  abbrev pub ValidOrUnread : Hash → Outcome (DbAndKeys T) → Type 0
  ValidOrUnread root = IfNotRefused T (AllVerified T root)

  -- The storage proofs of every account that has storage are valid.
  abbrev pub AllStorageValid : List AccountProof → Type 0
  AllStorageValid [] = Unit
  AllStorageValid (p ∷ ps) =
      (no_storage p ≡ false → Valid p.storage_hash (storage_proof_db_and_keys T p.storage))
      × AllStorageValid ps

  pub add_storage_nodes-ok :
      (set : T.NodeSet) (root : Hash) (d : Outcome (DbAndKeys T))
      → (or_error T set d (λ d. add_nodes T set root d.0 d.1)).1 ≡ ok tt
      → Valid root d
  unfolding add_storage_nodes
  add_storage_nodes-ok set root (ok (db, keys)) h = (add_nodes-ok_iff T set root db keys).0 h
  add_storage_nodes-ok set root (err e) h = cc
  add_storage_nodes-ok set root panic h = cc

  pub add_account_nodes-ok :
      (set : T.NodeSet) (root : Hash) (d : Outcome (DbAndKeys T))
      → (or_nothing T set d (λ d. add_nodes T set root d.0 d.1)).1 ≡ ok tt
      → ValidOrUnread root d
  unfolding add_account_nodes
  add_account_nodes-ok set root (ok (db, keys)) h = (add_nodes-ok_iff T set root db keys).0 h
  add_account_nodes-ok set root (err e) h = tt
  add_account_nodes-ok set root panic h = cc

  add_account_storage-ok :
      (merged : T.MergedNodeSet) (p : AccountProof) {m : T.MergedNodeSet}
      → add_account_storage T merged p ≡ ok m
      → no_storage p ≡ false
      → Valid p.storage_hash (storage_proof_db_and_keys T p.storage)
  unfolding add_account_storage add_storage_nodes
  add_account_storage-ok merged p h some_storage =
      let set = new_storage_node_set T p.address in
      let (u, done, _) = >>=-eq-ok _ _ (rw some_storage at h) in
      add_storage_nodes-ok set p.storage_hash (storage_proof_db_and_keys T p.storage)
        (context-eq-ok _ _ done)

  add_storages-ok :
      (merged : T.MergedNodeSet) (ps : List AccountProof) {m : T.MergedNodeSet}
      → add_storages T merged ps ≡ ok m
      → AllStorageValid ps
  unfolding add_storages
  add_storages-ok merged [] h = tt
  add_storages-ok merged (p ∷ ps) h =
      let (merged', first, rest) = >>=-eq-ok _ _ h in
      (add_account_storage-ok merged p first, add_storages-ok merged' ps rest)

  -- If a node set is returned, then the storage proofs of every account whose storage hash is not
  -- zero could be read and are valid against that hash, and the account proofs are valid against the
  -- state root, unless they could not be read.
  pub node_set_from_state_proofs_valid :
      (root : Hash) (ps : List AccountProof) {m : T.MergedNodeSet}
      → node_set_from_state_proofs T root ps ≡ ok m
      → ValidOrUnread root (accounts_proof_db_and_keys T ps) × AllStorageValid ps
  unfolding node_set_from_state_proofs add_account_nodes
  node_set_from_state_proofs_valid root ps h =
      let (u, done, rest) = >>=-eq-ok _ _ h in
      (
        add_account_nodes-ok (new_account_node_set T) root (accounts_proof_db_and_keys T ps)
            (context-eq-ok _ _ done),
        add_storages-ok _ ps rest,
      )
