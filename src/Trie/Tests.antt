-- ===== src/Trie/Tests.antt =====
-- The theorems on node sets at small sets and proofs.
use zk_pig.Base.{
  ℕ, pos, some, List, [], ◌∷◌, Bytes, ok, zeros, replicate, length-replicate, array_eq, ◌≡◌, ◌↔◌,
  refl,
}
use zk_pig.Trie.Nodes.{add_nodes, add_orphan_nodes}
use zk_pig.Trie.Nodes.Added.{last_noted, reports_of, nodes-add_nodes}
use zk_pig.Trie.Nodes.Orphans.{first_offered, offers_of, nodes-add_orphan_nodes}
use zk_pig.Trie.Proofs.{
  AccountProof, StorageProof, accounts_proof_db_and_keys, storage_proof_db_and_keys,
  new_account_node_set, new_storage_node_set, account_trie_key, storage_trie_key,
  storage_trie_owner, add_account_nodes, add_storage_nodes,
}
use zk_pig.Trie.NodeSets.{node_set_from_state_proofs, node_set_from_state_transition_proofs}
use zk_pig.Trie.Proofs.Checked.{AccountsProven}
use zk_pig.Trie.NodeSets.Proven.{
  Verified, AllSlotsProven, IsTransition, node_set_from_state_proofs-ok_iff,
  node_set_from_state_transition_proofs-ok_iff,
}
use zk_pig.Trie.NodeSets.Compared.{success, node_set_from_state_transition_proofs_without_post}
use zk_pig.Trie.Sample.{sample, sample-IsLawful, Entries, find_in, put_in, verify, read_proofs}

abbrev start : Entries
start = (zeros 32, (3 ∷ 1 ∷ [], (zeros 32, 5 ∷ [])) ∷ [])

abbrev keys : List Bytes
keys = (3 ∷ []) ∷ (4 ∷ []) ∷ []

nodes-add_nodes_example :
    find_in (add_nodes sample start (zeros 32) [] keys).0 (4 ∷ [])
    ≡ last_noted sample (4 ∷ []) (find_in start (4 ∷ [])) (reports_of sample (zeros 32) [] keys)
nodes-add_nodes_example = nodes-add_nodes sample sample-IsLawful start (zeros 32) [] keys (4 ∷ [])

nodes-add_orphan_nodes_example :
    find_in (add_orphan_nodes sample start (zeros 32) [] keys).0 (3 ∷ 2 ∷ [])
    ≡ first_offered sample
        (3 ∷ 2 ∷ [])
        (find_in start (3 ∷ 2 ∷ []))
        (offers_of sample (zeros 32) [] keys)
nodes-add_orphan_nodes_example =
    nodes-add_orphan_nodes sample sample-IsLawful start (zeros 32) [] keys (3 ∷ 2 ∷ [])

abbrev slot : StorageProof
slot = record { key = "0x01"; value = pos 7; proof = "0xaa" ∷ [] }

abbrev account : AccountProof
account = record {
  address = zeros 20;
  proof = "0xbb" ∷ [];
  balance = pos 1;
  code_hash = zeros 32;
  nonce = 1;
  storage_hash = record { bytes = replicate 32 1; sized = length-replicate {A = ℕ} 32 1 };
  storage = some (slot ∷ []);
}

-- The node set of the storage trie, before that of the account trie.
accepted :
    node_set_from_state_proofs sample (zeros 32) (account ∷ [])
    ≡ ok (
        (zeros 32, (1 ∷ [], (account.storage_hash, 1 ∷ [])) ∷ [])
        ∷ (zeros 32, ((zeros 20).bytes, (zeros 32, 1 ∷ [])) ∷ [])
        ∷ [])
unfolding node_set_from_state_proofs add_account_nodes accounts_proof_db_and_keys add_storage_nodes
    storage_proof_db_and_keys add_nodes new_account_node_set new_storage_node_set account_trie_key
    storage_trie_key storage_trie_owner array_eq put_in verify read_proofs
accepted = refl

node_set_from_state_proofs-ok_iff_example :
    ((m : List Entries) × (node_set_from_state_proofs sample (zeros 32) (account ∷ []) ≡ ok m)) ↔ (
      AccountsProven sample (Verified sample (zeros 32)) (account ∷ [])
      × AllSlotsProven sample (account ∷ []))
node_set_from_state_proofs-ok_iff_example =
    node_set_from_state_proofs-ok_iff sample (λ m s. (s ∷ m, refl)) (zeros 32) (account ∷ [])

node_set_from_state_transition_proofs-ok_iff_example :
    ((m : List Entries) × (node_set_from_state_transition_proofs sample
          (zeros 32)
          (zeros 32)
          (account ∷ [])
          (account ∷ [])
        ≡ ok m))
    ↔ IsTransition sample (zeros 32) (zeros 32) (account ∷ []) (account ∷ [])
node_set_from_state_transition_proofs-ok_iff_example =
    node_set_from_state_transition_proofs-ok_iff sample (λ m s. (s ∷ m, refl)) (zeros 32) (zeros 32)
      (account ∷ []) (account ∷ [])

node_set_from_state_transition_proofs_without_post_example :
    success (node_set_from_state_transition_proofs sample (zeros 32) (zeros 32) (account ∷ []) [])
    ≡ success (node_set_from_state_proofs sample (zeros 32) (account ∷ []))
node_set_from_state_transition_proofs_without_post_example =
    node_set_from_state_transition_proofs_without_post sample (zeros 32) (zeros 32) (account ∷ [])
