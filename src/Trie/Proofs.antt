-- ===== src/Trie/Proofs.antt =====
-- src/ethereum/trie/{utils,node_set_account,node_set_storage}.go: the proofs of accounts and storage
-- slots, and the node sets that are filled from them.
pub mod Checked
use zk_pig.Base.{
  ℕ, ℤ, Option, none, Slice, items, push, List, [], ◌∷◌, ◌++◌, String, Bytes, Outcome, ok, err,
  panic, ◌>>=◌, context, deref, length, zeros, ◌==◌, if◌then◌else◌,
}
use zk_pig.Geth.Types.{Hash, Address}
use zk_pig.Trie.Interface.{TrieLib}
use zk_pig.Trie.Nodes.{Update, add_nodes, add_orphan_nodes}

-- `hexutil.Big` is a `big.Int`.
pub record StorageProof : Type 0 where
  pub key : String
  pub value : ℤ
  pub proof : List String

pub record AccountProof : Type 0 where
  pub address : Address
  pub proof : List String
  pub balance : ℤ
  pub code_hash : Hash
  pub nonce : ℕ
  pub storage_hash : Hash
  pub storage : Slice StorageProof

-- `gethclient.StorageResult` and `gethclient.AccountResult`.
pub record StorageResult : Type 0 where
  pub key : String
  pub value : Option ℤ
  pub proof : List String

pub record AccountResult : Type 0 where
  pub address : Address
  pub account_proof : List String
  pub balance : Option ℤ
  pub code_hash : Hash
  pub nonce : ℕ
  pub storage_hash : Hash
  pub storage_proof : Slice StorageResult

-- A result without a value panics.
pub storage_proof_from_rpc : StorageResult → Outcome StorageProof
storage_proof_from_rpc res = do
  value ← deref res.value
  ok (record { key = res.key; value = value; proof = res.proof })

-- The loop appends to a slice that starts out nil.
unfoldable pub append_slots : Slice StorageProof → List StorageResult → Outcome (Slice StorageProof)
append_slots storage [] = ok storage
append_slots storage (slot ∷ slots) = do
  proof ← storage_proof_from_rpc slot
  append_slots (push storage proof) slots

unfoldable pub account_proof_from_rpc : AccountResult → Outcome AccountProof
unfolding append_slots
account_proof_from_rpc res = do
  balance ← deref res.balance
  storage ← append_slots none (items res.storage_proof)
  ok (record {
    address = res.address;
    proof = res.account_proof;
    balance = balance;
    code_hash = res.code_hash;
    nonce = res.nonce;
    storage_hash = res.storage_hash;
    storage = storage;
  })

module _ (T : TrieLib) where
  unfoldable pub storage_trie_key : Bytes → Bytes
  storage_trie_key slot = T.keccak256 slot

  unfoldable pub account_trie_key : Address → Bytes
  account_trie_key addr = T.keccak256 addr.bytes

  unfoldable pub storage_trie_owner : Address → Hash
  storage_trie_owner addr = T.keccak256_hash addr.bytes

  -- `NewAccountNodeSet`, with the owner of the account trie.
  unfoldable pub new_account_node_set : T.NodeSet
  new_account_node_set = T.new_node_set (zeros 32)

  unfoldable pub new_storage_node_set : Address → T.NodeSet
  new_storage_node_set addr = T.new_node_set (storage_trie_owner addr)

  abbrev pub DbAndKeys : Type 0
  DbAndKeys = T.ProofDb × List Bytes

  pub account_proofs_from : DbAndKeys → List AccountProof → Outcome DbAndKeys
  account_proofs_from (db, keys) [] = ok (db, keys)
  account_proofs_from (db, keys) (p ∷ ps) = do
    db' ← T.store_hex_proofs p.proof db
    account_proofs_from (db', keys ++ (account_trie_key p.address ∷ [])) ps

  unfoldable pub accounts_proof_db_and_keys : List AccountProof → Outcome DbAndKeys
  unfolding account_proofs_from
  accounts_proof_db_and_keys account_proofs =
      account_proofs_from (T.new_proof_db, []) account_proofs

  -- A slot without a proof is skipped.
  pub storage_proof_step : DbAndKeys → StorageProof → Outcome DbAndKeys
  storage_proof_step (db, keys) p = if length p.proof == 0 then ok (db, keys) else do
    key ← context "failed to decode storage key" (T.hex_decode p.key)
    db' ← T.store_hex_proofs p.proof db
    ok (db', keys ++ (storage_trie_key key ∷ []))

  pub storage_proofs_from : DbAndKeys → List StorageProof → Outcome DbAndKeys
  storage_proofs_from acc [] = ok acc
  storage_proofs_from acc (p ∷ ps) = do acc' ← storage_proof_step acc p; storage_proofs_from acc' ps

  unfoldable pub storage_proof_db_and_keys : Slice StorageProof → Outcome DbAndKeys
  unfolding storage_proofs_from storage_proof_step
  storage_proof_db_and_keys storage_proofs =
      storage_proofs_from (T.new_proof_db, []) (items storage_proofs)

  -- `if err != nil { return nil }`: the error of the proof database is dropped.
  pub or_nothing : T.NodeSet → Outcome DbAndKeys → (DbAndKeys → Update T) → Update T
  or_nothing set (ok d) add = add d
  or_nothing set (err e) add = (set, ok tt)
  or_nothing set panic add = (set, panic)

  -- `if err != nil { return err }`.
  pub or_error : T.NodeSet → Outcome DbAndKeys → (DbAndKeys → Update T) → Update T
  or_error set (ok d) add = add d
  or_error set (err e) add = (set, err e)
  or_error set panic add = (set, panic)

  unfoldable pub add_account_nodes : T.NodeSet → Hash → List AccountProof → Update T
  unfolding or_nothing
  add_account_nodes set account_root account_proofs =
      or_nothing set (accounts_proof_db_and_keys account_proofs)
        (λ d. add_nodes T set account_root d.0 d.1)

  unfoldable pub add_account_orphan_nodes : T.NodeSet → Hash → List AccountProof → Update T
  unfolding or_nothing
  add_account_orphan_nodes set account_root account_proofs =
      or_nothing set (accounts_proof_db_and_keys account_proofs)
        (λ d. add_orphan_nodes T set account_root d.0 d.1)

  unfoldable pub add_storage_nodes : T.NodeSet → Hash → Slice StorageProof → Update T
  unfolding or_error
  add_storage_nodes set storage_root storage_proofs =
      or_error set (storage_proof_db_and_keys storage_proofs)
        (λ d. add_nodes T set storage_root d.0 d.1)

  unfoldable pub add_storage_orphan_nodes : T.NodeSet → Hash → Slice StorageProof → Update T
  unfolding or_error
  add_storage_orphan_nodes set post_root post_proofs =
      or_error set (storage_proof_db_and_keys post_proofs)
        (λ d. add_orphan_nodes T set post_root d.0 d.1)
