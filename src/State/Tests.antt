-- ===== src/State/Tests.antt =====
-- Tracking readers of a small state.
use zk_pig.Base.{
  ℕ, suc, ℤ, lookup, ◌>>=◌, context, false, Option, none, some, List, [], ◌∷◌, Array, insert, ok,
  err, error, zeros, replicate, length-replicate, array_eq, if◌then◌else◌, ◌≡◌, refl,
}
use zk_pig.Proto.Tests.{header}
use zk_pig.State.Rpc.{
  RpcLib, new_rpc_database, mark_blocks, last_marked, last_number, known, to_state_account, reader,
  reader_account, reader_storage, contract_code, reads-mark_blocks,
}
use zk_pig.State.Tries.{
  Call, get_account, update_storage, hash, Answer, TrieDb, real, Serves, open_trie,
  open_storage_trie, opened_tries-Serves,
}
use zk_pig.State.Interface.{StateLib, IsLawful}
use zk_pig.State.Tracker.{
  World, TrackerReader, new_world, new_state_access_tracker, db_reader, set_tracker,
}
use zk_pig.State.Tracker.Heap.{Read, account_of, slot_of}
use zk_pig.State.Tracker.Exact.{performs}
use zk_pig.State.Tracker.Opened.{Exactly, db_reader_exact}

abbrev filled : (n b : ℕ) → Array n
filled n b = record { bytes = replicate n b; sized = length-replicate n b }

-- A state with one account, whose balance is the state's reader.
abbrev sample : StateLib
sample = record {
  StateAccount = ℕ;
  copy_account = λ a. a;
  Reader = ℕ;
  account = λ r addr. if array_eq addr (filled 20 1) then ok (some r) else ok none;
  storage = λ r addr slot. if array_eq addr (filled 20 9) then err (error "missing") else ok slot;
  reader = λ root. ok 7;
  contract_code = λ addr code_hash. ok none;
}

sample-IsLawful : IsLawful sample
sample-IsLawful = record { copy_account_lem = λ a. refl }

abbrev opened_reader : TrackerReader sample
opened_reader = record { reader = 7; tracker = 0 }

abbrev opened_world : World sample
opened_world = record {
  heap = new_state_access_tracker sample ∷ [];
  trackers = (zeros 32, 0) ∷ [];
  current_tracker = some 0;
}

opening : db_reader sample (new_world sample) (zeros 32) ≡ ok (opened_reader, opened_world)
unfolding db_reader set_tracker insert
opening = refl

abbrev reads : List Read
reads =
    account_of (filled 20 1) ∷ slot_of (filled 20 1) (filled 32 4) ∷ account_of (filled 20 2) ∷ []

db_reader_exact_example :
    Exactly sample
      (performs sample opened_world opened_reader reads)
      opened_reader
      (zeros 32)
      reads
      (filled 20 1)
      (filled 32 4)
db_reader_exact_example =
    db_reader_exact sample sample-IsLawful (new_world sample) (zeros 32) opened_reader opened_world
      opening reads (filled 20 1) (filled 32 4)

-- A node where every account has the block's number as its balance.
abbrev pub node : RpcLib
node = record {
  U256 = Option ℤ;
  from_big = λ n. (some n, false);
  bytes_to_hash = λ s. zeros 32;
  ProofAccount = Option ℤ;
  proof_nonce = λ a. 1;
  proof_balance = λ a. a;
  proof_storage_hash = λ a. zeros 32;
  proof_code_hash = λ a. zeros 32;
  get_proof = λ addr n. ok (some n);
  storage_at = λ addr slot n. ok none;
  code_at = λ addr n. ok (some (7 ∷ []));
}

reads-mark_blocks_example :
    let db = mark_blocks node (new_rpc_database node) (header ∷ []) in
    let n = known node (
      last_marked node
        (zeros 32)
        (header ∷ [])
        (lookup (zeros 32) (new_rpc_database node).state_root_to_block_number)) in
    ((do r ← reader node db (zeros 32); reader_account node r (zeros 20)) ≡ (do
      number ← n
      account ←
          context "failed to get proof for address and block" (node.get_proof (zeros 20) number)
      to_state_account node account))
    × ((do r ← reader node db (zeros 32); reader_storage node r (zeros 20) (zeros 32)) ≡ (do
      number ← n
      value ← context "failed to get storage slot" (node.storage_at (zeros 20) (zeros 32) number)
      ok (node.bytes_to_hash value)))
    × (contract_code node db (zeros 20) (zeros 32)
        ≡ context "failed to get code for address"
            (node.code_at (zeros 20) (last_number node (header ∷ []) none)))
reads-mark_blocks_example =
    reads-mark_blocks node (new_rpc_database node) (header ∷ []) (zeros 32) (zeros 20) (zeros 32)
      (zeros 32)

-- A database with a trie at one root, which counts the calls of it, and with no storage tries.
abbrev tries : TrieDb
tries = record {
  Account = ℕ;
  T = ℕ;
  open_trie = λ root. if array_eq root (zeros 32) then ok 3 else err (error "missing node");
  call = λ t c. (ok (Answer.account (some t)), suc t);
}

abbrev calls : List (Call ℕ)
calls = update_storage (zeros 20) none (some (1 ∷ [])) ∷ get_account (zeros 20) ∷ hash ∷ []

opened_tries-Serves_example :
    Serves tries (ok 3) (open_trie tries (zeros 32)) calls
    × Serves tries
        (err (error "missing node"))
        (open_storage_trie tries
          (λ state_root address root tr. err (error "missing node"))
          (zeros 32)
          (zeros 20)
          (zeros 32)
          (real 3))
        calls
unfolding array_eq
opened_tries-Serves_example =
    opened_tries-Serves tries (λ state_root address root tr. err (error "missing node")) (zeros 32)
      (zeros 32) (zeros 20) (real 3) calls
