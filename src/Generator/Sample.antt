-- ===== src/Generator/Sample.antt =====
-- A value of the interface: every block has one account and one slot that it reads, and a state
-- database is the root that it was opened at with the reads so far.
use zk_pig.Base.{
  ℕ, pos, Option, none, some, List, [], ◌∷◌, ◌++◌, Slice, true, array_eq, zeros, if◌then◌else◌,
  Outcome, ok, err, panic, ◌≡◌, refl, deref, replicate, length-replicate, ok_inj, sym, ap, ◌∙◌,
}
use zk_pig.Geth.Types.{Hash, Address, Header}
use zk_pig.Geth.Sample as Codec
use zk_pig.Proto.Tests.{header, config}
use zk_pig.Trie.Sample as Nodes
use zk_pig.Trie.Proofs.{AccountResult}
use zk_pig.State.Tests.{node}
use zk_pig.State.Tracker.{World, TrackerReader, new_world, db_reader}
use zk_pig.State.Tracker.Heap.{Read, account_of, slot_of}
use zk_pig.State.Tracker.Exact.{performs}
use zk_pig.State.Rpc.{RpcDatabase}
use zk_pig.Evm.Interface.{EvmLib}
use zk_pig.Chain.{ChainLib}
use zk_pig.Chain.Written as Written
use zk_pig.Generator.Interface.{GenLib, StateWitness, rpc_state}
use zk_pig.Generator.Preflight.Tracked.{Tracks}

abbrev pub State : Type 0
State = Hash × List Read

abbrev pub block_reads : List Read
block_reads = account_of (zeros 20) ∷ slot_of (zeros 20) (zeros 32) ∷ []

abbrev pub machine : EvmLib
machine = record {
  Block = Header;
  HeaderChain = Unit {0};
  StateDb = State;
  ProcessResult = Unit {0};
  Witness = Unit {0};
  is_byzantium = λ chain block. true;
  new_witness = λ chain block. ok tt;
  start_prefetcher = λ s witness. s;
  stop_prefetcher = λ s. s;
  process = λ chain block cfg s. (ok tt, (s.0, s.1 ++ block_reads));
  validate_state = λ chain block res s. (ok tt, s);
}

pub record Disk : Type 0 where
  pub codes : Hash → Slice ℕ
  pub headers : Hash → Option Header
  pub nodes : Hash → Slice ℕ

abbrev pub disk : ChainLib (Unit {0})
disk = record {
  Db = Disk;
  new_memory_database = record { codes = λ h. none; headers = λ h. none; nodes = λ h. none };
  keccak256_hash = λ bytes. zeros 32;
  header_hash = λ h. h.tx_hash;
  write_code = λ db h code. record db { codes = λ k. if array_eq h k then code else db.codes k };
  write_header =
      λ db h. record db { headers = λ k. if array_eq h.tx_hash k then some h else db.headers k };
  write_legacy_trie_node =
      λ db h n. record db { nodes = λ k. if array_eq h k then n else db.nodes k };
  read_code = λ db k. db.codes k;
  read_header = λ db k. db.headers k;
  read_legacy_trie_node = λ db k. db.nodes k;
  commit_default_genesis = λ db. (ok tt, db);
  Engine = Unit {0};
  create_consensus_engine = λ cfg db. ok tt;
  new_header_chain = λ db cfg engine. ok tt;
}

pub disk-IsLawful : Written.IsLawful disk
disk-IsLawful = record {
  read_code-write_code = λ db h code k. refl;
  read_code-write_header = λ db h k. refl;
  read_code-write_node = λ db h n k. refl;
  read_header-write_header = λ db h k. refl;
  read_header-write_code = λ db h code k. refl;
  read_header-write_node = λ db h n k. refl;
  read_node-write_node = λ db h n k. refl;
  read_node-write_code = λ db h code k. refl;
  read_node-write_header = λ db h k. refl;
}

-- A block on top of `header`.
abbrev pub child : Header
child = record header {
  tx_hash = record { bytes = replicate {A = ℕ} 32 1; sized = length-replicate {A = ℕ} 32 1 };
}

abbrev pub account_result : Address → AccountResult
account_result addr = record {
  address = addr;
  account_proof = "0xaa" ∷ [];
  balance = some (pos 5);
  code_hash = zeros 32;
  nonce = 0;
  storage_hash = zeros 32;
  storage_proof = none;
}

abbrev pub state_witness : StateWitness
state_witness = record {
  headers = some (some header ∷ []);
  codes = (7 ∷ []) ∷ [];
  state = (8 ∷ []) ∷ [];
}

-- The tracker of a reader that asked for `reads`.
abbrev pub after_reads :
    (db : RpcDatabase node)
    → List Read
    → Outcome (TrackerReader (rpc_state node db) × World (rpc_state node db))
    → World (rpc_state node db)
after_reads db reads (ok (r, w)) = performs (rpc_state node db) w r reads
after_reads db reads (err e) = new_world (rpc_state node db)
after_reads db reads panic = new_world (rpc_state node db)

abbrev pub opened_state :
    (db : RpcDatabase node)
    → Hash
    → Outcome (TrackerReader (rpc_state node db) × World (rpc_state node db))
    → Outcome State
opened_state db root (ok p) = ok (root, [])
opened_state db root (err e) = err e
opened_state db root panic = panic

abbrev pub opening :
    (db : RpcDatabase node)
    → Hash
    → Outcome (TrackerReader (rpc_state node db) × World (rpc_state node db))
opening db root = db_reader (rpc_state node db) (new_world (rpc_state node db)) root

abbrev pub library : GenLib Codec.sample Nodes.sample node machine disk
library = record {
  new_block = λ h txs uncles withdrawals. deref h;
  block_number = λ b. pos 21372638;
  block_parent_hash = λ b. b.parent_hash;
  block_header = λ b. b;
  block_transactions = λ b. some [];
  block_uncles = λ b. some [];
  block_withdrawals = λ b. none;
  RpcBlock = Header;
  from_block = λ b cfg. b;
  to_block = λ b. b;
  rpc_block_root = λ b. b.root;
  rpc_block_number = λ b. b.number;
  get_header = λ hc get hash number. some header;
  get_header_by_number = λ hc db number. some header;
  chain_config = λ hc. some config;
  with_get = λ db get. db;
  new_remote_state = λ db root. opened_state db root (opening db root);
  trackers = λ db state. after_reads db state.1 (opening db state.0);
  new_state = λ db root. ok (root, []);
  update_trie = λ db root parent nodes. ok db;
  get_state = λ state addr slot. zeros 32;
  has_self_destructed = λ state addr. true;
  witness = λ state. some state_witness;
  remote_chain_id = ok (some (pos 1));
  block_by_number = λ number. ok header;
  get_proof = λ addr slots number. ok (some (account_result addr));
  hash_hex = λ slot. "0x00";
  map_order = λ n V m. m;
  mainnet_chain_config = config;
  sepolia_chain_config = config;
  holesky_chain_config = config;
}

abbrev pub IsAt : RpcDatabase node → Hash → State → Type 0
IsAt db root state =
    (state.0 ≡ root)
    × (p : TrackerReader (rpc_state node db) × World (rpc_state node db)) × (opening db root ≡ ok p)

pub opened_state-IsAt :
    (db : RpcDatabase node) (root : Hash)
    (o : Outcome (TrackerReader (rpc_state node db) × World (rpc_state node db))) {state : State}
    → opened_state db root o ≡ ok state
    → (state.0 ≡ root)
      × (p : TrackerReader (rpc_state node db) × World (rpc_state node db)) × (o ≡ ok p)
opened_state-IsAt db root (ok p) h = (ap (λ (s : State). s.0) (sym (ok_inj h)), p, refl)
opened_state-IsAt db root (err e) h = cc
opened_state-IsAt db root panic h = cc

unfoldable pub library_tracks : Tracks library
library_tracks = record {
  reads = λ state. state.1;
  IsTracked = IsAt;
  tracked = λ db root state h. (
    h.1.0,
    h.1.1,
    h.2,
    ap (λ (r : Hash). after_reads db state.1 (opening db r)) h.0 ∙ ap (after_reads db state.1) h.2,
  );
  new_remote_state-IsTracked = λ db root {state} h. opened_state-IsAt db root (opening db root) h;
  execution = λ db root. record {
    start = λ s w h. h;
    stop = λ s h. h;
    process = λ c b cfg s h. h;
    validate_state = λ c b res s h. h;
  };
  lookup-map_order = λ n V k m. refl;
}
