-- ===== src/Chain.antt =====
-- src/ethereum/chain.go and database.go: the header chain that an execution needs, and the database
-- that it reads codes, headers and trie nodes from.
pub mod Written
use mathlib.Core.List.{foldl}
use zk_pig.Base.{
  ℕ, Option, List, [], ◌∷◌, Bytes, Slice, items, Outcome, ok, ◌>>=◌, ◌>>◌, context, deref,
}
use zk_pig.Geth.Types.{Hash, Header, ChainConfig}

-- `rawdb`, `crypto`, `core` and `ethconfig` of go-ethereum. A database is a value that a write
-- replaces.
pub record ChainLib (HeaderChain : Type 0) : Type 1 where
  pub Db : Type 0
  pub new_memory_database : Db
  -- the digest that a Keccak state gives for what was written to it since its reset
  pub keccak256_hash : Bytes → Hash
  pub header_hash : Header → Hash
  pub write_code : Db → Hash → Slice ℕ → Db
  pub write_header : Db → Header → Db
  pub write_legacy_trie_node : Db → Hash → Slice ℕ → Db
  -- `ReadCodeWithPrefix`, and the header of a hash, at the number that is stored for it
  pub read_code : Db → Hash → Slice ℕ
  pub read_header : Db → Hash → Option Header
  pub read_legacy_trie_node : Db → Hash → Slice ℕ
  pub commit_default_genesis : Db → Outcome (Unit {0}) × Db
  pub Engine : Type 0
  pub create_consensus_engine : Option ChainConfig → Db → Outcome Engine
  pub new_header_chain : Db → Option ChainConfig → Engine → Outcome HeaderChain

module _ {HeaderChain : Type 0} (C : ChainLib HeaderChain) where
  pub write_one_code : C.Db → Slice ℕ → C.Db
  write_one_code db code = C.write_code db (C.keccak256_hash (items code)) code

  unfoldable pub write_codes : C.Db → List (Slice ℕ) → C.Db
  unfolding write_one_code
  write_codes db codes = foldl write_one_code db codes

  -- A nil header is dereferenced, and so is, in `rawdb.WriteHeader`, the number of a header.
  unfoldable pub write_headers : C.Db → List (Option Header) → Outcome C.Db
  write_headers db [] = ok db
  write_headers db (header ∷ headers) = do
    h ← deref header
    _ ← deref h.number
    write_headers (C.write_header db h) headers

  pub write_one_node : C.Db → Slice ℕ → C.Db
  write_one_node db node = C.write_legacy_trie_node db (C.keccak256_hash (items node)) node

  unfoldable pub write_nodes_to_hash_db : C.Db → List (Slice ℕ) → C.Db
  unfolding write_one_node
  write_nodes_to_hash_db db nodes = foldl write_one_node db nodes

  -- `NewChain`: the chain, and the database with the genesis block.
  unfoldable pub new_chain : Option ChainConfig → C.Db → Outcome (HeaderChain × C.Db)
  new_chain cfg db = do
    let (done, db') = C.commit_default_genesis db
    context "failed to apply genesis block" done
    engine ← context "failed to create consensus engine" (C.create_consensus_engine cfg db')
    hc ← context "failed to create header chain" (C.new_header_chain db' cfg engine)
    ok (hc, db')
