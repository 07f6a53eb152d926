-- ===== src/Generator/Execute/Succeeds.antt =====
-- When the executor in src/generator/execute.go succeeds.
use zk_pig.Base.{
  ℤ, Option, none, some, List, [], ◌∷◌, items, map, false, array_eq, Outcome, ok, ◌>>=◌, deref, ◌≡◌,
  ◌≢◌, refl, ◌∙◌,
}
use zk_pig.Geth.Types.{Header, ChainConfig}
use zk_pig.Geth.Interface.{Geth}
use zk_pig.Input.{Witness, Block, ProverInput}
use zk_pig.Trie.Interface.{TrieLib}
use zk_pig.State.Rpc.{RpcLib}
use zk_pig.Evm.Interface.{EvmLib}
use zk_pig.Chain.{ChainLib, new_chain, write_headers, write_codes, write_nodes_to_hash_db}
use zk_pig.Generator.Interface.{GenLib}
use zk_pig.Generator.Run.Accepted.{Accepts, run-ok}
use zk_pig.Generator.Execute.{
  to_geth_block, prefill, exec_params_of, execute_first, execute_blocks, execute_input,
}

-- Every header has a number.
abbrev pub AllNumbered : List Header → Type 0
AllNumbered [] = Unit
AllNumbered (h ∷ hs) = (h.number ≢ none) × AllNumbered hs

module _ {HeaderChain : Type 0} (C : ChainLib HeaderChain) where
  -- The database behind headers that are given.
  abbrev pub with_headers : C.Db → List Header → C.Db
  with_headers db [] = db
  with_headers db (h ∷ hs) = with_headers (C.write_header db h) hs

  pub write_headers-given :
      (db : C.Db) (hs : List Header)
      → AllNumbered hs
      → write_headers C db (map some hs) ≡ ok (with_headers db hs)
  unfolding write_headers
  write_headers-given db [] n = refl
  write_headers-given db (h ∷ hs) (n, ns) =
      of h.number n (write_headers-given (C.write_header db h) hs ns)
    where
      of :
          (number : Option ℤ)
          → number ≢ none
          → write_headers C (C.write_header db h) (map some hs) ≡ ok (with_headers db (h ∷ hs))
          → (do _ ← deref number; write_headers C (C.write_header db h) (map some hs))
            ≡ ok (with_headers db (h ∷ hs))
      of none n e = absurd (n refl)
      of (some k) n e = e

-- What the tags of an execution dereference.
tags-given :
    {A : Type 0} (c : Option ChainConfig) (h : Option Header) (rest : Header → Outcome A)
    {config : ChainConfig} {header : Header}
    → c ≡ some config
    → h ≡ some header
    → header.number ≢ none
    → (do _ ← deref c; hd ← deref h; _ ← deref hd.number; rest hd) ≡ rest header
tags-given none h rest p q r = cc
tags-given (some c) none rest p q r = cc
tags-given (some c) (some hd) rest {header = header} p q r =
    let same : hd ≡ header = cc in rw same (of header.number r)
  where
    of : (n : Option ℤ) → n ≢ none → (do _ ← deref n; rest header) ≡ rest header
    of none h = absurd (h refl)
    of (some n) h = refl

module _ {G : Geth} {T : TrieLib} {R : RpcLib} {E : EvmLib} {C : ChainLib E.HeaderChain}
    (L : GenLib G T R E C) where
  -- The database that the witness is written to.
  abbrev pub filled : C.Db → Witness → List Header → C.Db
  filled db w headers =
      write_nodes_to_hash_db C (write_codes C (with_headers C db headers) (items w.codes))
        (items w.state)

  -- A prover input with all that the executor reads, for a block that go-ethereum accepts on the state
  -- of the first ancestor, out of the database that the witness was written to.
  pub record IsAcceptable (inputs : ProverInput G.Transaction) : Type 0 where
    pub config : ChainConfig
    pub with_config : inputs.chain_config ≡ some config
    pub first : Block G.Transaction
    pub others : List (Option (Block G.Transaction))
    pub with_first : items inputs.blocks ≡ some first ∷ others
    pub header : Header
    pub with_header : first.header ≡ some header
    pub with_number : header.number ≢ none
    pub w : Witness
    pub with_witness : inputs.witness ≡ some w
    pub parent : Header
    pub older : List Header
    pub with_ancestors : items w.ancestors ≡ some parent ∷ map some older
    pub ancestors_numbered : AllNumbered (parent ∷ older)
    pub not_the_block : array_eq (C.header_hash parent) (C.header_hash header) ≡ false
    pub hc : E.HeaderChain
    pub db : C.Db
    pub chained : new_chain C inputs.chain_config C.new_memory_database ≡ ok (hc, db)
    pub state : E.StateDb
    pub opened : L.new_state (filled db w (parent ∷ older)) parent.root ≡ ok state
    pub block : E.Block
    pub built : to_geth_block L first ≡ ok block
    pub accepted : Accepts E hc block state

  pub prefill-filled :
      (db : C.Db) (w : Witness) (hs : List Header)
      → items w.ancestors ≡ map some hs
      → AllNumbered hs
      → prefill L db w ≡ ok (filled db w hs)
  unfolding prefill
  prefill-filled db w hs h n = rw h (rw (write_headers-given C db hs n) refl)

  execute_first-ok :
      (inputs : ProverInput G.Transaction) (a : IsAcceptable inputs)
      → execute_first L inputs a.first a.header
        ≡ ok (some a.accepted.res, E.stop_prefetcher a.accepted.final)
  unfolding execute_first exec_params_of
  execute_first-ok inputs a =
      rw
        (
          a.chained,
          a.with_witness,
          prefill-filled a.db a.w (a.parent ∷ a.older) a.with_ancestors a.ancestors_numbered,
          a.with_ancestors,
          a.not_the_block,
          a.opened,
          a.built,
          run-ok E a.hc a.block a.state a.accepted,
        )
        refl

  -- The executor succeeds, with the result of go-ethereum's processor, on every prover input that has
  -- a chain configuration, a first block with a numbered header, and a witness without nil ancestors
  -- whose first is not the block, if the genesis can be committed, the block can be built, the state
  -- of the first ancestor opens on the database that the witness was written to, and the processor and
  -- the validator accept the block on it.
  pub execute_input-ok :
      (inputs : ProverInput G.Transaction) (a : IsAcceptable inputs)
      → execute_input L inputs ≡ ok (some a.accepted.res, E.stop_prefetcher a.accepted.final)
  unfolding execute_input execute_blocks
  execute_input-ok inputs a = rw a.with_first (
      tags-given inputs.chain_config a.first.header (execute_first L inputs a.first) a.with_config
        a.with_header a.with_number
      ∙ execute_first-ok inputs a)
