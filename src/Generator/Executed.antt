-- ===== src/Generator/Executed.antt =====
-- That the executor of src/generator/execute.go accepts what src/generator/prepare.go made, if the
-- witness of an execution is enough to execute the block again.
use zk_pig.Base.{
  Option, none, some, List, [], ◌∷◌, items, items-appended, map, true, false, array_eq, ok, ◌≡◌,
  ◌≢◌, refl, sym, subst,
}
use zk_pig.Geth.Types.{Hash, Header, ChainConfig}
use zk_pig.Geth.Interface.{Geth}
use zk_pig.Input.{Witness, ProverInput}
use zk_pig.Trie.Interface.{TrieLib}
use zk_pig.State.Rpc.{RpcLib}
use zk_pig.Evm.Interface.{EvmLib}
use zk_pig.Chain.{ChainLib, new_chain}
use zk_pig.Chain.Written.{IsLawful, last_blob}
use zk_pig.Generator.Interface.{GenLib, StateWitness}
use zk_pig.Generator.Run.{run}
use zk_pig.Generator.Run.Accepted.{Accepts}
use zk_pig.Generator.Preflight.{PreflightData}
use zk_pig.Generator.Prepare.{witness_of, block_of, prover_input_of, prepare}
use zk_pig.Generator.Prepare.Success.{prepare-Steps}
use zk_pig.Generator.Execute.{execute_input}
use zk_pig.Generator.Execute.Success.{Holds, prefill-Holds}
use zk_pig.Generator.Execute.Succeeds.{
  AllNumbered, IsAcceptable, filled, prefill-filled, execute_input-ok,
}

module _ {G : Geth} {T : TrieLib} {R : RpcLib} {E : EvmLib} {C : ChainLib E.HeaderChain}
    (L : GenLib G T R E C) where
  -- All that the witness of a state database has.
  abbrev pub contents : StateWitness → Witness
  contents w = record {
    state = some (map some w.state);
    ancestors = w.headers;
    codes = some (map some w.codes);
  }

  -- A witness that the block can be executed on: it starts with a header that is not the block's, its
  -- headers have numbers, and
  -- on every database that holds it beside the genesis, the state at the root of that header can be
  -- opened, and go-ethereum accepts the block there. The block can be built from its parts.
  pub record Replays (hc : E.HeaderChain) (genesis : C.Db) (block : E.Block) (w : StateWitness)
      : Type 0 where
    pub parent : Header
    pub older : List Header
    pub headers_are : items w.headers ≡ some parent ∷ map some older
    pub headers_numbered : AllNumbered (parent ∷ older)
    pub not_the_block :
        array_eq (C.header_hash parent) (C.header_hash (L.block_header block)) ≡ false
    pub with_number : (L.block_header block).number ≢ none
    pub rebuilt :
        L.new_block
          (some (L.block_header block))
          (L.block_transactions block)
          (L.block_uncles block)
          (L.block_withdrawals block)
        ≡ ok block
    pub replay :
        (db : C.Db)
        → Holds L (contents w) genesis db
        → (s : E.StateDb) × (L.new_state db parent.root ≡ ok s) × Accepts E hc block s

  -- What go-ethereum promises of a block: a header chain keeps its configuration, and a validated
  -- execution leaves a witness that the block can be executed on.
  pub record IsStateless (pf : PreflightData L) : Type 0 where
    pub chain_config-new_chain :
        {hc : E.HeaderChain} {genesis : C.Db}
        → new_chain C pf.chain_config C.new_memory_database ≡ ok (hc, genesis)
        → L.chain_config hc ≡ pf.chain_config
    pub witness-run :
        {hc : E.HeaderChain} {genesis : C.Db} (db : C.Db) (root : Hash) (state : E.StateDb)
        {res : Option E.ProcessResult} {final : E.StateDb} {w : StateWitness}
        → new_chain C pf.chain_config C.new_memory_database ≡ ok (hc, genesis)
        → L.new_state db root ≡ ok state
        → run E hc (L.to_block pf.block) true state ≡ ok (res, final)
        → L.witness final ≡ some w
        → Replays hc genesis (L.to_block pf.block) w

  Holds-contents :
      (before after : C.Db) (w : StateWitness)
      → Holds L (witness_of L w) before after
      → Holds L (contents w) before after
  Holds-contents before after w h k =
      let (code, node, header) = h k in
      (
        subst (λ l. C.read_code after k ≡ last_blob C k l (C.read_code before k))
            (items-appended (map some w.codes)) code,
        subst
            (λ l.
              C.read_legacy_trie_node after k ≡ last_blob C k l (C.read_legacy_trie_node before k))
            (items-appended (map some w.state)) node,
        header,
      )

  prover_input_of-IsAcceptable :
      (K : IsLawful C) (config : Option ChainConfig) (hc : E.HeaderChain) (genesis : C.Db)
      (block : E.Block) (w : StateWitness)
      → config ≢ none
      → L.chain_config hc ≡ config
      → new_chain C config C.new_memory_database ≡ ok (hc, genesis)
      → Replays hc genesis block w
      → IsAcceptable L (prover_input_of L hc block w)
  prover_input_of-IsAcceptable K none hc genesis block w given same chained r = absurd (given refl)
  prover_input_of-IsAcceptable K (some config) hc genesis block w given same chained r =
      let v = witness_of L w in
      let written = filled L genesis v (r.parent ∷ r.older) in
      let (s, opened, accepted) = r.replay written (
        Holds-contents genesis written w (
          prefill-Holds L K genesis v
            (prefill-filled L genesis v (r.parent ∷ r.older) r.headers_are r.headers_numbered))) in
      record {
        config = config;
        with_config = same;
        first = block_of L block;
        others = [];
        with_first = refl;
        header = L.block_header block;
        with_header = refl;
        with_number = r.with_number;
        w = v;
        with_witness = refl;
        parent = r.parent;
        older = r.older;
        with_ancestors = r.headers_are;
        ancestors_numbered = r.headers_numbered;
        not_the_block = r.not_the_block;
        hc = hc;
        db = genesis;
        chained =
            subst (λ c. new_chain C c C.new_memory_database ≡ ok (hc, genesis)) (sym same) chained;
        state = s;
        opened = opened;
        block = block;
        built = r.rebuilt;
        accepted = accepted;
      }

  -- If go-ethereum's witnesses are enough to execute a block again, then the executor succeeds on every
  -- prover input that the preparation made from preflight data with a chain configuration.
  pub prepare-execute_input :
      IsLawful C
      → (pf : PreflightData L) → IsStateless pf
      → pf.chain_config ≢ none
      → {inputs : ProverInput G.Transaction} → prepare L pf ≡ ok inputs
      → (res : E.ProcessResult) × (final : E.StateDb) × (execute_input L inputs
          ≡ ok (some res, final))
  prepare-execute_input K pf S given {inputs} h =
      let (
        hc, parent, genesis, db, state, final, res, w, _, _, chained, _, opened, ran, _, has, is,
      ) =
        prepare-Steps L pf h in
      let a =
        prover_input_of-IsAcceptable K pf.chain_config hc genesis (L.to_block pf.block) w given
          (S.chain_config-new_chain chained) chained
          (S.witness-run db parent.root state chained opened ran has) in
      (
        a.accepted.res,
        E.stop_prefetcher a.accepted.final,
        subst
            (λ i. execute_input L i ≡ ok (some a.accepted.res, E.stop_prefetcher a.accepted.final))
            (sym is) (execute_input-ok L (prover_input_of L hc (L.to_block pf.block) w) a),
      )
