-- ===== src/Generator/Prepare/Made.antt =====
-- What the prover input of `prepare` in src/generator/prepare.go is made from.
use zk_pig.Base.{
  ℕ, Slice, Option, some, List, [], ◌∷◌, map, items, items-appended, get_elem?, true, ok, context,
  deref, deref-eq-ok, >>=-eq-ok, context-eq-ok, ok_inj, ◌≡◌, refl, sym, subst,
}
use zk_pig.Geth.Types.{Hash, Header}
use zk_pig.Geth.Interface.{Geth}
use zk_pig.Input.{Witness, Block, ProverInput}
use zk_pig.Trie.Interface.{TrieLib}
use zk_pig.Trie.NodeSets.{node_set_from_state_transition_proofs}
use zk_pig.State.Rpc.{RpcLib}
use zk_pig.Evm.Interface.{EvmLib}
use zk_pig.Chain.{ChainLib, new_chain, write_headers, write_codes}
use zk_pig.Chain.Written.{
  IsLawful, last_blob, last_header, read-write_headers, read_code-write_codes,
  read_header-write_codes, read_node-write_codes,
}
use zk_pig.Generator.Interface.{GenLib, StateWitness}
use zk_pig.Generator.Run.{run, Validated}
use zk_pig.Generator.Preflight.{PreflightData}
use zk_pig.Generator.Prepare.{prepare_pre_state, block_of, witness_of, prover_input_of, prepare}
use zk_pig.Generator.Prepare.Success.{ProofsValid, prepare-Steps}

module _ {G : Geth} {T : TrieLib} {R : RpcLib} {E : EvmLib} {C : ChainLib E.HeaderChain}
    (L : GenLib G T R E C) where
  -- The database after the genesis: the ancestors are found by their hashes, the trie database was
  -- updated with the nodes of the proofs, from the root of the genesis to that of the parent, and the
  -- codes are found by their hashes.
  abbrev pub IsPrefilled : E.HeaderChain → PreflightData L → Header → C.Db → C.Db → Type 0
  IsPrefilled hc pf parent before after =
      (headed traced : C.Db) × (nodes : T.MergedNodeSet) × (genesis : Header) × ((k : Hash)
        → C.read_header headed k ≡ last_header C k (items pf.ancestors) (C.read_header before k))
      × (node_set_from_state_transition_proofs T parent.root (L.rpc_block_root pf.block)
            pf.pre_state_proofs pf.post_state_proofs
          ≡ ok nodes)
      × (L.get_header_by_number hc headed 0 ≡ some genesis)
      × (L.update_trie headed parent.root genesis.root nodes ≡ ok traced)
      × ((k : Hash)
          → (C.read_code after k ≡ last_blob C k (map some pf.codes) (C.read_code traced k))
            × (C.read_header after k ≡ C.read_header traced k)
            × (C.read_legacy_trie_node after k ≡ C.read_legacy_trie_node traced k))

  -- The witness has the headers, codes and nodes that an execution left.
  abbrev pub IsWitnessOf : StateWitness → Witness → Type 0
  IsWitnessOf w v =
      (v.ancestors ≡ w.headers)
      × (items v.codes ≡ map some w.codes)
      × (items v.state ≡ map some w.state)

  -- The one block of the prover input has the parts of the block that was executed.
  abbrev pub IsInputOf : E.HeaderChain → E.Block → StateWitness → ProverInput G.Transaction → Type 0
  IsInputOf hc block w inputs =
      (b : Block G.Transaction) × (v : Witness) × (inputs.blocks ≡ some (some b ∷ []))
      × (b.header ≡ some (L.block_header block))
      × (b.transactions ≡ L.block_transactions block)
      × (b.uncles ≡ L.block_uncles block)
      × (b.withdrawals ≡ L.block_withdrawals block)
      × (inputs.witness ≡ some v)
      × IsWitnessOf w v
      × (inputs.chain_config ≡ L.chain_config hc)

  abbrev pub IsMadeFrom : PreflightData L → ProverInput G.Transaction → Type 0
  IsMadeFrom pf inputs =
      (hc : E.HeaderChain) × (parent : Header) × (before after : C.Db) × (state final : E.StateDb)
      × (res : Option E.ProcessResult) × (w : StateWitness) × (get_elem? (items pf.ancestors) 0
          ≡ some (some parent))
      × ProofsValid L parent.root pf
      × (new_chain C pf.chain_config C.new_memory_database ≡ ok (hc, before))
      × IsPrefilled hc pf parent before after
      × (L.new_state after parent.root ≡ ok state)
      × (run E hc (L.to_block pf.block) true state ≡ ok (res, final))
      × Validated E hc (L.to_block pf.block) res
      × (L.witness final ≡ some w)
      × IsInputOf hc (L.to_block pf.block) w inputs

  prover_input_of-IsInputOf :
      (hc : E.HeaderChain) (block : E.Block) (w : StateWitness)
      → IsInputOf hc block w (prover_input_of L hc block w)
  prover_input_of-IsInputOf hc block w = (
    block_of L block,
    witness_of L w,
    refl,
    refl,
    refl,
    refl,
    refl,
    refl,
    (refl, items-appended (map some w.codes), items-appended (map some w.state)),
    refl,
  )

  with_codes :
      IsLawful C
      → (traced : C.Db) (codes : List (Slice ℕ)) {after : C.Db} → write_codes C traced codes ≡ after
      → (k : Hash)
      → (C.read_code after k ≡ last_blob C k codes (C.read_code traced k))
        × (C.read_header after k ≡ C.read_header traced k)
        × (C.read_legacy_trie_node after k ≡ C.read_legacy_trie_node traced k)
  with_codes K traced codes e k =
      subst
        (λ db.
          (C.read_code db k ≡ last_blob C k codes (C.read_code traced k))
          × (C.read_header db k ≡ C.read_header traced k)
          × (C.read_legacy_trie_node db k ≡ C.read_legacy_trie_node traced k))
        e
        (
          read_code-write_codes C K codes traced k,
          read_header-write_codes C K codes traced k,
          read_node-write_codes C K codes traced k,
        )

  prepare_pre_state-IsPrefilled :
      IsLawful C
      → (hc : E.HeaderChain) (db : C.Db) (pf : PreflightData L) {parent : Header} {db' : C.Db}
      → get_elem? (items pf.ancestors) 0 ≡ some (some parent)
      → prepare_pre_state L hc db pf ≡ ok db'
      → IsPrefilled hc pf parent db db'
  unfolding prepare_pre_state
  prepare_pre_state-IsPrefilled K hc db pf {parent} {db'} first h =
      let (headed, e, h1) = >>=-eq-ok _ (write_headers C db (items pf.ancestors)) (rw first at h) in
      let made =
        node_set_from_state_transition_proofs T parent.root (L.rpc_block_root pf.block)
          pf.pre_state_proofs pf.post_state_proofs in
      let (nodes, e', h2) = >>=-eq-ok _ (context "failed to create state nodes" made) h1 in
      let (genesis, e'', h3) = >>=-eq-ok _ (deref (L.get_header_by_number hc headed 0)) h2 in
      let update = L.update_trie headed parent.root genesis.root nodes in
      let (traced, e3, h4) =
        >>=-eq-ok _ (context "failed to update trie db with state nodes" update) h3 in
      (
        headed,
        traced,
        nodes,
        genesis,
        λ k. (read-write_headers C K (items pf.ancestors) db e k).0,
        context-eq-ok "failed to create state nodes" made e',
        deref-eq-ok (L.get_header_by_number hc headed 0) e'',
        context-eq-ok "failed to update trie db with state nodes" update e3,
        with_codes K traced (map some pf.codes) (ok_inj h4),
      )

  pub prepare-IsMadeFrom :
      IsLawful C
      → (pf : PreflightData L) {inputs : ProverInput G.Transaction} → prepare L pf ≡ ok inputs
      → IsMadeFrom pf inputs
  prepare-IsMadeFrom K pf {inputs} h =
      let (
        hc, parent, before, after, state, final, res, w, first, valid, chained, filled, opened, ran,
        validated, has, is,
      ) =
        prepare-Steps L pf h in
      (
        hc,
        parent,
        before,
        after,
        state,
        final,
        res,
        w,
        first,
        valid,
        chained,
        prepare_pre_state-IsPrefilled K hc before pf first filled,
        opened,
        ran,
        validated,
        has,
        subst (IsInputOf hc (L.to_block pf.block) w) (sym is)
            (prover_input_of-IsInputOf hc (L.to_block pf.block) w),
      )
