-- ===== src/Generator/Prepare/Success.antt =====
-- The steps that a success of `prepare` in src/generator/prepare.go went through.
use zk_pig.Base.{
  Option, none, some, items, get_elem?, true, ok, ◌>>=◌, context, deref, >>=-eq-ok, context-eq-ok,
  ok_inj, ◌≡◌, refl, sym, ap, ◌∙◌,
}
use zk_pig.Geth.Types.{Hash, Header}
use zk_pig.Geth.Interface.{Geth}
use zk_pig.Input.{ProverInput}
use zk_pig.Trie.Interface.{TrieLib}
use zk_pig.Trie.NodeSets.Proven.{IsTransition, node_set_from_state_transition_proofs-IsTransition}
use zk_pig.State.Rpc.{RpcLib}
use zk_pig.Evm.Interface.{EvmLib}
use zk_pig.Chain.{ChainLib, new_chain, write_headers}
use zk_pig.Generator.Interface.{GenLib, StateWitness}
use zk_pig.Generator.Run.{run, Validated, run-Validated}
use zk_pig.Generator.Preflight.{PreflightData}
use zk_pig.Generator.Prepare.{
  first_ancestor, prepare_pre_state, prepare_exec_params, prover_input_of, prepare_prover_input,
  prepare,
}

module _ {G : Geth} {T : TrieLib} {R : RpcLib} {E : EvmLib} {C : ChainLib E.HeaderChain}
    (L : GenLib G T R E C) where
  -- The proofs of the preflight are valid at the root before the block and proved at the one after it.
  abbrev pub ProofsValid : Hash → PreflightData L → Type 0
  ProofsValid root pf =
      IsTransition T root (L.rpc_block_root pf.block) pf.pre_state_proofs pf.post_state_proofs

  first_ancestor-parent :
      (pf : PreflightData L) {a : Option Header} {parent : Header}
      → first_ancestor L pf ≡ ok a
      → deref a ≡ ok parent
      → get_elem? (items pf.ancestors) 0 ≡ some (some parent)
  first_ancestor-parent pf {a} {parent} h h' = of (get_elem? (items pf.ancestors) 0) a h h'
    where
      of :
          (o : Option (Option Header)) (a : Option Header)
          → deref o ≡ ok a
          → deref a ≡ ok parent
          → o ≡ some (some parent)
      of none a h h' = cc
      of (some b) none h h' = cc
      of (some b) (some p) h h' = cc

  prepare_pre_state-valid :
      (hc : E.HeaderChain) (db : C.Db) (pf : PreflightData L) {db' : C.Db}
      → prepare_pre_state L hc db pf ≡ ok db'
      → (parent : Header) × (get_elem? (items pf.ancestors) 0 ≡ some (some parent))
        × ProofsValid parent.root pf
  unfolding prepare_pre_state
  prepare_pre_state-valid hc db pf h =
      let (db1, _, h1) = >>=-eq-ok _ (write_headers C db (items pf.ancestors)) h in
      let (a, e, h2) = >>=-eq-ok _ (first_ancestor L pf) h1 in
      let (parent, e', h3) = >>=-eq-ok _ (deref a) h2 in
      let (ns, made, _) = >>=-eq-ok _ _ h3 in
      (
        parent,
        first_ancestor-parent pf e e',
        node_set_from_state_transition_proofs-IsTransition T parent.root (L.rpc_block_root pf.block)
            pf.pre_state_proofs pf.post_state_proofs (context-eq-ok _ _ made),
      )

  prepare_exec_params-state :
      (db : C.Db) (pf : PreflightData L) {block : E.Block} {state : E.StateDb} {parent : Header}
      → get_elem? (items pf.ancestors) 0 ≡ some (some parent)
      → prepare_exec_params L db pf ≡ ok (block, state)
      → (L.to_block pf.block ≡ block) × (L.new_state db parent.root ≡ ok state)
  unfolding prepare_exec_params
  prepare_exec_params-state db pf {block} {state} {parent} first h =
      let h' : (do
        st ← context "failed to create pre-state from parent root" (L.new_state db parent.root)
        ok (L.to_block pf.block, st))
          ≡ ok (block, state) =
        rw first at h in
      let (st, e, e') =
        >>=-eq-ok _
          (context "failed to create pre-state from parent root" (L.new_state db parent.root)) h' in
      let same : ◌≡◌ {A = E.Block × E.StateDb} (L.to_block pf.block, st) (block, state) =
        ok_inj e' in
      (
        ap (λ (p : E.Block × E.StateDb). p.0) same,
        context-eq-ok "failed to create pre-state from parent root" (L.new_state db parent.root) e
            ∙ ap (λ (p : E.Block × E.StateDb). ok p.1) same,
      )

  -- The steps of `prepare`, and their results.
  abbrev pub Steps : PreflightData L → ProverInput G.Transaction → Type 0
  Steps pf inputs =
      (hc : E.HeaderChain) × (parent : Header) × (genesis db : C.Db) × (state final : E.StateDb)
      × (res : Option E.ProcessResult) × (w : StateWitness) × (get_elem? (items pf.ancestors) 0
          ≡ some (some parent))
      × ProofsValid parent.root pf
      × (new_chain C pf.chain_config C.new_memory_database ≡ ok (hc, genesis))
      × (prepare_pre_state L hc genesis pf ≡ ok db)
      × (L.new_state db parent.root ≡ ok state)
      × (run E hc (L.to_block pf.block) true state ≡ ok (res, final))
      × Validated E hc (L.to_block pf.block) res
      × (L.witness final ≡ some w)
      × (inputs ≡ prover_input_of L hc (L.to_block pf.block) w)

  prepare_prover_input-witness :
      (hc : E.HeaderChain) (block : E.Block) (final : E.StateDb)
      {inputs : ProverInput G.Transaction}
      → prepare_prover_input L hc block final ≡ ok inputs
      → (w : StateWitness) × (L.witness final ≡ some w) × (inputs ≡ prover_input_of L hc block w)
  unfolding prepare_prover_input
  prepare_prover_input-witness hc block final {inputs} h = of (L.witness final) h
    where
      of :
          (o : Option StateWitness)
          → (do w ← deref o; ok (prover_input_of L hc block w)) ≡ ok inputs
          → (w : StateWitness) × (o ≡ some w) × (inputs ≡ prover_input_of L hc block w)
      of none h = cc
      of (some w) h = (w, refl, sym (ok_inj h))

  -- A success of `prepare` went through these steps.
  pub prepare-Steps :
      (pf : PreflightData L) {inputs : ProverInput G.Transaction}
      → prepare L pf ≡ ok inputs
      → Steps pf inputs
  unfolding prepare
  prepare-Steps pf h =
      let (c, chained, h1) =
        >>=-eq-ok _
          (context "failed to prepare validation context"
            (context "failed to create chain" (new_chain C pf.chain_config C.new_memory_database)))
          h in
      let (db, filled, h2) =
        >>=-eq-ok _
          (context "failed to prefill validation database" (prepare_pre_state L c.0 c.1 pf)) h1 in
      let (p, made, h3) =
        >>=-eq-ok _
          (context "failed to prepare validation exec params" (prepare_exec_params L db pf)) h2 in
      let (r, ran, h4) =
        >>=-eq-ok _
          (context "validation execution failed"
            (context "failed to execute block" (run E c.0 p.0 true p.1)))
          h3 in
      let (parent, first, valid) =
        prepare_pre_state-valid c.0 c.1 pf
          (context-eq-ok _ (prepare_pre_state L c.0 c.1 pf) filled) in
      let (same, opened) =
        prepare_exec_params-state db pf first
          (context-eq-ok _ (prepare_exec_params L db pf) made) in
      let ran' =
        context-eq-ok "failed to execute block" (run E c.0 p.0 true p.1)
          (context-eq-ok _ (context "failed to execute block" (run E c.0 p.0 true p.1)) ran) in
      let (w, has, is) = prepare_prover_input-witness c.0 p.0 r.1 h4 in
      rw same (
        c.0,
        parent,
        c.1,
        db,
        p.1,
        r.1,
        r.0,
        w,
        first,
        valid,
        context-eq-ok "failed to create chain" (new_chain C pf.chain_config C.new_memory_database) (
            context-eq-ok "failed to prepare validation context"
              (context "failed to create chain" (new_chain C pf.chain_config C.new_memory_database))
              chained),
        context-eq-ok "failed to prefill validation database" (prepare_pre_state L c.0 c.1 pf)
            filled,
        opened,
        ran',
        run-Validated E c.0 p.0 p.1 ran',
        has,
        is,
      )
