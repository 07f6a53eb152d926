-- ===== src/Generator/Execute/Success.antt =====
-- What the success of the executor in src/generator/execute.go says: the database under the block's
-- execution held the witness.
use zk_pig.Base.{
  Option, none, some, List, [], ◌∷◌, items, true, false, Bool-cases, inl, inr, array_eq, Outcome,
  ok, err, Error, context, deref, deref-eq-ok, >>=-eq-ok, context-eq-ok, ok_inj, get_elem?, ◌≡◌,
  refl, ap, ◌∙◌,
}
use zk_pig.Geth.Types.{Hash, Header}
use zk_pig.Geth.Interface.{Geth}
use zk_pig.Input.{Witness, Block, ProverInput}
use zk_pig.Trie.Interface.{TrieLib}
use zk_pig.State.Rpc.{RpcLib}
use zk_pig.Evm.Interface.{EvmLib}
use zk_pig.Chain.{ChainLib, new_chain, write_headers, write_codes}
use zk_pig.Chain.Written.{
  IsLawful, last_blob, last_header, read_code-write_codes, read_header-write_codes,
  read_node-write_codes, read_node-write_nodes, read_code-write_nodes, read_header-write_nodes,
  read-write_headers,
}
use zk_pig.Generator.Interface.{GenLib}
use zk_pig.Generator.Run.{run, Validated, run-Validated}
use zk_pig.Generator.Execute.{
  to_geth_block, opened_at, prefill, exec_params_of, execute_first, execute_blocks, execute_input,
}

module _ {G : Geth} {T : TrieLib} {R : RpcLib} {E : EvmLib} {C : ChainLib E.HeaderChain}
    (L : GenLib G T R E C) where
  -- Codes, nodes and headers are found by their hashes, and beside them what was there before.
  abbrev pub Holds : Witness → C.Db → C.Db → Type 0
  Holds w before after =
      (k : Hash)
      → (C.read_code after k ≡ last_blob C k (items w.codes) (C.read_code before k))
        × (C.read_legacy_trie_node after k
            ≡ last_blob C k (items w.state) (C.read_legacy_trie_node before k))
        × (C.read_header after k ≡ last_header C k (items w.ancestors) (C.read_header before k))

  -- The first ancestor opened the state, and is not the block.
  abbrev pub IsOpened : C.Db → Block G.Transaction → Header → Witness → E.Block → E.StateDb → Type 0
  IsOpened db b header w block state =
      (parent : Header) × (get_elem? (items w.ancestors) 0 ≡ some (some parent))
      × (array_eq (C.header_hash parent) (C.header_hash header) ≡ false)
      × (L.new_state db parent.root ≡ ok state)
      × (to_geth_block L b ≡ ok block)

  pub prefill-Holds :
      (K : IsLawful C) (db : C.Db) (w : Witness) {db' : C.Db}
      → prefill L db w ≡ ok db'
      → Holds w db db'
  unfolding prefill
  prefill-Holds K db w h k =
      let (db1, e, e') = >>=-eq-ok _ (write_headers C db (items w.ancestors)) h in
      let db2 = write_codes C db1 (items w.codes) in
      let (header, code, node) = read-write_headers C K (items w.ancestors) db e k in
      rw (← ok_inj e') (
        read_code-write_nodes C K (items w.state) db2 k
            ∙ read_code-write_codes C K (items w.codes) db1 k
            ∙ ap (last_blob C k (items w.codes)) code,
        read_node-write_nodes C K (items w.state) db2 k
            ∙ ap (last_blob C k (items w.state))
                (read_node-write_codes C K (items w.codes) db1 k ∙ node),
        read_header-write_nodes C K (items w.state) db2 k
            ∙ read_header-write_codes C K (items w.codes) db1 k
            ∙ header,
      )

  opened_by :
      (db : C.Db) (b : Block G.Transaction) (parent : Header) {block : E.Block} {state : E.StateDb}
      → opened_at L db b parent ≡ ok (block, state)
      → (L.new_state db parent.root ≡ ok state) × (to_geth_block L b ≡ ok block)
  opened_by db b parent {block} {state} h =
      let (st, e, h1) =
        >>=-eq-ok _
          (context "failed to create pre-state from parent root" (L.new_state db parent.root)) h in
      let (bl, e', h2) = >>=-eq-ok _ (to_geth_block L b) h1 in
      let same : ◌≡◌ {A = E.Block × E.StateDb} (bl, st) (block, state) = ok_inj h2 in
      (
        context-eq-ok _ (L.new_state db parent.root) e
            ∙ ap (λ (p : E.Block × E.StateDb). ok p.1) same,
        e' ∙ ap (λ (p : E.Block × E.StateDb). ok p.0) same,
      )

  not_ok : {A : Type 0} (a : A) (e : Error) → ◌≡◌ {A = Outcome A} (err e) (ok a) → ⊥
  not_ok a e h = cc

  exec_params_of-IsOpened :
      (db : C.Db) (b : Block G.Transaction) (header : Header) (w : Witness) {block : E.Block}
      {state : E.StateDb}
      → exec_params_of L db b header (items w.ancestors) ≡ ok (block, state)
      → IsOpened db b header w block state
  unfolding exec_params_of
  exec_params_of-IsOpened db b header w {block} {state} h = of (items w.ancestors) h
    where
      of :
          (ancestors : List (Option Header))
          → exec_params_of L db b header ancestors ≡ ok (block, state)
          → (parent : Header) × (get_elem? ancestors 0 ≡ some (some parent))
            × (array_eq (C.header_hash parent) (C.header_hash header) ≡ false)
            × (L.new_state db parent.root ≡ ok state)
            × (to_geth_block L b ≡ ok block)
      of [] h = cc
      of (none ∷ others) h = cc
      of (some parent ∷ others) h =
          elim (Bool-cases (array_eq (C.header_hash parent) (C.header_hash header))) [
            | inl same ↦ absurd (not_ok _ _ (rw same at h))
            | inr other ↦
                let (opened, is) = opened_by db b parent (rw other at h) in
                (parent, refl, other, opened, is)
          ]

  -- What was executed, when the executor succeeds.
  abbrev pub IsExecutedFirst :
      ProverInput G.Transaction
      → List (Option (Block G.Transaction))
      → Option E.ProcessResult
      → E.StateDb
      → Type 0
  IsExecutedFirst inputs blocks res final =
      (b : Block G.Transaction) × (header : Header) × (w : Witness) × (hc : E.HeaderChain) × (before
        after : C.Db)
      × (block : E.Block) × (state : E.StateDb) × (get_elem? blocks 0 ≡ some (some b))
      × (b.header ≡ some header)
      × (inputs.witness ≡ some w)
      × (new_chain C inputs.chain_config C.new_memory_database ≡ ok (hc, before))
      × Holds w before after
      × IsOpened after b header w block state
      × (run E hc block true state ≡ ok (res, final))
      × Validated E hc block res

  abbrev pub IsExecuted : ProverInput G.Transaction → Option E.ProcessResult → E.StateDb → Type 0
  IsExecuted inputs res final = IsExecutedFirst inputs (items inputs.blocks) res final

  -- When the generator's executor succeeds, the database under the execution finds every code,
  -- trie node and header of the witness by its hash, and beside them what the genesis left, the
  -- state was opened at the root of the first ancestor, whose hash is not the block's, and the
  -- block was processed on some state without an error, where the validator accepted the result
  -- and the state that was left.
  pub execute_input-IsExecuted :
      IsLawful C
      → (inputs : ProverInput G.Transaction) {res : Option E.ProcessResult} {final : E.StateDb}
      → execute_input L inputs ≡ ok (res, final)
      → IsExecuted inputs res final
  unfolding execute_input execute_blocks execute_first
  execute_input-IsExecuted K inputs {res} {final} h = of (items inputs.blocks) h
    where
      of :
          (blocks : List (Option (Block G.Transaction)))
          → execute_blocks L inputs blocks ≡ ok (res, final)
          → IsExecutedFirst inputs blocks res final
      of [] h = cc
      of (first ∷ others) h =
          let (_, _, h1) = >>=-eq-ok _ (deref inputs.chain_config) h in
          let (b, is_b, h2) = >>=-eq-ok _ (deref first) h1 in
          let (header, is_header, h3) = >>=-eq-ok _ (deref b.header) h2 in
          let (_, _, h4) = >>=-eq-ok _ (deref header.number) h3 in
          let (c, chained, h5) =
            >>=-eq-ok _
              (context "failed to prepare execution context" (
                context "failed to create chain"
                  (new_chain C inputs.chain_config C.new_memory_database)))
              h4 in
          let (w, is_w, h6) = >>=-eq-ok _ (deref inputs.witness) h5 in
          let (db, filled, h7) = >>=-eq-ok _ (prefill L c.1 w) h6 in
          let (p, made, h8) =
            >>=-eq-ok _
              (context "failed to prepare execution exec params"
                (exec_params_of L db b header (items w.ancestors)))
              h7 in
          let ran = context-eq-ok "failed to execute block" (run E c.0 p.0 true p.1) h8 in
          (
            b,
            header,
            w,
            c.0,
            c.1,
            db,
            p.0,
            p.1,
            ap some (deref-eq-ok first is_b),
            deref-eq-ok b.header is_header,
            deref-eq-ok inputs.witness is_w,
            context-eq-ok "failed to create chain"
                (new_chain C inputs.chain_config C.new_memory_database)
                (context-eq-ok "failed to prepare execution context"
                  (context "failed to create chain"
                    (new_chain C inputs.chain_config C.new_memory_database))
                  chained),
            prefill-Holds K c.1 w filled,
            exec_params_of-IsOpened db b header w
                (context-eq-ok _ (exec_params_of L db b header (items w.ancestors)) made),
            ran,
            run-Validated E c.0 p.0 p.1 ran,
          )
