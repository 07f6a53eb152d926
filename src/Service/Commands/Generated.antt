-- ===== src/Service/Commands/Generated.antt =====
-- What `Generate` of src/service.go has left in the stores when it succeeds.
use zk_pig.Base.{
  ◌>>◌, Bool, true, false, if◌then◌else◌, ℤ, Option, none, some, Outcome, ok, err, panic, context,
  deref, deref-eq-ok, >>=-eq-ok, context-eq-ok, ◌≡◌, refl, sym, ap, subst, ◌∙◌,
}
use zk_pig.Geth.Interface.{Geth}
use zk_pig.Input.{ProverInput}
use zk_pig.Trie.Interface.{TrieLib}
use zk_pig.State.Rpc.{RpcLib}
use zk_pig.Evm.Interface.{EvmLib}
use zk_pig.Chain.{ChainLib}
use zk_pig.Chain.Written.{IsLawful}
use zk_pig.Generator.Interface.{GenLib}
use zk_pig.Generator.Preflight.{PreflightData, run_preflight}
use zk_pig.Generator.Prepare.{run_prepare}
use zk_pig.Generator.Prepare.Made.{IsMadeFrom, prepare-IsMadeFrom}
use zk_pig.Generator.Execute.{execute_input}
use zk_pig.Generator.Execute.Success.{IsExecuted, execute_input-IsExecuted}
use zk_pig.Store.{uint64}
use zk_pig.Store.ProverInputs.{store_prover_input, load_prover_input}
use zk_pig.Store.PreflightData.{load_preflight_data}
use zk_pig.Service.{ServiceLib, Service}
use zk_pig.Service.Commands.{
  Parts, Disks, preflight_codec, followed_by, with_chain_id, preflight_step, prepare_step,
  execute_step, generate,
}

module _ {G : Geth} {T : TrieLib} {R : RpcLib} {E : EvmLib} {C : ChainLib E.HeaderChain}
    {L : GenLib G T R E C} (P : Parts L) where
  followed_by-eq-ok :
      {A B : Type 0} (x : Outcome A × Disks P) (rest : A → Disks P → Outcome B × Disks P) {b : B}
      {ds' : Disks P}
      → followed_by P x rest ≡ (ok b, ds')
      → (a : A) × (ds : Disks P) × (x ≡ (ok a, ds)) × (rest a ds ≡ (ok b, ds'))
  followed_by-eq-ok (ok a, ds) rest h = (a, ds, refl, h)
  followed_by-eq-ok (err e, ds) rest h = cc
  followed_by-eq-ok (panic, ds) rest h = cc

  with_chain_id-eq-ok :
      {A : Type 0} (o : Option ℤ) (ds : Disks P) (rest : Outcome A × Disks P) {a : A}
      {ds' : Disks P}
      → with_chain_id P o ds rest ≡ (ok a, ds')
      → (chain_id : ℤ) × (o ≡ some chain_id) × (rest ≡ (ok a, ds'))
  with_chain_id-eq-ok none ds rest h = cc
  with_chain_id-eq-ok (some c) ds rest h = (c, refl, h)

  outcome_of : {A : Type 0} {x y : Outcome A × Disks P} → x ≡ y → (x.0 ≡ y.0) × (x.1 ≡ y.1)
  outcome_of h = (ap (λ p. p.0) h, ap (λ p. p.1) h)

some_inj : {A : Type 0} {a b : A} → some a ≡ some b → a ≡ b
some_inj h = cc

module _ {V : ServiceLib} {G : Geth} {T : TrieLib} {R : RpcLib} {E : EvmLib}
    {C : ChainLib E.HeaderChain} {L : GenLib G T R E C} (P : Parts L) (s : Service V) where
  -- The preflight data of the block is in its store, the prover input was made from it, and storing that
  -- prover input gave the store of prover inputs.
  abbrev pub IsPrepared : ℤ → ℤ → Disks P → Type 0
  IsPrepared chain_id number ds =
      (pf : PreflightData L) × (made : ProverInput G.Transaction) × (earlier : P.input_store.World)
      × (load_preflight_data P.preflight_store (preflight_codec P) ds.preflights (uint64 chain_id)
            (uint64 number)
          ≡ ok pf)
      × IsMadeFrom L pf made
      × (store_prover_input G P.input_store P.input_codec P.content_type earlier (some made)
          ≡ (ok tt, ds.inputs))

  -- The prover input of the block is in its store, and it was executed.
  abbrev pub IsProvable : ℤ → ℤ → Disks P → Type 0
  IsProvable chain_id number ds =
      (inputs : ProverInput G.Transaction) × (res : Option E.ProcessResult) × (final : E.StateDb)
      × (load_prover_input G P.input_store P.input_codec P.content_type ds.inputs (uint64 chain_id)
            (uint64 number)
          ≡ ok (some inputs))
      × IsExecuted L inputs res final

  run_prepare-IsMadeFrom :
      IsLawful C
      → (pf : PreflightData L) {made : ProverInput G.Transaction} → run_prepare L pf ≡ ok made
      → IsMadeFrom L pf made
  unfolding run_prepare
  run_prepare-IsMadeFrom K pf h =
      let (_, _, h1) = >>=-eq-ok _ (deref pf.chain_config) h in
      let (_, _, h2) = >>=-eq-ok _ (deref (L.rpc_block_number pf.block)) h1 in
      prepare-IsMadeFrom L K pf h2

  prepare_step-IsPrepared :
      IsLawful C
      → (n : Option ℤ) (ds : Disks P) {ds' : Disks P} → prepare_step P s n ds ≡ (ok tt, ds')
      → (chain_id number : ℤ) × (s.chain_id ≡ some chain_id)
        × (n ≡ some number)
        × IsPrepared chain_id number ds'
  unfolding prepare_step
  prepare_step-IsPrepared K n ds {ds'} h =
      let (made, ds1, e, stored) = followed_by-eq-ok P _ _ h in
      let (e0, e1) = outcome_of P e in
      let (chain_id, is_chain, h1) = >>=-eq-ok _ (deref s.chain_id) e0 in
      let (number, is_number, h2) = >>=-eq-ok _ (deref n) h1 in
      let (pf, loaded, h3) =
        >>=-eq-ok _
          (context "failed to load preflight data" (
            load_preflight_data P.preflight_store (preflight_codec P) ds.preflights
              (uint64 chain_id) (uint64 number)))
          h2 in
      let store =
        store_prover_input G P.input_store P.input_codec P.content_type ds1.inputs (some made) in
      let (s0, s1) = outcome_of P stored in
      let done : store.0 ≡ ok tt = context-eq-ok "failed to store provable inputs" store.0 s0 in
      let left : store.1 ≡ ds'.inputs = ap (λ (d : Disks P). d.inputs) s1 in
      let same : ds.preflights ≡ ds'.preflights =
        ap (λ (d : Disks P). d.preflights) e1
        ∙ ap (λ (d : Disks P). d.preflights) (outcome_of P stored).1 in
      (
        chain_id,
        number,
        deref-eq-ok s.chain_id is_chain,
        deref-eq-ok n is_number,
        (
          pf,
          made,
          ds1.inputs,
          ap
                (λ (w : P.preflight_store.World).
                  load_preflight_data P.preflight_store (preflight_codec P) w (uint64 chain_id)
                    (uint64 number))
                (sym same)
              ∙ context-eq-ok "failed to load preflight data" _ loaded,
          run_prepare-IsMadeFrom K pf
              (context-eq-ok "failed to prepare provable inputs" (run_prepare L pf) h3),
          λ i. (done i, left i),
        ),
      )

  execute_step-IsProvable :
      IsLawful C
      → (n : Option ℤ) (ds : Disks P) {ds' : Disks P} → execute_step P s n ds ≡ (ok tt, ds')
      → (chain_id number : ℤ) × (s.chain_id ≡ some chain_id)
        × (n ≡ some number)
        × IsProvable chain_id number ds'
  unfolding execute_step
  execute_step-IsProvable K n ds {ds'} h =
      let (e0, e1) = outcome_of P h in
      let (chain_id, is_chain, h1) = >>=-eq-ok _ (deref s.chain_id) e0 in
      let (number, is_number, h2) = >>=-eq-ok _ (deref n) h1 in
      let (loaded, is_loaded, h3) =
        >>=-eq-ok _
          (context "failed to load provable inputs" (
            load_prover_input G P.input_store P.input_codec P.content_type ds.inputs
              (uint64 chain_id) (uint64 number)))
          h2 in
      let (inputs, is_inputs, h4) = >>=-eq-ok _ (deref loaded) h3 in
      let (r, executed, _) =
        >>=-eq-ok _ (context "failed to execute block on provable inputs" (execute_input L inputs))
          h4 in
      (
        chain_id,
        number,
        deref-eq-ok s.chain_id is_chain,
        deref-eq-ok n is_number,
        (
          inputs,
          r.0,
          r.1,
          ap
                (λ (d : Disks P).
                  load_prover_input G P.input_store P.input_codec P.content_type d.inputs
                    (uint64 chain_id) (uint64 number))
                (sym e1)
              ∙ context-eq-ok "failed to load provable inputs" _ is_loaded
              ∙ ap ok (deref-eq-ok loaded is_inputs),
          execute_input-IsExecuted L K inputs (
              context-eq-ok "failed to execute block on provable inputs" (execute_input L inputs)
                executed),
        ),
      )

  -- Executing leaves the stores as they are.
  execute_step_disks : (n : Option ℤ) (ds : Disks P) → (execute_step P s n ds).1 ≡ ds
  unfolding execute_step
  execute_step_disks n ds = refl

  -- Data that a step returned is that of a preflight.
  preflight_step-run_preflight :
      (n : Option ℤ) (ds : Disks P) {pf : PreflightData L} {ds' : Disks P}
      → preflight_step P s n ds ≡ (ok pf, ds')
      → run_preflight L P.remote_db n ≡ ok pf
  unfolding preflight_step
  preflight_step-run_preflight n ds {pf} h =
      let (pf', ds1, e, stored) = followed_by-eq-ok P _ _ h in
      let ran = gated s.cfg_chain_rpc (run_preflight L P.remote_db n) (outcome_of P e).0 in
      ran ∙ behind _ (outcome_of P stored).0
    where
      behind :
          {pf' : PreflightData L} (o : Outcome (Unit {0}))
          → (context "failed to store preflight data" o >> ok pf') ≡ ok pf
          → ok pf' ≡ ok pf
      behind (ok u) e = e
      behind (err x) e = cc
      behind panic e = cc

      gated :
          (test : Bool) (o : Outcome (PreflightData L)) {pf' : PreflightData L}
          → (if test then context "failed to execute preflight" o else panic) ≡ ok pf'
          → o ≡ ok pf'
      gated true o e = context-eq-ok "failed to execute preflight" o e
      gated false o e = cc

  -- When `Generate` succeeds, the service has a chain ID, a preflight of the number that was asked for
  -- gave a block with a number, and the stores hold, under the two, preflight data that a prover input
  -- was made from, which was stored, and a prover input that was executed and validated on its own
  -- witness.
  pub generate-IsProvable :
      IsLawful C
      → (n : Option ℤ) (ds : Disks P) {ds' : Disks P} → generate P s n ds ≡ (ok tt, ds')
      → (chain_id number : ℤ) × (found : PreflightData L) × (s.chain_id ≡ some chain_id)
        × (run_preflight L P.remote_db n ≡ ok found)
        × (L.rpc_block_number found.block ≡ some number)
        × IsPrepared chain_id number ds'
        × IsProvable chain_id number ds'
  unfolding generate
  generate-IsProvable K n ds {ds'} h =
      let (pf, ds1, e, h1) = followed_by-eq-ok P (preflight_step P s n ds) _ h in
      let m = L.rpc_block_number pf.block in
      let (_, _, h2) =
        with_chain_id-eq-ok P s.chain_id ds1
          (followed_by P (preflight_step P s m ds1) (λ pf' ds2.
            followed_by P (prepare_step P s m ds2) (λ done ds3. execute_step P s m ds3)))
          h1 in
      let (pf', ds2, _, h3) = followed_by-eq-ok P (preflight_step P s m ds1) _ h2 in
      let (u, ds3, prepared, h4) = followed_by-eq-ok P (prepare_step P s m ds2) _ h3 in
      let (c, k, is_c, is_k, is_prepared) = prepare_step-IsPrepared K m ds2 prepared in
      let (c', k', is_c', is_k', provable) = execute_step-IsProvable K m ds3 h4 in
      let kept : ds3 ≡ ds' = sym (execute_step_disks m ds3) ∙ (outcome_of P h4).1 in
      let same_c : c' ≡ c = some_inj (sym is_c' ∙ is_c) in
      let same_k : k' ≡ k = some_inj (sym is_k' ∙ is_k) in
      (
        c,
        k,
        pf,
        is_c,
        preflight_step-run_preflight n ds e,
        is_k,
        subst (IsPrepared c k) kept is_prepared,
        subst (λ (x : ℤ). IsProvable x k ds') same_c
            (subst (λ (x : ℤ). IsProvable c' x ds') same_k provable),
      )
