-- ===== src/Service/Commands.antt =====
-- The commands of src/service.go: `Generate`, `Preflight`, `Prepare` and `Execute` on the two stores. A
-- nil RPC client panics when the preflight calls it.
pub mod Sequence
pub mod Generated
pub mod Tests
use zk_pig.Base.{
  ℕ, ℤ, Option, none, some, List, [], ◌∷◌, Bool, true, false, if◌then◌else◌, Bytes, Outcome, ok,
  err, panic, error, ◌>>=◌, ◌>>◌, context, deref,
}
use zk_pig.Geth.Interface.{Geth}
use zk_pig.Input.{ProverInput}
use zk_pig.Trie.Interface.{TrieLib}
use zk_pig.State.Rpc.{RpcLib}
use zk_pig.Evm.Interface.{EvmLib}
use zk_pig.Ethdb.Rpcdb.{RpcdbLib}
use zk_pig.Chain.{ChainLib}
use zk_pig.Generator.Interface.{GenLib}
use zk_pig.Generator.Preflight.{PreflightData, run_preflight}
use zk_pig.Generator.Prepare.{run_prepare}
use zk_pig.Generator.Execute.{execute_input}
use zk_pig.Store.{ContentType, StoreLib, uint64}
use zk_pig.Store.ProverInputs.{InputCodec, store_prover_input, load_prover_input}
use zk_pig.Store.PreflightData.{PreflightCodec, store_preflight_data, load_preflight_data}
use zk_pig.Service.{ServiceLib, Service}

-- The parts of the service: the generator's libraries, and the two stores.
pub record Parts {G : Geth} {T : TrieLib} {R : RpcLib} {E : EvmLib} {C : ChainLib E.HeaderChain}
    (L : GenLib G T R E C) : Type 1 where
  pub remote_db : RpcdbLib
  pub preflight_store : StoreLib
  -- JSON of preflight data
  pub preflight_encode : PreflightData L → Outcome Bytes
  pub preflight_decode : preflight_store.Reader → Outcome (PreflightData L)
  pub input_store : StoreLib
  pub input_codec : InputCodec G input_store
  pub content_type : ContentType

module _ {G : Geth} {T : TrieLib} {R : RpcLib} {E : EvmLib} {C : ChainLib E.HeaderChain}
    {L : GenLib G T R E C} (P : Parts L) where
  abbrev pub preflight_codec : PreflightCodec (PreflightData L) P.preflight_store
  preflight_codec = record {
    number = λ pf. L.rpc_block_number pf.block;
    chain_config = λ pf. pf.chain_config;
    encode = P.preflight_encode;
    decode = P.preflight_decode;
  }

  -- What lies in the two stores.
  pub record Disks : Type 0 where
    pub preflights : P.preflight_store.World
    pub inputs : P.input_store.World

  -- The rest of a function behind a call that may have changed the stores.
  abbrev pub followed_by :
      {A B : Type 0} → Outcome A × Disks → (A → Disks → Outcome B × Disks) → Outcome B × Disks
  followed_by (ok a, ds) rest = rest a ds
  followed_by (err e, ds) rest = (err e, ds)
  followed_by (panic, ds) rest = (panic, ds)

  abbrev pub chain_id_missing : {A : Type 0} → Disks → Outcome A × Disks
  chain_id_missing ds = (err (error "chain ID missing"), ds)

  abbrev pub with_chain_id : {A : Type 0} → Option ℤ → Disks → Outcome A × Disks → Outcome A × Disks
  with_chain_id none ds rest = chain_id_missing ds
  with_chain_id (some chain_id) ds rest = rest

module _ {V : ServiceLib} {G : Geth} {T : TrieLib} {R : RpcLib} {E : EvmLib}
    {C : ChainLib E.HeaderChain} {L : GenLib G T R E C} (P : Parts L) where
  -- `s.preflight`
  unfoldable pub preflight_step :
      Service V → Option ℤ → Disks P → Outcome (PreflightData L) × Disks P
  preflight_step s block_number ds =
      followed_by P
        (
          if s.cfg_chain_rpc
              then context "failed to execute preflight" (run_preflight L P.remote_db block_number)
              else panic,
          ds,
        )
        (λ pf ds'.
          let (done, w) =
            store_preflight_data P.preflight_store (preflight_codec P) ds'.preflights pf in
          (
            context "failed to store preflight data" done >> ok pf,
            record { preflights = w; inputs = ds'.inputs },
          ))

  -- `s.prepare`
  unfoldable pub prepare_step : Service V → Option ℤ → Disks P → Outcome (Unit {0}) × Disks P
  prepare_step s block_number ds =
      followed_by P
        (
          do
            chain_id ← deref s.chain_id
            number ← deref block_number
            pf ← context "failed to load preflight data" (
                load_preflight_data P.preflight_store (preflight_codec P) ds.preflights
                  (uint64 chain_id) (uint64 number))
            context "failed to prepare provable inputs" (run_prepare L pf),
          ds,
        )
        (λ inputs ds'.
          let (done, w) =
            store_prover_input G P.input_store P.input_codec P.content_type ds'.inputs
              (some inputs) in
          (
            context "failed to store provable inputs" done,
            record { preflights = ds'.preflights; inputs = w },
          ))

  -- `s.execute`
  unfoldable pub execute_step : Service V → Option ℤ → Disks P → Outcome (Unit {0}) × Disks P
  execute_step s block_number ds = (
    do
      chain_id ← deref s.chain_id
      number ← deref block_number
      loaded ← context "failed to load provable inputs" (
          load_prover_input G P.input_store P.input_codec P.content_type ds.inputs (uint64 chain_id)
            (uint64 number))
      inputs ← deref loaded
      _ ← context "failed to execute block on provable inputs" (execute_input L inputs)
      ok tt,
    ds,
  )

  -- `Preflight`
  unfoldable pub preflight_command : Service V → Option ℤ → Disks P → Outcome (Unit {0}) × Disks P
  unfolding preflight_step
  preflight_command s block_number ds =
      followed_by P (preflight_step s block_number ds) (λ pf ds'. (ok tt, ds'))

  -- `Prepare`
  unfoldable pub prepare_command : Service V → Option ℤ → Disks P → Outcome (Unit {0}) × Disks P
  unfolding prepare_step
  prepare_command s block_number ds = with_chain_id P s.chain_id ds (prepare_step s block_number ds)

  -- `Execute`
  unfoldable pub execute_command : Service V → Option ℤ → Disks P → Outcome (Unit {0}) × Disks P
  unfolding execute_step
  execute_command s block_number ds = with_chain_id P s.chain_id ds (execute_step s block_number ds)

  -- `Generate`: the preflight runs a second time, at the number of the block that the first one found.
  unfoldable pub generate : Service V → Option ℤ → Disks P → Outcome (Unit {0}) × Disks P
  unfolding preflight_step prepare_step execute_step
  generate s block_number ds = followed_by P (preflight_step s block_number ds) (λ pf ds1.
      let number = L.rpc_block_number pf.block in
      with_chain_id P s.chain_id ds1 (
        followed_by P (preflight_step s number ds1) (λ pf' ds2.
          followed_by P (prepare_step s number ds2) (λ done ds3. execute_step s number ds3))))
