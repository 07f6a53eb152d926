-- ===== src/Generator/Preflight/Complete.antt =====
-- From the execution of `preflight` in src/generator/preflight.go to the proofs that it returns.
use zk_pig.Base.{
  Option, some, List, map, filter, false, ok, context, deref, deref-eq-ok, >>=-eq-ok, context-eq-ok,
  ok_inj, map_each, ◌≡◌, sym, ap, subst,
}
use zk_pig.Geth.Types.{Hash, Address, Header, ChainConfig}
use zk_pig.Geth.Interface.{Geth}
use zk_pig.Trie.Interface.{TrieLib}
use zk_pig.Trie.Proofs.{AccountProof}
use zk_pig.State.Tracker.{AccessTracker}
use zk_pig.State.Rpc.{RpcLib}
use zk_pig.Evm.Interface.{EvmLib}
use zk_pig.Ethdb.Rpcdb.{RpcdbLib, get}
use zk_pig.Chain.{ChainLib, new_chain}
use zk_pig.Generator.Interface.{GenLib, StateWitness, rpc_state}
use zk_pig.Generator.Run.{run, run_state}
use zk_pig.Generator.Preflight.{
  PreflightData, fetch_parent_header, preflight, tracker_of, fetch_state_proofs,
}
use zk_pig.Generator.Preflight.Proofs.{pre_proof, post_proof, is_changed, fetch_accounts-ok}
use zk_pig.Generator.Preflight.Tracked.{Tracks, marked, HoldsAsked, tracker_of-HoldsAsked}

module _ {G : Geth} {T : TrieLib} {R : RpcLib} {E : EvmLib} {C : ChainLib E.HeaderChain}
    (L : GenLib G T R E C) (K : Tracks L) where
  -- The addresses that the loop over the accounts of a tracker visits, in order.
  abbrev pub visited :
      (parent : Header) → AccessTracker (rpc_state R (marked R parent)) → List Address
  visited parent t = map (λ e. e.0) (L.map_order 20 _ t.accounts)

  -- The proofs of the state before and after the block, when the tracker held `t` at the end.
  abbrev pub AreProofsOf :
      (parent : Header)
      → E.Block
      → E.StateDb
      → AccessTracker (rpc_state R (marked R parent))
      → List AccountProof
      → List AccountProof
      → Type 0
  AreProofsOf parent block final t pre post =
      (map_each (pre_proof L final parent.number (some (L.block_number block)) t.storage)
          (visited parent t)
        ≡ ok pre)
      × (map_each (post_proof L final parent.number (some (L.block_number block)) t.storage) (
            filter (is_changed L final parent.number (some (L.block_number block)) t.storage)
              (visited parent t))
          ≡ ok post)

  fetch_state_proofs-AreProofsOf :
      (parent : Header) (block : E.Block) (final : E.StateDb) {pre post : List AccountProof}
      → K.IsTracked (marked R parent) parent.root final
      → fetch_state_proofs L (marked R parent) parent block final ≡ ok (pre, post)
      → (t : AccessTracker (rpc_state R (marked R parent))) × (tracker_of L
            (marked R parent)
            final
            parent.root
          ≡ ok t)
        × ((addr : Address) (slot : Hash) → HoldsAsked L K parent final t addr slot)
        × AreProofsOf parent block final t pre post
  unfolding fetch_state_proofs
  fetch_state_proofs-AreProofsOf parent block final {pre} {post} tr h =
      let (t, e, e') = >>=-eq-ok _ (tracker_of L (marked R parent) final parent.root) h in
      (
        t,
        e,
        tracker_of-HoldsAsked L K parent final tr e,
        fetch_accounts-ok L final parent.number (some (L.block_number block)) t.storage
            (visited parent t) pre post e',
      )

module _ {G : Geth} {T : TrieLib} {R : RpcLib} {E : EvmLib} {C : ChainLib E.HeaderChain}
    (L : GenLib G T R E C) (D : RpcdbLib) (K : Tracks L) where
  -- How the data of a preflight came about.
  abbrev pub IsCollected : Option ChainConfig → E.Block → PreflightData L → Type 0
  IsCollected cfg block pf =
      (hc : E.HeaderChain) × (parent : Header) × (state final : E.StateDb) × (res : Option
        E.ProcessResult)
      × (t : AccessTracker (rpc_state R (marked R parent))) × (witness : StateWitness) × (db : C.Db)
      × (new_chain C cfg (L.with_get C.new_memory_database (get D)) ≡ ok (hc, db))
      × (fetch_parent_header L D hc block ≡ ok parent)
      × (L.new_remote_state (marked R parent) parent.root ≡ ok state)
      × (run E hc block false state ≡ ok (res, final))
      × (tracker_of L (marked R parent) final parent.root ≡ ok t)
      × ((addr : Address) (slot : Hash) → HoldsAsked L K parent final t addr slot)
      × AreProofsOf L K parent block final t pf.pre_state_proofs pf.post_state_proofs
      × (L.witness final ≡ some witness)
      × (pf.ancestors ≡ witness.headers)
      × (pf.codes ≡ witness.codes)
      × (pf.block ≡ L.from_block block cfg)
      × (pf.chain_config ≡ cfg)

  pub preflight-IsCollected :
      (cfg : Option ChainConfig) (block : E.Block) {pf : PreflightData L}
      → preflight L D cfg block ≡ ok pf
      → IsCollected cfg block pf
  unfolding preflight
  preflight-IsCollected cfg block {pf} h =
      let (c, chained, h1) =
        >>=-eq-ok _
          (context "failed to create chain"
            (new_chain C cfg (L.with_get C.new_memory_database (get D))))
          h in
      let (parent, e, h2) = >>=-eq-ok _ (fetch_parent_header L D c.0 block) h1 in
      let (state, e', h3) =
        >>=-eq-ok _
          (context "failed to create state from parent root"
            (L.new_remote_state (marked R parent) parent.root))
          h2 in
      let (r, e'', h4) =
        >>=-eq-ok _ (context "failed to execute block" (run E c.0 block false state)) h3 in
      let (proofs, e3, h5) =
        >>=-eq-ok _ (fetch_state_proofs L (marked R parent) parent block r.1) h4 in
      let (w, has, h6) = >>=-eq-ok _ (deref (L.witness r.1)) h5 in
      let opened =
        context-eq-ok "failed to create state from parent root"
          (L.new_remote_state (marked R parent) parent.root) e' in
      let ran = context-eq-ok "failed to execute block" (run E c.0 block false state) e'' in
      let tracked =
        run_state E (K.IsTracked (marked R parent) parent.root)
          (K.execution (marked R parent) parent.root) c.0 block false state ran
          (K.new_remote_state-IsTracked (marked R parent) parent.root opened) in
      let (t, at, holds, are) = fetch_state_proofs-AreProofsOf L K parent block r.1 tracked e3 in
      let same = ok_inj h6 in
      (
        c.0,
        parent,
        state,
        r.1,
        r.0,
        t,
        w,
        c.1,
        context-eq-ok "failed to create chain"
            (new_chain C cfg (L.with_get C.new_memory_database (get D))) chained,
        e,
        opened,
        ran,
        at,
        holds,
        subst
            (λ (d : PreflightData L).
              AreProofsOf L K parent block r.1 t d.pre_state_proofs d.post_state_proofs)
            same are,
        deref-eq-ok (L.witness r.1) has,
        ap (λ (d : PreflightData L). d.ancestors) (sym same),
        ap (λ (d : PreflightData L). d.codes) (sym same),
        ap (λ (d : PreflightData L). d.block) (sym same),
        ap (λ (d : PreflightData L). d.chain_config) (sym same),
      )
