-- ===== src/Generator/Preflight/Tracked.antt =====
-- The trackers of src/ethereum/state below the state database that `preflight` of
-- src/generator/preflight.go executes a block on.
use zk_pig.Base.{
  ℕ, Array, array_eq_refl, none, List, Map, lookup, insert, get_elem?, if◌then◌else◌, ok, ◌>>=◌,
  deref, >>=-eq-ok, ok_inj, ◌≡◌, refl, sym, ap, ◌∙◌, subst,
}
use zk_pig.Geth.Types.{Hash, Address, Header}
use zk_pig.Geth.Interface.{Geth}
use zk_pig.Trie.Interface.{TrieLib}
use zk_pig.State.Interface.{IsLawful}
use zk_pig.State.Tracker.{
  AccessTracker, World, TrackerReader, new_world, get_access_tracker, db_reader,
}
use zk_pig.State.Tracker.Heap.{Read}
use zk_pig.State.Tracker.Exact.{
  asks_account, asks_slot, any_read, given, given_value, performs, slot_at,
}
use zk_pig.State.Tracker.Opened.{db_reader_exact}
use zk_pig.State.Rpc.{
  RpcLib, RpcDatabase, RpcReader, new_rpc_database, mark_block, reader, get_block_number, known,
  reader_account, reader_storage,
}
use zk_pig.Evm.Interface.{EvmLib}
use zk_pig.Evm.Executor.Keeps.{KeptBy}
use zk_pig.Chain.{ChainLib}
use zk_pig.Generator.Interface.{GenLib, rpc_state}
use zk_pig.Generator.Preflight.{tracker_of}

rpc_state-IsLawful : (R : RpcLib) (db : RpcDatabase R) → IsLawful (rpc_state R db)
rpc_state-IsLawful R db = record { copy_account_lem = λ a. refl }

-- What the execution asked the reader of the state database for, and the trackers that it left behind.
pub record Tracks {G : Geth} {T : TrieLib} {R : RpcLib} {E : EvmLib} {C : ChainLib E.HeaderChain}
    (L : GenLib G T R E C) : Type 1 where
  pub reads : E.StateDb → List Read
  pub IsTracked : RpcDatabase R → Hash → E.StateDb → Type 0
  pub tracked :
      (db : RpcDatabase R) (root : Hash) (state : E.StateDb)
      → IsTracked db root state
      → (r : TrackerReader (rpc_state R db)) × (w : World (rpc_state R db)) × (db_reader
            (rpc_state R db)
            (new_world (rpc_state R db))
            root
          ≡ ok (r, w))
        × (L.trackers db state ≡ performs (rpc_state R db) w r (reads state))
  pub new_remote_state-IsTracked :
      (db : RpcDatabase R) (root : Hash) {state : E.StateDb}
      → L.new_remote_state db root ≡ ok state
      → IsTracked db root state
  pub execution : (db : RpcDatabase R) (root : Hash) → KeptBy E (IsTracked db root)
  pub lookup-map_order :
      (n : ℕ) (V : Type 0) (k : Array n) (m : Map n V) → lookup k (L.map_order n V m) ≡ lookup k m

module _ (R : RpcLib) where
  -- The database after the parent was marked.
  abbrev pub marked : Header → RpcDatabase R
  marked parent = mark_block R (new_rpc_database R) parent

  -- The reader of the parent's state asks at the parent's number.
  abbrev pub parent_reader : Header → RpcReader R
  parent_reader parent = record { block_number = parent.number; root = parent.root }

  reader-marked :
      (parent : Header) → reader R (marked parent) parent.root ≡ ok (parent_reader parent)
  unfolding reader get_block_number known mark_block lookup insert
  reader-marked parent = rw array_eq_refl refl

  db_reader-marked :
      (parent : Header) (w : World (rpc_state R (marked parent)))
      {r : TrackerReader (rpc_state R (marked parent))} {w' : World (rpc_state R (marked parent))}
      → db_reader (rpc_state R (marked parent)) w parent.root ≡ ok (r, w')
      → r.reader ≡ parent_reader parent
  unfolding db_reader
  db_reader-marked parent w {r} {w'} h =
      let (x, e, e') = >>=-eq-ok _ (reader R (marked parent) parent.root) h in
      let same : x ≡ parent_reader parent = ok_inj (sym e ∙ reader-marked parent) in
      sym (
        ap
          (λ (p : TrackerReader (rpc_state R (marked parent))
              × World (rpc_state R (marked parent))).
            p.0.reader)
          (ok_inj e'))
      ∙ same

module _ {G : Geth} {T : TrieLib} {R : RpcLib} {E : EvmLib} {C : ChainLib E.HeaderChain}
    (L : GenLib G T R E C) (K : Tracks L) where
  -- The tracker has the accounts and the slots that the execution asked for and the node gave, and
  -- nothing else.
  abbrev pub HoldsAsked :
      (parent : Header)
      → E.StateDb
      → AccessTracker (rpc_state R (marked R parent))
      → Address
      → Hash
      → Type 0
  HoldsAsked parent final t addr slot =
      (lookup addr t.accounts ≡ (
        if any_read (asks_account addr) (K.reads final)
        then given (reader_account R (parent_reader R parent) addr)
        else none))
      × (slot_at (rpc_state R (marked R parent)) t addr slot ≡ (
          if any_read (asks_slot addr slot) (K.reads final)
          then given_value (reader_storage R (parent_reader R parent) addr slot)
          else none))

  pub tracker_of-HoldsAsked :
      (parent : Header) (final : E.StateDb) {t : AccessTracker (rpc_state R (marked R parent))}
      → K.IsTracked (marked R parent) parent.root final
      → tracker_of L (marked R parent) final parent.root ≡ ok t
      → (addr : Address) (slot : Hash) → HoldsAsked parent final t addr slot
  unfolding tracker_of
  tracker_of-HoldsAsked parent final {t} tr h addr slot =
      let S = rpc_state R (marked R parent) in
      let (r, w, e, ws) = K.tracked (marked R parent) parent.root final tr in
      let (t', found, at, acc, slots) =
        db_reader_exact S (rpc_state-IsLawful R (marked R parent)) (new_world S) parent.root r w e
          (K.reads final) addr slot in
      let h' =
        subst
          (λ (W : World S).
            (do p ← deref (get_access_tracker S W parent.root); deref (get_elem? W.heap p)) ≡ ok t)
          ws h in
      let same : t' ≡ t = ok_inj (rw (found, at) at h') in
      let exact = db_reader-marked R parent (new_world S) e in rw (← same, ← exact) (acc, slots)
