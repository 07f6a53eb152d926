-- ===== src/State/Tracker.antt =====
-- src/ethereum/state/database_tracker.go. Trackers are shared: the manager, the database and the
-- readers hold pointers to them, so they lie on a heap and a pointer is a position in it.
pub mod Heap
pub mod Exact
pub mod Opened
use zk_pig.Base.{
  ℕ, Option, none, some, List, [], ◌∷◌, ◌++◌, Slice, items, length, get_elem?, set, Map, lookup,
  insert, erase, map, Outcome, ok, err, panic, ◌>>=◌,
}
use zk_pig.Geth.Types.{Hash, Address}
use zk_pig.State.Interface.{StateLib}

module _ (S : StateLib) where
  abbrev pub Accounts : Type 0
  Accounts = Map 20 S.StateAccount

  abbrev pub Storage : Type 0
  Storage = Map 20 (Map 32 Hash)

  pub record AccessTracker : Type 0 where
    pub accounts : Accounts
    pub storage : Storage

  -- All trackers that were made, the manager's map, and the database's current tracker.
  pub record World : Type 0 where
    pub heap : List AccessTracker
    pub trackers : Map 32 ℕ
    pub current_tracker : Option ℕ

  pub record TrackerReader : Type 0 where
    pub reader : S.Reader
    pub tracker : ℕ

  -- `newStateAccessTracker`
  abbrev pub new_state_access_tracker : AccessTracker
  new_state_access_tracker = record { accounts = []; storage = [] }

  -- `NewAccessTrackerManager` and `NewAccessTrackerDatabase`
  abbrev pub new_world : World
  new_world = record { heap = []; trackers = []; current_tracker = none }

  unfoldable pub get_access_tracker : World → Hash → Option ℕ
  get_access_tracker w state_root = lookup state_root w.trackers

  unfoldable pub set_tracker : World → Hash → ℕ → World
  set_tracker w state_root tracker = record w { trackers = insert state_root tracker w.trackers }

  unfoldable pub delete_tracker : World → Hash → World
  delete_tracker w state_root = record w { trackers = erase state_root w.trackers }

  unfoldable pub clear : World → World
  clear w = record w { trackers = [] }

  -- A new tracker lies behind the others on the heap.
  abbrev pub alloc : World → AccessTracker → World
  alloc w t = record w { heap = w.heap ++ (t ∷ []) }

  -- `AccessTrackerDatabase.Reader`: a new tracker replaces the one of the same root.
  unfoldable pub db_reader : World → Hash → Outcome (TrackerReader × World)
  unfolding set_tracker
  db_reader w state_root = do
    reader ← S.reader state_root
    let tracker = length w.heap
    let w' = set_tracker (alloc w new_state_access_tracker) state_root tracker
    ok (record { reader = reader; tracker = tracker }, record w' { current_tracker = some tracker })

  -- `AccessTrackerDatabase.ContractCode` and `ContractCodeSize`; the size comes beside the error.
  unfoldable pub db_contract_code : Address → Hash → Outcome (Slice ℕ)
  db_contract_code addr code_hash = S.contract_code addr code_hash

  unfoldable pub db_contract_code_size : Address → Hash → ℕ × Outcome (Unit {0})
  db_contract_code_size addr code_hash = elim (db_contract_code addr code_hash) [
    | ok code ↦ (length (items code), ok tt)
    | err e ↦ (0, err e)
    | panic ↦ (0, panic)
  ]

  -- A write through a pointer.
  update_at : World → ℕ → Option AccessTracker → (AccessTracker → AccessTracker) → World
  update_at w p none f = w
  update_at w p (some t) f = record w { heap = set w.heap p (f t) }

  unfoldable pub update : World → ℕ → (AccessTracker → AccessTracker) → World
  unfolding update_at
  update w p f = update_at w p (get_elem? w.heap p) f

  -- `r.tracker.Accounts[addr] = account.Copy()`, unless the account is nil.
  pub track_account : Address → Option S.StateAccount → AccessTracker → AccessTracker
  track_account addr none t = t
  track_account addr (some a) t = record t { accounts = insert addr (S.copy_account a) t.accounts }

  -- The slots of an account; an account that is not there gets an empty map first.
  abbrev pub slots_of : Option (Map 32 Hash) → Map 32 Hash
  slots_of none = []
  slots_of (some slots) = slots

  pub track_slot : Address → Hash → Hash → AccessTracker → AccessTracker
  track_slot addr slot value t = record t {
    storage = insert addr (insert slot value (slots_of (lookup addr t.storage))) t.storage;
  }

  noting_account :
      World
      → TrackerReader
      → Address
      → Outcome (Option S.StateAccount)
      → Outcome (Option S.StateAccount) × World
  noting_account w r addr (ok account) =
      (ok account, update w r.tracker (track_account addr account))
  noting_account w r addr (err e) = (err e, w)
  noting_account w r addr panic = (panic, w)

  unfoldable pub read_account :
      World → TrackerReader → Address → Outcome (Option S.StateAccount) × World
  unfolding noting_account update track_account
  read_account w r addr = noting_account w r addr (S.account r.reader addr)

  noting_slot : World → TrackerReader → Address → Hash → Outcome Hash → Outcome Hash × World
  noting_slot w r addr slot (ok value) = (ok value, update w r.tracker (track_slot addr slot value))
  noting_slot w r addr slot (err e) = (err e, w)
  noting_slot w r addr slot panic = (panic, w)

  unfoldable pub read_storage : World → TrackerReader → Address → Hash → Outcome Hash × World
  unfolding noting_slot update track_slot
  read_storage w r addr slot = noting_slot w r addr slot (S.storage r.reader addr slot)
