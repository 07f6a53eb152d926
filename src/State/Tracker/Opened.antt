-- ===== src/State/Tracker/Opened.antt =====
-- `AccessTrackerDatabase.Reader` and the reads through the reader that it gives.
use zk_pig.Base.{
  Option, none, some, List, length, get_elem?-append_length, lookup, lookup-insert, array_eq_refl,
  Outcome, ok, err, panic, >>=-eq-ok, ◌≡◌, refl, ◌∙◌, ap, subst, if◌then◌else◌,
}
use zk_pig.Geth.Types.{Hash, Address}
use zk_pig.State.Interface.{StateLib, IsLawful}
use zk_pig.State.Tracker.{
  AccessTracker, World, TrackerReader, new_state_access_tracker, get_access_tracker, set_tracker,
  alloc, db_reader,
}
use zk_pig.State.Tracker.Heap.{Read, tracker_at}
use zk_pig.State.Tracker.Exact.{
  asks_account, asks_slot, any_read, given, given_value, or_old, performs, slot_at, notes,
  account-notes, slot-notes, tracker-performs, trackers-performs,
}

or_old-none : {A : Type 0} (new : Option A) → or_old new none ≡ new
or_old-none none = refl
or_old-none (some a) = refl

module _ (S : StateLib) where
  opened : World S → Hash → S.Reader → TrackerReader S × World S
  unfolding set_tracker
  opened w state_root reader = (
    record { reader = reader; tracker = length w.heap },
    record (set_tracker S (alloc S w (new_state_access_tracker S)) state_root (length w.heap)) {
      current_tracker = some (length w.heap);
    },
  )

  -- The reader that the manager's database opened has a new tracker, which the manager knows.
  db_reader-opened :
      (w : World S) (state_root : Hash) {p : TrackerReader S × World S}
      → db_reader S w state_root ≡ ok p
      → (reader : S.Reader) × (opened w state_root reader ≡ p)
  unfolding db_reader opened
  db_reader-opened w state_root {p} h =
      let (reader, e, e') = >>=-eq-ok _ (S.reader state_root) h in
      (
        reader,
        ap
            (λ (o : Outcome (TrackerReader S × World S)). elim o [
              | ok q ↦ q
              | err e ↦ p
              | panic ↦ p
            ])
            e',
      )

  -- What the manager's tracker of a root holds after `rds` were read through the reader.
  abbrev pub Exactly : World S → TrackerReader S → Hash → List Read → Address → Hash → Type 0
  Exactly w r state_root rds addr slot =
      (t : AccessTracker S) × (get_access_tracker S w state_root ≡ some r.tracker)
      × (tracker_at S w r.tracker ≡ some t)
      × (lookup addr t.accounts
          ≡ (if any_read (asks_account addr) rds then given (S.account r.reader addr) else none))
      × (slot_at S t addr slot ≡ (
          if any_read (asks_slot addr slot) rds
          then given_value (S.storage r.reader addr slot)
          else none))

module _ (S : StateLib) (L : IsLawful S) where
  opened-Exactly :
      (w : World S) (state_root : Hash) (reader : S.Reader) (rds : List Read) (addr : Address)
      (slot : Hash)
      → Exactly S
          (performs S (opened S w state_root reader).1 (opened S w state_root reader).0 rds)
          (opened S w state_root reader).0
          state_root
          rds
          addr
          slot
  unfolding opened set_tracker get_access_tracker lookup
  opened-Exactly w state_root reader rds addr slot =
      let p = opened S w state_root reader in
      let new = new_state_access_tracker S in
      (
        notes S L reader new rds,
        ap (lookup state_root) (trackers-performs S L p.1 p.0 rds)
            ∙ rw (lookup-insert, array_eq_refl) refl,
        tracker-performs S L p.1 p.0 rds (get_elem?-append_length w.heap new),
        account-notes S L addr reader rds new ∙ rw or_old-none refl,
        slot-notes S L addr slot reader rds new ∙ rw or_old-none refl,
      )

  -- When `Reader` of the database succeeds at a root, then after any sequence of account and slot
  -- reads through the new reader, failed reads included, the manager's tracker of that root is the
  -- reader's, and for each address and slot: the tracker has the account exactly if it was asked for
  -- and the wrapped reader gave one, and then has that one, and it has the slot exactly if it was
  -- asked for and the wrapped reader gave a value, and then has that value. Copies of accounts are
  -- taken to be equal to the accounts.
  pub db_reader_exact :
      (w : World S) (state_root : Hash) (r : TrackerReader S) (w' : World S)
      → db_reader S w state_root ≡ ok (r, w')
      → (rds : List Read) (addr : Address) (slot : Hash)
      → Exactly S (performs S w' r rds) r state_root rds addr slot
  db_reader_exact w state_root r w' h rds addr slot =
      let (reader, e) = db_reader-opened S w state_root h in
      subst
        (λ (p : TrackerReader S × World S).
          Exactly S (performs S p.1 p.0 rds) p.0 state_root rds addr slot)
        e (opened-Exactly w state_root reader rds addr slot)
