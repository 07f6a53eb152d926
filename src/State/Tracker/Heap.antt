-- ===== src/State/Tracker/Heap.antt =====
-- What a read through a tracking reader changes: one entry, in the tracker of that reader alone.
use zk_pig.Base.{
  ℕ, Option, none, some, get_elem?, get_elem?-set_self, get_elem?-set_ne, Outcome, ok, err, panic,
  ◌≡◌, ◌≢◌, refl,
}
use zk_pig.Geth.Types.{Hash, Address}
use zk_pig.State.Interface.{StateLib}
use zk_pig.State.Tracker.{
  AccessTracker, World, TrackerReader, update, update_at, track_account, track_slot, noting_account,
  noting_slot, read_account, read_storage,
}

-- The two questions that the state of a block asks of a reader.
pub data Read : Type 0 where
  account_of : Address → Read
  slot_of : Address → Hash → Read

module _ (S : StateLib) where
  abbrev pub tracker_at : World S → ℕ → Option (AccessTracker S)
  tracker_at w p = get_elem? w.heap p

  unfoldable pub perform : World S → TrackerReader S → Read → World S
  perform w r (account_of addr) = (read_account S w r addr).1
  perform w r (slot_of addr slot) = (read_storage S w r addr slot).1

  unfoldable pub note_account :
      Address → Outcome (Option S.StateAccount) → AccessTracker S → AccessTracker S
  note_account addr (ok a) t = track_account S addr a t
  note_account addr (err e) t = t
  note_account addr panic t = t

  unfoldable pub note_slot : Address → Hash → Outcome Hash → AccessTracker S → AccessTracker S
  note_slot addr slot (ok v) t = track_slot S addr slot v t
  note_slot addr slot (err e) t = t
  note_slot addr slot panic t = t

  -- What the read writes into the tracker.
  unfoldable pub noted : S.Reader → Read → AccessTracker S → AccessTracker S
  unfolding note_account note_slot
  noted r (account_of addr) = note_account addr (S.account r addr)
  noted r (slot_of addr slot) = note_slot addr slot (S.storage r addr slot)

  update_self :
      (w : World S) (p : ℕ) (f : AccessTracker S → AccessTracker S) {t : AccessTracker S}
      → tracker_at w p ≡ some t
      → tracker_at (update S w p f) p ≡ some (f t)
  unfolding update
  update_self w p f {t} h = rw (h, update_at) (get_elem?-set_self w.heap p (f t) h)

  update_at_other :
      (w : World S) (p q : ℕ) (o : Option (AccessTracker S)) (f : AccessTracker S → AccessTracker S)
      → p ≢ q
      → tracker_at (update_at S w p o f) q ≡ tracker_at w q
  unfolding update_at
  update_at_other w p q none f h = refl
  update_at_other w p q (some t) f h = get_elem?-set_ne w.heap p q (f t) h

  update_other :
      (w : World S) (p q : ℕ) (f : AccessTracker S → AccessTracker S)
      → p ≢ q
      → tracker_at (update S w p f) q ≡ tracker_at w q
  unfolding update
  update_other w p q f h = update_at_other w p q (get_elem? w.heap p) f h

  trackers-update_at :
      (w : World S) (p : ℕ) (o : Option (AccessTracker S)) (f : AccessTracker S → AccessTracker S)
      → (update_at S w p o f).trackers ≡ w.trackers
  unfolding update_at
  trackers-update_at w p none f = refl
  trackers-update_at w p (some t) f = refl

  account_self :
      (w : World S) (r : TrackerReader S) (addr : Address) (o : Outcome (Option S.StateAccount))
      {t : AccessTracker S}
      → tracker_at w r.tracker ≡ some t
      → tracker_at (noting_account S w r addr o).1 r.tracker ≡ some (note_account addr o t)
  unfolding noting_account note_account
  account_self w r addr (ok a) h = update_self w r.tracker (track_account S addr a) h
  account_self w r addr (err e) h = h
  account_self w r addr panic h = h

  slot_self :
      (w : World S) (r : TrackerReader S) (addr : Address) (slot : Hash) (o : Outcome Hash)
      {t : AccessTracker S}
      → tracker_at w r.tracker ≡ some t
      → tracker_at (noting_slot S w r addr slot o).1 r.tracker ≡ some (note_slot addr slot o t)
  unfolding noting_slot note_slot
  slot_self w r addr slot (ok v) h = update_self w r.tracker (track_slot S addr slot v) h
  slot_self w r addr slot (err e) h = h
  slot_self w r addr slot panic h = h

  -- The reader's own tracker is changed by what is noted.
  pub perform_self :
      (w : World S) (r : TrackerReader S) (rd : Read) {t : AccessTracker S}
      → tracker_at w r.tracker ≡ some t
      → tracker_at (perform w r rd) r.tracker ≡ some (noted r.reader rd t)
  unfolding perform read_account read_storage noted
  perform_self w r (account_of addr) h = account_self w r addr (S.account r.reader addr) h
  perform_self w r (slot_of addr slot) h = slot_self w r addr slot (S.storage r.reader addr slot) h

  account_other :
      (w : World S) (r : TrackerReader S) (addr : Address) (o : Outcome (Option S.StateAccount))
      (q : ℕ)
      → r.tracker ≢ q
      → tracker_at (noting_account S w r addr o).1 q ≡ tracker_at w q
  unfolding noting_account
  account_other w r addr (ok a) q h = update_other w r.tracker q (track_account S addr a) h
  account_other w r addr (err e) q h = refl
  account_other w r addr panic q h = refl

  slot_other :
      (w : World S) (r : TrackerReader S) (addr : Address) (slot : Hash) (o : Outcome Hash) (q : ℕ)
      → r.tracker ≢ q
      → tracker_at (noting_slot S w r addr slot o).1 q ≡ tracker_at w q
  unfolding noting_slot
  slot_other w r addr slot (ok v) q h = update_other w r.tracker q (track_slot S addr slot v) h
  slot_other w r addr slot (err e) q h = refl
  slot_other w r addr slot panic q h = refl

  -- The other trackers stay as they are.
  pub perform_other :
      (w : World S) (r : TrackerReader S) (rd : Read) (q : ℕ)
      → r.tracker ≢ q
      → tracker_at (perform w r rd) q ≡ tracker_at w q
  unfolding perform read_account read_storage
  perform_other w r (account_of addr) q h = account_other w r addr (S.account r.reader addr) q h
  perform_other w r (slot_of addr slot) q h =
      slot_other w r addr slot (S.storage r.reader addr slot) q h

  account-trackers :
      (w : World S) (r : TrackerReader S) (addr : Address) (o : Outcome (Option S.StateAccount))
      → (noting_account S w r addr o).1.trackers ≡ w.trackers
  unfolding noting_account update
  account-trackers w r addr (ok a) =
      trackers-update_at w r.tracker (get_elem? w.heap r.tracker) (track_account S addr a)
  account-trackers w r addr (err e) = refl
  account-trackers w r addr panic = refl

  slot-trackers :
      (w : World S) (r : TrackerReader S) (addr : Address) (slot : Hash) (o : Outcome Hash)
      → (noting_slot S w r addr slot o).1.trackers ≡ w.trackers
  unfolding noting_slot update
  slot-trackers w r addr slot (ok v) =
      trackers-update_at w r.tracker (get_elem? w.heap r.tracker) (track_slot S addr slot v)
  slot-trackers w r addr slot (err e) = refl
  slot-trackers w r addr slot panic = refl

  -- The manager's map is left alone.
  pub perform-trackers :
      (w : World S) (r : TrackerReader S) (rd : Read) → (perform w r rd).trackers ≡ w.trackers
  unfolding perform read_account read_storage
  perform-trackers w r (account_of addr) = account-trackers w r addr (S.account r.reader addr)
  perform-trackers w r (slot_of addr slot) =
      slot-trackers w r addr slot (S.storage r.reader addr slot)
