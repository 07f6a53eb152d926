-- ===== src/State/Tracker/Exact.antt =====
-- A tracker holds exactly what was asked for: after any reads through a new reader it has the
-- accounts and the slots that were read, with the values that the reader gave.
use mathlib.Core.List.{foldl}
use zk_pig.Base.{
  Option, none, some, List, [], ◌∷◌, Bool, true, false, ◌||◌, ◌&&◌, array_eq, array_eq_sound,
  Bool-cases, inl, inr, lookup, lookup-insert, Outcome, ok, err, panic, ◌≡◌, refl, ◌∙◌, ap, ap₂,
  if◌then◌else◌, arith,
}
use zk_pig.Geth.Types.{Hash, Address}
use zk_pig.State.Interface.{StateLib, IsLawful}
use zk_pig.State.Tracker.{
  AccessTracker, World, TrackerReader, Storage, track_account, track_slot, slots_of,
}
use zk_pig.State.Tracker.Heap.{
  Read, account_of, slot_of, tracker_at, perform, noted, note_account, note_slot, perform_self,
  perform-trackers,
}

unfoldable pub asks_account : Address → Read → Bool
asks_account addr (account_of a) = array_eq a addr
asks_account addr (slot_of a s) = false

unfoldable pub asks_slot : Address → Hash → Read → Bool
asks_slot addr slot (account_of a) = false
asks_slot addr slot (slot_of a s) = array_eq a addr && array_eq s slot

module _ (test : Read → Bool) where
  abbrev pub any_read : List Read → Bool
  any_read [] = false
  any_read (rd ∷ rds) = test rd || any_read rds

-- The account that a reader gives, if it gives one, and the value of a slot.
abbrev pub given : {A : Type 0} → Outcome (Option A) → Option A
given (ok a) = a
given (err e) = none
given panic = none

abbrev pub given_value : Outcome Hash → Option Hash
given_value (ok v) = some v
given_value (err e) = none
given_value panic = none

abbrev pub or_old : {A : Type 0} → Option A → Option A → Option A
or_old (some a) old = some a
or_old none old = old

module _ (S : StateLib) where
  abbrev pub performs : World S → TrackerReader S → List Read → World S
  performs w r = foldl (λ w' rd. perform S w' r rd) w

  abbrev pub slot_at : AccessTracker S → Address → Hash → Option Hash
  slot_at t addr slot = lookup slot (slots_of S (lookup addr t.storage))

module _ (S : StateLib) (L : IsLawful S) where
  account-note :
      (addr a : Address) (o : Outcome (Option S.StateAccount)) (t : AccessTracker S)
      → lookup addr (note_account S a o t).accounts ≡ (
          if array_eq a addr
          then or_old (given o) (lookup addr t.accounts)
          else lookup addr t.accounts)
  unfolding note_account track_account
  account-note addr a (ok none) t = ground arith
  account-note addr a (ok (some x)) t = rw L.copy_account_lem (lookup-insert a addr x t.accounts)
  account-note addr a (err e) t = ground arith
  account-note addr a panic t = ground arith

  accounts-note_slot :
      (addr : Address) (slot : Hash) (o : Outcome Hash) (t : AccessTracker S)
      → (note_slot S addr slot o t).accounts ≡ t.accounts
  unfolding note_slot track_slot
  accounts-note_slot addr slot (ok v) t = refl
  accounts-note_slot addr slot (err e) t = refl
  accounts-note_slot addr slot panic t = refl

  account-noted :
      (addr : Address) (r : S.Reader) (rd : Read) (t : AccessTracker S)
      → lookup addr (noted S r rd t).accounts ≡ (
          if asks_account addr rd
          then or_old (given (S.account r addr)) (lookup addr t.accounts)
          else lookup addr t.accounts)
  unfolding noted asks_account
  account-noted addr r (account_of a) t =
      account-note addr a (S.account r a) t ∙ same_account a (lookup addr t.accounts)
    where
      same_account :
          (a : Address) (old : Option S.StateAccount)
          → (if array_eq a addr then or_old (given (S.account r a)) old else old)
            ≡ (if array_eq a addr then or_old (given (S.account r addr)) old else old)
      same_account a old = elim (Bool-cases (array_eq a addr)) [
        | inl same ↦
            rw same (
              ap (λ (b : Address). or_old (given (S.account r b)) old) (array_eq_sound a addr same))
        | inr other ↦ rw other
      ]
  account-noted addr r (slot_of a s) t =
      ap (lookup addr) (accounts-note_slot a s (S.storage r a s) t)

  storage-note_account :
      (addr : Address) (o : Outcome (Option S.StateAccount)) (t : AccessTracker S)
      → (note_account S addr o t).storage ≡ t.storage
  unfolding note_account track_account
  storage-note_account addr (ok none) t = refl
  storage-note_account addr (ok (some a)) t = refl
  storage-note_account addr (err e) t = refl
  storage-note_account addr panic t = refl

  slot-note :
      (addr a : Address) (slot s : Hash) (o : Outcome Hash) (t : AccessTracker S)
      → slot_at S (note_slot S a s o t) addr slot ≡ (
          if array_eq a addr && array_eq s slot
          then or_old (given_value o) (slot_at S t addr slot)
          else slot_at S t addr slot)
  unfolding note_slot track_slot
  slot-note addr a slot s (ok v) t = elim (Bool-cases (array_eq a addr)) [
    | inl same ↦
        rw (lookup-insert, same, lookup-insert)
          (ap (λ (b : Address). if array_eq s slot then some v else slot_at S t b slot)
            (array_eq_sound a addr same))
    | inr other ↦ rw (lookup-insert, other)
  ]
  slot-note addr a slot s (err e) t = ground arith
  slot-note addr a slot s panic t = ground arith

  same_slot :
      (addr : Address) (slot : Hash) (r : S.Reader) (a : Address) (s : Hash) (old : Option Hash)
      → (if array_eq a addr && array_eq s slot
          then or_old (given_value (S.storage r a s)) old
          else old)
        ≡ (if array_eq a addr && array_eq s slot
            then or_old (given_value (S.storage r addr slot)) old
            else old)
  same_slot addr slot r a s old = elim (Bool-cases (array_eq a addr)) [
    | inr other ↦ rw other
    | inl same ↦ elim (Bool-cases (array_eq s slot)) [
      | inr other ↦ rw (same, other)
      | inl same_s ↦
          rw (same, same_s)
            (ap₂ (λ (b : Address) (z : Hash). or_old (given_value (S.storage r b z)) old)
              (array_eq_sound a addr same) (array_eq_sound s slot same_s))
    ]
  ]

  slot-noted :
      (addr : Address) (slot : Hash) (r : S.Reader) (rd : Read) (t : AccessTracker S)
      → slot_at S (noted S r rd t) addr slot ≡ (
          if asks_slot addr slot rd
          then or_old (given_value (S.storage r addr slot)) (slot_at S t addr slot)
          else slot_at S t addr slot)
  unfolding noted asks_slot
  slot-noted addr slot r (account_of a) t =
      ap (λ (m : Storage S). lookup slot (slots_of S (lookup addr m)))
        (storage-note_account a (S.account r a) t)
  slot-noted addr slot r (slot_of a s) t =
      slot-note addr a slot s (S.storage r a s) t
      ∙ same_slot addr slot r a s (slot_at S t addr slot)

-- What one read and then others leave, where a given value replaces the old one.
merge :
    {A : Type 0} (first rest : Bool) (new old : Option A)
    → (if rest
        then or_old new (if first then or_old new old else old)
        else (if first then or_old new old else old))
      ≡ (if first || rest then or_old new old else old)
merge true true none old = refl
merge true true (some a) old = refl
merge true false new old = refl
merge false true new old = refl
merge false false new old = refl

module _ (S : StateLib) (L : IsLawful S) where
  pub notes : S.Reader → AccessTracker S → List Read → AccessTracker S
  notes r = foldl (λ t rd. noted S r rd t)

  pub account-notes :
      (addr : Address) (r : S.Reader) (rds : List Read) (t : AccessTracker S)
      → lookup addr (notes r t rds).accounts ≡ (
          if any_read (asks_account addr) rds
          then or_old (given (S.account r addr)) (lookup addr t.accounts)
          else lookup addr t.accounts)
  unfolding notes
  account-notes addr r [] t = refl
  account-notes addr r (rd ∷ rds) t =
      account-notes addr r rds (noted S r rd t)
      ∙ rw (account-noted S L addr r rd t) (
          merge (asks_account addr rd) (any_read (asks_account addr) rds) (given (S.account r addr))
            (lookup addr t.accounts))

  pub slot-notes :
      (addr : Address) (slot : Hash) (r : S.Reader) (rds : List Read) (t : AccessTracker S)
      → slot_at S (notes r t rds) addr slot ≡ (
          if any_read (asks_slot addr slot) rds
          then or_old (given_value (S.storage r addr slot)) (slot_at S t addr slot)
          else slot_at S t addr slot)
  unfolding notes
  slot-notes addr slot r [] t = refl
  slot-notes addr slot r (rd ∷ rds) t =
      slot-notes addr slot r rds (noted S r rd t)
      ∙ rw (slot-noted S L addr slot r rd t) (
          merge (asks_slot addr slot rd) (any_read (asks_slot addr slot) rds)
            (given_value (S.storage r addr slot)) (slot_at S t addr slot))

  pub tracker-performs :
      (w : World S) (r : TrackerReader S) (rds : List Read) {t : AccessTracker S}
      → tracker_at S w r.tracker ≡ some t
      → tracker_at S (performs S w r rds) r.tracker ≡ some (notes r.reader t rds)
  unfolding notes
  tracker-performs w r [] h = h
  tracker-performs w r (rd ∷ rds) h =
      tracker-performs (perform S w r rd) r rds (perform_self S w r rd h)

  pub trackers-performs :
      (w : World S) (r : TrackerReader S) (rds : List Read)
      → (performs S w r rds).trackers ≡ w.trackers
  trackers-performs w r [] = refl
  trackers-performs w r (rd ∷ rds) =
      trackers-performs (perform S w r rd) r rds ∙ perform-trackers S w r rd
