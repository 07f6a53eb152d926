-- ===== src/State/Tries.antt =====
-- `OpenTrie`, `OpenStorageTrie` and the `NoOpTrie` of src/ethereum/state/database_rpc.go. The methods of
-- a trie are the calls of one function.
use zk_pig.Base.{
  ℕ, Option, none, List, [], ◌∷◌, Bool, false, Slice, Bytes, zeros, Outcome, ok, err, panic, ◌≡◌,
  refl, ap,
}
use zk_pig.Geth.Types.{Hash, Address}

-- The methods of `gethstate.Trie`, with what the caller passes.
pub data Call (Account : Type 0) : Type 0 where
  get_key : Slice ℕ → Call Account
  get_account : Address → Call Account
  get_storage : Address → Slice ℕ → Call Account
  update_account : Address → Option Account → ℕ → Call Account
  update_storage : Address → Slice ℕ → Slice ℕ → Call Account
  delete_account : Address → Call Account
  delete_storage : Address → Slice ℕ → Call Account
  update_contract_code : Address → Hash → Slice ℕ → Call Account
  hash : Call Account
  commit : Bool → Call Account
  witness : Call Account
  node_iterator : Slice ℕ → Call Account
  prove : Slice ℕ → Call Account
  is_verkle : Call Account

-- What a method returns beside its error: a node set and an iterator are known by whether they are nil.
pub data Answer (Account : Type 0) : Type 0 where
  bytes : Slice ℕ → Answer Account
  account : Option Account → Answer Account
  done : Answer Account
  hashed : Hash → Answer Account
  committed : Hash → Option (List (Bytes × Bytes)) → Answer Account
  witnessed : Option (List Bytes) → Answer Account
  iterator : Option (List Bytes) → Answer Account
  verkle : Bool → Answer Account

-- The wrapped `gethstate.Database`, and its tries, which a call may change.
pub record TrieDb : Type 1 where
  pub Account : Type 0
  pub T : Type 0
  pub open_trie : Hash → Outcome T
  pub call : T → Call Account → Outcome (Answer Account) × T

-- `NoOpTrie`
unfoldable pub no_op_answer : {A : Type 0} → Call A → Answer A
no_op_answer (get_key k) = bytes none
no_op_answer (get_account a) = account none
no_op_answer (get_storage a k) = bytes none
no_op_answer (update_account a s n) = done
no_op_answer (update_storage a k v) = done
no_op_answer (delete_account a) = done
no_op_answer (delete_storage a k) = done
no_op_answer (update_contract_code a h code) = done
no_op_answer hash = hashed (zeros 32)
no_op_answer (commit collect) = committed (zeros 32) none
no_op_answer witness = witnessed none
no_op_answer (node_iterator k) = iterator none
no_op_answer (prove k) = done
no_op_answer is_verkle = verkle false

module _ (D : TrieDb) where
  -- `gethstate.Trie`: a trie of the wrapped database, or the one that does nothing.
  pub data Trie : Type 0 where
    real : D.T → Trie
    no_op_trie : Trie

  -- `OpenStorageTrie` of the wrapped database, which is given the account's trie
  abbrev pub StorageTries : Type 0
  StorageTries = Hash → Address → Hash → Trie → Outcome D.T

  unfoldable pub opened_or_no_op : Outcome D.T → Outcome Trie
  opened_or_no_op (ok t) = ok (real t)
  opened_or_no_op (err e) = ok no_op_trie
  opened_or_no_op panic = panic

  unfoldable pub open_trie : Hash → Outcome Trie
  unfolding opened_or_no_op
  open_trie root = opened_or_no_op (D.open_trie root)

  unfoldable pub open_storage_trie : StorageTries → Hash → Address → Hash → Trie → Outcome Trie
  unfolding opened_or_no_op
  open_storage_trie tries state_root address root tr =
      opened_or_no_op (tries state_root address root tr)

  unfoldable pub call_trie : Trie → Call D.Account → Outcome (Answer D.Account) × Trie
  unfolding no_op_answer
  call_trie (real t) c = let (answer, t') = D.call t c in (answer, real t')
  call_trie no_op_trie c = (ok (no_op_answer c), no_op_trie)

  -- The answers to a row of calls, which may change the trie.
  abbrev pub call_all :
      {S : Type 0}
      → (S → Call D.Account → Outcome (Answer D.Account) × S)
      → S
      → List (Call D.Account)
      → List (Outcome (Answer D.Account))
  call_all step t [] = []
  call_all step t (c ∷ cs) = (step t c).0 ∷ call_all step (step t c).1 cs

  real-answers :
      (t : D.T) (cs : List (Call D.Account)) → call_all call_trie (real t) cs ≡ call_all D.call t cs
  unfolding call_trie
  real-answers t [] = refl
  real-answers t (c ∷ cs) =
      ap (λ answers. (D.call t c).0 ∷ answers) (real-answers (D.call t c).1 cs)

  -- An answer to a call without an error, with the zero values of what that method returns: nil slices
  -- and pointers, the hash of zeros, and false.
  abbrev pub IsZero : Call D.Account → Outcome (Answer D.Account) → Type 0
  IsZero (get_key k) r = r ≡ ok (bytes none)
  IsZero (get_account a) r = r ≡ ok (account none)
  IsZero (get_storage a k) r = r ≡ ok (bytes none)
  IsZero hash r = r ≡ ok (hashed (zeros 32))
  IsZero (commit collect) r = r ≡ ok (committed (zeros 32) none)
  IsZero witness r = r ≡ ok (witnessed none)
  IsZero (node_iterator k) r = r ≡ ok (iterator none)
  IsZero is_verkle r = r ≡ ok (verkle false)
  IsZero c r = r ≡ ok done

  -- The answers to a row of calls, one for each, are all such.
  abbrev pub AllZero : List (Call D.Account) → List (Outcome (Answer D.Account)) → Type 0
  AllZero [] [] = Unit
  AllZero (c ∷ cs) (r ∷ rs) = IsZero c r × AllZero cs rs
  AllZero cs rs = ⊥

  no_op_answer-IsZero : (c : Call D.Account) → IsZero c (call_trie no_op_trie c).0
  unfolding call_trie
  no_op_answer-IsZero (get_key k) = refl
  no_op_answer-IsZero (get_account a) = refl
  no_op_answer-IsZero (get_storage a k) = refl
  no_op_answer-IsZero (update_account a s n) = refl
  no_op_answer-IsZero (update_storage a k v) = refl
  no_op_answer-IsZero (delete_account a) = refl
  no_op_answer-IsZero (delete_storage a k) = refl
  no_op_answer-IsZero (update_contract_code a h code) = refl
  no_op_answer-IsZero hash = refl
  no_op_answer-IsZero (commit collect) = refl
  no_op_answer-IsZero witness = refl
  no_op_answer-IsZero (node_iterator k) = refl
  no_op_answer-IsZero (prove k) = refl
  no_op_answer-IsZero is_verkle = refl

  no_op-answers : (cs : List (Call D.Account)) → AllZero cs (call_all call_trie no_op_trie cs)
  unfolding call_trie
  no_op-answers [] = tt
  no_op-answers (c ∷ cs) = (no_op_answer-IsZero c, no_op-answers cs)

  -- Any trie of the database that could be opened, and the answers to calls of it.
  abbrev pub Serves : Outcome D.T → Outcome Trie → List (Call D.Account) → Type 0
  Serves (ok t) opened cs =
      (tr : Trie) × (opened ≡ ok tr) × (call_all call_trie tr cs ≡ call_all D.call t cs)
  Serves (err e) opened cs = (tr : Trie) × (opened ≡ ok tr) × AllZero cs (call_all call_trie tr cs)
  Serves panic opened cs = opened ≡ panic

  opened_or_no_op-Serves :
      (o : Outcome D.T) (cs : List (Call D.Account)) → Serves o (opened_or_no_op o) cs
  unfolding opened_or_no_op
  opened_or_no_op-Serves (ok t) cs = (real t, refl, real-answers t cs)
  opened_or_no_op-Serves (err e) cs = (no_op_trie, refl, no_op-answers cs)
  opened_or_no_op-Serves panic cs = refl

  -- `OpenTrie` and `OpenStorageTrie` never return an error. A trie that the wrapped database opens
  -- answers any calls as that database's trie does; where the database has none, every call of any
  -- sequence succeeds with the zero values of `NoOpTrie`, whatever was written by the calls before.
  pub opened_tries-Serves :
      (tries : StorageTries) (state_root root : Hash) (address : Address) (tr : Trie)
      (cs : List (Call D.Account))
      → Serves (D.open_trie root) (open_trie root) cs
        × Serves
            (tries state_root address root tr)
            (open_storage_trie tries state_root address root tr)
            cs
  unfolding open_trie open_storage_trie
  opened_tries-Serves tries state_root root address tr cs = (
    opened_or_no_op-Serves (D.open_trie root) cs,
    opened_or_no_op-Serves (tries state_root address root tr) cs,
  )
