-- ===== src/Trie/NodeSets/Proven.antt =====
-- The proofs that `NodeSetFromStateProofs` and `NodeSetFromStateTransitionProofs`
-- (src/ethereum/trie/node_set.go) make a node set of.
use mathlib.Core.List.{foldl}
use zk_pig.Base.{
  ℕ, Option, none, some, Slice, List, [], ◌∷◌, ◌++◌, Bytes, if◌then◌else◌, array_eq, false,
  Bool-cases, inl, inr, ok, ◌≡◌, ◌↔◌, refl, sym, subst, ◌∙◌,
}
use zk_pig.Geth.Types.{Hash, Address}
use zk_pig.Trie.Interface.{TrieLib}
use zk_pig.Trie.Nodes.Added.{AllVerified}
use zk_pig.Trie.Nodes.Orphans.{AllProved}
use zk_pig.Trie.Proofs.{AccountProof, accounts_proof_db_and_keys, storage_proof_db_and_keys}
use zk_pig.Trie.Proofs.Checked.{
  StorageProven, AccountsProven, storage_proof_db_and_keys-StorageProven,
  accounts_proof_db_and_keys-AccountsProven,
}
use zk_pig.Trie.NodeSets.{
  no_storage, put_proof, post_proofs_by_address, node_set_from_state_proofs,
  node_set_from_state_transition_proofs,
}
use zk_pig.Trie.NodeSets.Valid.{Valid, ValidOrUnread, AllStorageValid}
use zk_pig.Trie.NodeSets.Accepted.{Merges, node_set_from_state_proofs_made}
use zk_pig.Trie.NodeSets.Transitions.{
  Proved, ProvedOrUnread, PostProved, AllStorageProved, IsValidTransition,
  node_set_from_state_transition_proofs-IsValidTransition,
  node_set_from_state_transition_proofs_made,
}

abbrev or_else : Option AccountProof → Option AccountProof → Option AccountProof
or_else (some p) o = some p
or_else none o = o

-- The last proof of an address, if there is one.
abbrev pub last_proof : List AccountProof → Address → Option AccountProof
last_proof [] addr = none
last_proof (p ∷ ps) addr =
    or_else (last_proof ps addr) (if array_eq p.address addr then some p else none)

module _ (T : TrieLib) where
  -- The database proves the value of a key against a root.
  abbrev pub Verified : Hash → T.ProofDb → Bytes → Type 0
  Verified root db key = (T.verify_with_reporting root key db).1 ≡ ok tt

  -- The database proves the value of a key against a root, or that it has none.
  abbrev pub Shown : Hash → T.ProofDb → Bytes → Type 0
  Shown root db key =
      (v : Slice ℕ × Bytes × T.LastNode) × (T.verify_with_last_node root key db ≡ ok v)

  AllVerified-append :
      (root : Hash) (db : T.ProofDb) (keys : List Bytes) (key : Bytes)
      → AllVerified T root db (keys ++ (key ∷ []))
        ↔ (AllVerified T root db keys × Verified root db key)
  AllVerified-append root db [] key = (λ h. (tt, h.0), λ h. (h.1, tt))
  AllVerified-append root db (k ∷ ks) key =
      let (f, g) = AllVerified-append root db ks key in
      (λ h. ((h.0, (f h.1).0), (f h.1).1), λ h. (h.0.0, g (h.0.1, h.1)))

  AllProved-append :
      (root : Hash) (db : T.ProofDb) (keys : List Bytes) (key : Bytes)
      → AllProved T root db (keys ++ (key ∷ [])) ↔ (AllProved T root db keys × Shown root db key)
  AllProved-append root db [] key = (λ h. (tt, h.0), λ h. (h.1, tt))
  AllProved-append root db (k ∷ ks) key =
      let (f, g) = AllProved-append root db ks key in
      (λ h. ((h.0, (f h.1).0), (f h.1).1), λ h. (h.0.0, g (h.0.1, h.1)))

  slots-Valid :
      (root : Hash) (p : AccountProof)
      → Valid T root (storage_proof_db_and_keys T p.storage)
        ↔ StorageProven T (Verified root) p.storage
  slots-Valid root p =
      storage_proof_db_and_keys-StorageProven T (Verified root) (AllVerified T root) (λ db. tt)
        (AllVerified-append root) p.storage

  slots-Proved :
      (root : Hash) (p : AccountProof)
      → Proved T root (storage_proof_db_and_keys T p.storage)
        ↔ StorageProven T (Shown root) p.storage
  slots-Proved root p =
      storage_proof_db_and_keys-StorageProven T (Shown root) (AllProved T root) (λ db. tt)
        (AllProved-append root) p.storage

  accounts_valid :
      (root : Hash) (ps : List AccountProof)
      → ValidOrUnread T root (accounts_proof_db_and_keys T ps) ↔ AccountsProven T (Verified root) ps
  accounts_valid root ps =
      accounts_proof_db_and_keys-AccountsProven T (Verified root) (AllVerified T root) (λ db. tt)
        (AllVerified-append root) ps

  accounts_proved :
      (root : Hash) (ps : List AccountProof)
      → ProvedOrUnread T root (accounts_proof_db_and_keys T ps) ↔ AccountsProven T (Shown root) ps
  accounts_proved root ps =
      accounts_proof_db_and_keys-AccountsProven T (Shown root) (AllProved T root) (λ db. tt)
        (AllProved-append root) ps

  -- The slots of every account that has storage are proven against its storage hash.
  abbrev pub AllSlotsProven : List AccountProof → Type 0
  AllSlotsProven [] = Unit
  AllSlotsProven (p ∷ ps) =
      (no_storage p ≡ false → StorageProven T (Verified p.storage_hash) p.storage)
      × AllSlotsProven ps

  AllStorageValid-AllSlotsProven :
      (ps : List AccountProof) → AllStorageValid T ps ↔ AllSlotsProven ps
  AllStorageValid-AllSlotsProven [] = (λ h. tt, λ h. tt)
  AllStorageValid-AllSlotsProven (p ∷ ps) =
      let (f, g) = AllStorageValid-AllSlotsProven ps in
      let (to, from) = slots-Valid p.storage_hash p in
      (λ h. (λ n. to (h.0 n), f h.1), λ h. (λ n. from (h.0 n), g h.1))

  -- If node sets can be merged, then a node set is returned exactly if the account proofs are
  -- read and every account is proven against the state root, or they are refused with an error,
  -- and, for every account whose storage hash is not zero, the proofs of its slots are read and
  -- each slot that comes with a proof has a key that can be decoded and is proven against that
  -- hash.
  pub node_set_from_state_proofs-ok_iff :
      Merges T
      → (root : Hash) (ps : List AccountProof)
      → ((m : T.MergedNodeSet) × (node_set_from_state_proofs T root ps ≡ ok m))
        ↔ (AccountsProven T (Verified root) ps × AllSlotsProven ps)
  node_set_from_state_proofs-ok_iff M root ps =
      let (f, g) = node_set_from_state_proofs_made T M root ps in
      let (to, from) = accounts_valid root ps in
      let (to', from') = AllStorageValid-AllSlotsProven ps in
      (λ r. (to (f r).0, to' (f r).1), λ h. g (from h.0, from' h.1))

  abbrev pub PostProven : Option AccountProof → Type 0
  PostProven none = Unit
  PostProven (some post) = StorageProven T (Shown post.storage_hash) post.storage

  PostProved-PostProven : (o : Option AccountProof) → PostProved T o ↔ PostProven o
  PostProved-PostProven none = (λ h. tt, λ h. tt)
  PostProved-PostProven (some post) = slots-Proved post.storage_hash post

  -- The slots of every account that has storage before the transition are proven against its storage
  -- hash there, and those of the last proof with its address after it, if there is one.
  abbrev pub AllSlotsMoved : List AccountProof → List AccountProof → Type 0
  AllSlotsMoved qs [] = Unit
  AllSlotsMoved qs (p ∷ ps) =
      (no_storage p ≡ false
        → StorageProven T (Verified p.storage_hash) p.storage
          × PostProven (last_proof qs p.address))
      × AllSlotsMoved qs ps

  put_last :
      (m : Address → Option AccountProof) (qs : List AccountProof) (addr : Address)
      → foldl put_proof m qs addr ≡ or_else (last_proof qs addr) (m addr)
  unfolding post_proofs_by_address
  put_last m [] addr = refl
  put_last m (q ∷ qs) addr = put_last (put_proof m q) qs addr ∙ of (last_proof qs addr)
    where
      of :
          (o : Option AccountProof)
          → or_else o (put_proof m q addr)
            ≡ or_else (or_else o (if array_eq q.address addr then some q else none)) (m addr)
      of (some x) = refl
      of none = elim (Bool-cases (array_eq q.address addr)) [
        | inl same ↦ rw same refl
        | inr other ↦ rw other refl
      ]

  by_address-last_proof :
      (qs : List AccountProof) (addr : Address)
      → post_proofs_by_address qs addr ≡ last_proof qs addr
  unfolding post_proofs_by_address
  by_address-last_proof qs addr = put_last (λ addr. none) qs addr ∙ of (last_proof qs addr)
    where
      of : (o : Option AccountProof) → or_else o none ≡ o
      of none = refl
      of (some x) = refl

  AllStorageProved-AllSlotsMoved :
      (qs ps : List AccountProof)
      → AllStorageProved T (post_proofs_by_address qs) ps ↔ AllSlotsMoved qs ps
  AllStorageProved-AllSlotsMoved qs [] = (λ h. tt, λ h. tt)
  AllStorageProved-AllSlotsMoved qs (p ∷ ps) =
      let (f, g) = AllStorageProved-AllSlotsMoved qs ps in
      let (to, from) = slots-Valid p.storage_hash p in
      let (to', from') = PostProved-PostProven (last_proof qs p.address) in
      let same = by_address-last_proof qs p.address in
      (
        λ h. (λ n. (to (h.0 n).0, to' (subst (PostProved T) same (h.0 n).1)), f h.1),
        λ h. (λ n. (from (h.0 n).0, subst (PostProved T) (sym same) (from' (h.0 n).1)), g h.1),
      )

  -- The account proofs before the transition are proven against its root, those after it against the
  -- other root, or they are refused, and so are the slots.
  abbrev pub IsTransition : Hash → Hash → List AccountProof → List AccountProof → Type 0
  IsTransition pre_root post_root ps qs =
      AccountsProven T (Verified pre_root) ps
      × AccountsProven T (Shown post_root) qs
      × AllSlotsMoved qs ps

  IsValidTransition-IsTransition :
      (pre_root post_root : Hash) (ps qs : List AccountProof)
      → IsValidTransition T pre_root post_root ps qs ↔ IsTransition pre_root post_root ps qs
  IsValidTransition-IsTransition pre_root post_root ps qs =
      let (a, b) = accounts_valid pre_root ps in
      let (c, d) = accounts_proved post_root qs in
      let (e, f) = AllStorageProved-AllSlotsMoved qs ps in
      (λ h. (a h.0, c h.1, e h.2), λ h. (b h.0, d h.1, f h.2))

  pub node_set_from_state_transition_proofs-IsTransition :
      (pre_root post_root : Hash) (ps qs : List AccountProof) {m : T.MergedNodeSet}
      → node_set_from_state_transition_proofs T pre_root post_root ps qs ≡ ok m
      → IsTransition pre_root post_root ps qs
  node_set_from_state_transition_proofs-IsTransition pre_root post_root ps qs h =
      (IsValidTransition-IsTransition pre_root post_root ps qs).0
        (node_set_from_state_transition_proofs-IsValidTransition T pre_root post_root ps qs h)

  -- If node sets can be merged, then a node set is returned exactly if the account proofs of the
  -- pre-state are read and every account is proven against its root, or they are refused with an
  -- error; the account proofs of the post-state are read and prove, against its root, that there
  -- is a value or none, or they are refused; and, for every account whose storage hash before the
  -- transition is not zero, the proofs of its slots are read and each slot that comes with a
  -- proof has a key that can be decoded and is proven against that hash, and the slots of the
  -- last post-state proof with its address, if there is one, are read and prove, against its
  -- storage hash, that there is a value or none.
  pub node_set_from_state_transition_proofs-ok_iff :
      Merges T
      → (pre_root post_root : Hash) (ps qs : List AccountProof)
      → ((m : T.MergedNodeSet) × (node_set_from_state_transition_proofs T pre_root post_root ps qs
            ≡ ok m))
        ↔ IsTransition pre_root post_root ps qs
  node_set_from_state_transition_proofs-ok_iff M pre_root post_root ps qs =
      let (f, g) = node_set_from_state_transition_proofs_made T M pre_root post_root ps qs in
      let (to, from) = IsValidTransition-IsTransition pre_root post_root ps qs in
      (λ r. to (f r), λ h. g (from h))
