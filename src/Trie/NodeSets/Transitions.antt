-- ===== src/Trie/NodeSets/Transitions.antt =====
-- When `NodeSetFromStateTransitionProofs` (src/ethereum/trie/node_set.go) returns a node set, in terms
-- of the databases and keys that it made of the proofs.
use zk_pig.Base.{
  Option, none, some, List, [], ◌∷◌, Outcome, ok, err, panic, ◌>>◌, >>=-eq-ok, context,
  context-eq-ok, false, Bool-cases, inl, inr, ◌≡◌, ◌↔◌, refl,
}
use zk_pig.Geth.Types.{Hash, Address}
use zk_pig.Trie.Interface.{TrieLib}
use zk_pig.Trie.Nodes.{add_orphan_nodes}
use zk_pig.Trie.Nodes.Orphans.{AllProved, add_orphan_nodes-ok_iff}
use zk_pig.Trie.Proofs.{
  AccountProof, DbAndKeys, new_account_node_set, new_storage_node_set, accounts_proof_db_and_keys,
  storage_proof_db_and_keys, add_account_nodes, add_account_orphan_nodes, add_storage_nodes,
  add_storage_orphan_nodes, or_error, or_nothing,
}
use zk_pig.Trie.Proofs.Checked.{IfRead, IfNotRefused}
use zk_pig.Trie.NodeSets.{
  no_storage, add_post_orphans, add_transition_storage, add_transition_storages,
  node_set_from_state_transition_proofs, post_proofs_by_address,
}
use zk_pig.Trie.NodeSets.Valid.{
  Valid, ValidOrUnread, AllStorageValid, add_storage_nodes-ok, add_account_nodes-ok,
}
use zk_pig.Trie.NodeSets.Accepted.{Merges, or_error-Valid, or_nothing-ValidOrUnread}

module _ (T : TrieLib) where
  -- The proofs could be read, and each of them proves the value of its key, or that it has none.
  abbrev pub Proved : Hash → Outcome (DbAndKeys T) → Type 0
  Proved root = IfRead T (AllProved T root)

  -- The same, or they could not be read.
  abbrev pub ProvedOrUnread : Hash → Outcome (DbAndKeys T) → Type 0
  ProvedOrUnread root = IfNotRefused T (AllProved T root)

  -- The storage proofs of an account in the post-state, if it has proofs there.
  abbrev pub PostProved : Option AccountProof → Type 0
  PostProved none = Unit
  PostProved (some post) = Proved post.storage_hash (storage_proof_db_and_keys T post.storage)

  -- The storage proofs of every account that has storage in the pre-state are valid there, and proved
  -- in the post-state.
  abbrev pub AllStorageProved : (Address → Option AccountProof) → List AccountProof → Type 0
  AllStorageProved by_address [] = Unit
  AllStorageProved by_address (p ∷ ps) =
      (no_storage p ≡ false
        → Valid T p.storage_hash (storage_proof_db_and_keys T p.storage)
          × PostProved (by_address p.address))
      × AllStorageProved by_address ps

  or_error-Proved :
      (set : T.NodeSet) (root : Hash) (d : Outcome (DbAndKeys T))
      → ((or_error T set d (λ d. add_orphan_nodes T set root d.0 d.1)).1 ≡ ok tt) ↔ Proved root d
  unfolding add_storage_orphan_nodes
  or_error-Proved set root (ok (db, keys)) = add_orphan_nodes-ok_iff T set root db keys
  or_error-Proved set root (err e) = (λ h. cc, λ h. absurd h)
  or_error-Proved set root panic = (λ h. cc, λ h. absurd h)

  or_nothing-Proved :
      (set : T.NodeSet) (root : Hash) (d : Outcome (DbAndKeys T))
      → ((or_nothing T set d (λ d. add_orphan_nodes T set root d.0 d.1)).1 ≡ ok tt)
        ↔ ProvedOrUnread root d
  unfolding add_account_orphan_nodes
  or_nothing-Proved set root (ok (db, keys)) = add_orphan_nodes-ok_iff T set root db keys
  or_nothing-Proved set root (err e) = (λ h. tt, λ h. refl)
  or_nothing-Proved set root panic = (λ h. cc, λ h. absurd h)

  add_post_orphans-ok_iff :
      (set : T.NodeSet) (o : Option AccountProof)
      → ((add_post_orphans T set o).1 ≡ ok tt) ↔ PostProved o
  unfolding add_transition_storages add_storage_orphan_nodes
  add_post_orphans-ok_iff set none = (λ h. tt, λ h. refl)
  add_post_orphans-ok_iff set (some post) =
      or_error-Proved set post.storage_hash (storage_proof_db_and_keys T post.storage)

  add_transition_storage-ok :
      (by_address : Address → Option AccountProof) (merged : T.MergedNodeSet) (p : AccountProof)
      {m : T.MergedNodeSet}
      → add_transition_storage T by_address merged p ≡ ok m
      → no_storage p ≡ false
      → Valid T p.storage_hash (storage_proof_db_and_keys T p.storage)
        × PostProved (by_address p.address)
  unfolding add_transition_storages add_storage_nodes
  add_transition_storage-ok by_address merged p h some_storage =
      let set = new_storage_node_set T p.address in
      let d = storage_proof_db_and_keys T p.storage in
      let (u, done, rest) = >>=-eq-ok _ _ (rw some_storage at h) in
      let (u', done', _) = >>=-eq-ok _ _ rest in
      (
        add_storage_nodes-ok T set p.storage_hash d (context-eq-ok _ _ done),
        (add_post_orphans-ok_iff _ (by_address p.address)).0 (context-eq-ok _ _ done'),
      )

  add_transition_storage-Valid :
      Merges T
      → (by_address : Address → Option AccountProof) (merged : T.MergedNodeSet) (p : AccountProof)
      → (no_storage p ≡ false
          → Valid T p.storage_hash (storage_proof_db_and_keys T p.storage)
            × PostProved (by_address p.address))
      → (m : T.MergedNodeSet) × (add_transition_storage T by_address merged p ≡ ok m)
  unfolding add_transition_storages add_storage_nodes
  add_transition_storage-Valid M by_address merged p h = elim (Bool-cases (no_storage p)) [
    | inl none_here ↦ rw none_here (merged, refl)
    | inr some_here ↦
        let set = new_storage_node_set T p.address in
        let d = storage_proof_db_and_keys T p.storage in
        let set' = (add_storage_nodes T set p.storage_hash p.storage).0 in
        let post = by_address p.address in
        let (m, e) = M merged (add_post_orphans T set' post).0 in
        rw
          (
            some_here,
            or_error-Valid T set p.storage_hash d (h some_here).0,
            (add_post_orphans-ok_iff set' post).1 (h some_here).1,
            e,
          )
          (m, refl)
  ]

  add_transition_storages-ok :
      (by_address : Address → Option AccountProof) (merged : T.MergedNodeSet)
      (ps : List AccountProof) {m : T.MergedNodeSet}
      → add_transition_storages T by_address merged ps ≡ ok m
      → AllStorageProved by_address ps
  unfolding add_transition_storages
  add_transition_storages-ok by_address merged [] h = tt
  add_transition_storages-ok by_address merged (p ∷ ps) h =
      let (merged', first, rest) = >>=-eq-ok _ _ h in
      (
        add_transition_storage-ok by_address merged p first,
        add_transition_storages-ok by_address merged' ps rest,
      )

  add_transition_storages-AllStorageProved :
      Merges T
      → (by_address : Address → Option AccountProof) (merged : T.MergedNodeSet)
        (ps : List AccountProof)
      → AllStorageProved by_address ps
      → (m : T.MergedNodeSet) × (add_transition_storages T by_address merged ps ≡ ok m)
  unfolding add_transition_storages
  add_transition_storages-AllStorageProved M by_address merged [] h = (merged, refl)
  add_transition_storages-AllStorageProved M by_address merged (p ∷ ps) (h, hs) =
      let (merged', first) = add_transition_storage-Valid M by_address merged p h in
      rw first (add_transition_storages-AllStorageProved M by_address merged' ps hs)

  -- The account proofs are valid at the root before the transition and proved at the one after it, or
  -- could not be read, and so are the storage proofs.
  abbrev pub IsValidTransition : Hash → Hash → List AccountProof → List AccountProof → Type 0
  IsValidTransition pre_root post_root ps qs =
      ValidOrUnread T pre_root (accounts_proof_db_and_keys T ps)
      × ProvedOrUnread post_root (accounts_proof_db_and_keys T qs)
      × AllStorageProved (post_proofs_by_address qs) ps

  pub node_set_from_state_transition_proofs-IsValidTransition :
      (pre_root post_root : Hash) (ps qs : List AccountProof) {m : T.MergedNodeSet}
      → node_set_from_state_transition_proofs T pre_root post_root ps qs ≡ ok m
      → IsValidTransition pre_root post_root ps qs
  unfolding node_set_from_state_transition_proofs add_account_nodes add_account_orphan_nodes
  node_set_from_state_transition_proofs-IsValidTransition pre_root post_root ps qs h =
      let r = add_account_nodes T (new_account_node_set T) pre_root ps in
      let r' = add_account_orphan_nodes T r.0 post_root qs in
      let storages =
        add_transition_storages T (post_proofs_by_address qs) (T.new_with_node_set r'.0) ps in
      let orphans : Outcome (Unit {0}) =
        context "failed to add account orphan nodes for post-state root" r'.1 in
      let (_, done, h1) =
        >>=-eq-ok (λ u. orphans >> storages)
          (context "failed to add account nodes for pre-state root" r.1) h in
      let (_, done', rest) = >>=-eq-ok (λ u. storages) orphans h1 in
      (
        add_account_nodes-ok T (new_account_node_set T) pre_root (accounts_proof_db_and_keys T ps)
            (context-eq-ok "failed to add account nodes for pre-state root" r.1 done),
        (or_nothing-Proved r.0 post_root (accounts_proof_db_and_keys T qs)).0
            (context-eq-ok "failed to add account orphan nodes for post-state root" r'.1 done'),
        add_transition_storages-ok (post_proofs_by_address qs) (T.new_with_node_set r'.0) ps rest,
      )

  AllStorageProved-Valid :
      (by_address : Address → Option AccountProof) (ps : List AccountProof)
      → AllStorageProved by_address ps
      → AllStorageValid T ps
  AllStorageProved-Valid by_address [] h = tt
  AllStorageProved-Valid by_address (p ∷ ps) (h, hs) =
      (λ some_storage. (h some_storage).0, AllStorageProved-Valid by_address ps hs)

  -- If a node set is returned, then the proofs of the pre-state are valid as for
  -- `NodeSetFromStateProofs`.
  pub node_set_from_state_transition_proofs_valid :
      (pre_root post_root : Hash) (ps qs : List AccountProof) {m : T.MergedNodeSet}
      → node_set_from_state_transition_proofs T pre_root post_root ps qs ≡ ok m
      → ValidOrUnread T pre_root (accounts_proof_db_and_keys T ps) × AllStorageValid T ps
  node_set_from_state_transition_proofs_valid pre_root post_root ps qs h =
      let (pre, _, storages) =
        node_set_from_state_transition_proofs-IsValidTransition pre_root post_root ps qs h in
      (pre, AllStorageProved-Valid (post_proofs_by_address qs) ps storages)

  node_set_from_state_transition_proofs-ok :
      Merges T
      → (pre_root post_root : Hash) (ps qs : List AccountProof)
      → IsValidTransition pre_root post_root ps qs
      → (m : T.MergedNodeSet) × (node_set_from_state_transition_proofs T pre_root post_root ps qs
          ≡ ok m)
  unfolding node_set_from_state_transition_proofs add_account_nodes add_account_orphan_nodes
  node_set_from_state_transition_proofs-ok M pre_root post_root ps qs (pre, post, storages) =
      let set = new_account_node_set T in
      let set' = (add_account_nodes T set pre_root ps).0 in
      rw
        (
          or_nothing-ValidOrUnread T set pre_root (accounts_proof_db_and_keys T ps) pre,
          (or_nothing-Proved set' post_root (accounts_proof_db_and_keys T qs)).1 post,
        )
        (add_transition_storages-AllStorageProved M (post_proofs_by_address qs) _ ps storages)

  -- If node sets can be merged, then a node set is returned exactly if the account proofs of the
  -- pre-state are valid against its root, or could not be read; those of the post-state prove, against
  -- its root, that there is a value or none, or could not be read; and, for every account with a storage
  -- hash before the transition that is not zero, its storage proofs could be read and are valid against
  -- that hash, and those of the last post-state proof with its address, if there is one, could be read
  -- and prove, against its storage hash, that there is a value or none.
  pub node_set_from_state_transition_proofs_made :
      Merges T
      → (pre_root post_root : Hash) (ps qs : List AccountProof)
      → ((m : T.MergedNodeSet) × (node_set_from_state_transition_proofs T pre_root post_root ps qs
            ≡ ok m))
        ↔ IsValidTransition pre_root post_root ps qs
  node_set_from_state_transition_proofs_made M pre_root post_root ps qs = (
    λ r. node_set_from_state_transition_proofs-IsValidTransition pre_root post_root ps qs r.1,
    node_set_from_state_transition_proofs-ok M pre_root post_root ps qs,
  )
