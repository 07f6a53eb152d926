-- ===== src/Trie/NodeSets/Compared.antt =====
-- The two functions beside one another, and what they do with account proofs that cannot be read.
use zk_pig.Base.{
  Option, none, some, List, [], ◌∷◌, Outcome, ok, err, panic, Error, ◌>>=◌, ◌>>◌, context, String,
  true, ◌≡◌, refl, Bool-cases, inl, inr,
}
use zk_pig.Geth.Types.{Hash}
use zk_pig.Trie.Interface.{TrieLib}
use zk_pig.Trie.Nodes.{add_orphan_nodes}
use zk_pig.Trie.Proofs.{
  AccountProof, new_account_node_set, new_storage_node_set, accounts_proof_db_and_keys,
  add_account_nodes, add_account_orphan_nodes, add_storage_nodes,
}
use zk_pig.Trie.NodeSets.{
  no_storage, post_proofs_by_address, add_account_storage, add_storages, node_set_from_state_proofs,
  add_transition_storage, add_transition_storages, node_set_from_state_transition_proofs,
}

-- The result, whatever the error.
abbrev pub success {ℓ} : {A : Type ℓ} → Outcome A → Option A
success (ok a) = some a
success (err e) = none
success panic = none

module _ (T : TrieLib) where
  abbrev pub AllWithoutStorage : List AccountProof → Type 0
  AllWithoutStorage [] = Unit
  AllWithoutStorage (p ∷ ps) = (no_storage p ≡ true) × AllWithoutStorage ps

  add_storages-none :
      (merged : T.MergedNodeSet) (ps : List AccountProof)
      → AllWithoutStorage ps
      → add_storages T merged ps ≡ ok merged
  unfolding add_storages
  add_storages-none merged [] h = refl
  add_storages-none merged (p ∷ ps) (h, hs) = rw h (add_storages-none merged ps hs)

  -- If the account proofs cannot be read and no account has storage, then no error is reported: the
  -- result is the node set of the account trie with no nodes in it.
  pub unreadable_account_proofs_accepted :
      (root : Hash) (ps : List AccountProof) (e : Error)
      → accounts_proof_db_and_keys T ps ≡ err e
      → AllWithoutStorage ps
      → node_set_from_state_proofs T root ps ≡ ok (T.new_with_node_set (new_account_node_set T))
  unfolding node_set_from_state_proofs add_account_nodes
  unreadable_account_proofs_accepted root ps e unread h =
      rw (unread) (add_storages-none (T.new_with_node_set (new_account_node_set T)) ps h)

  success-step :
      (o : Outcome T.MergedNodeSet) (q : Outcome T.MergedNodeSet)
      (f g : T.MergedNodeSet → Outcome T.MergedNodeSet)
      → success o ≡ success q
      → ((m : T.MergedNodeSet) → success (f m) ≡ success (g m))
      → success (o >>= f) ≡ success (q >>= g)
  success-step (ok a) (ok b) f g e h = cc (h a)
  success-step (ok a) (err x) f g e h = cc
  success-step (ok a) panic f g e h = cc
  success-step (err x) (ok b) f g e h = cc
  success-step panic (ok b) f g e h = cc
  success-step (err x) (err y) f g e h = refl
  success-step (err x) panic f g e h = refl
  success-step panic (err y) f g e h = refl
  success-step panic panic f g e h = refl

  success-contexts :
      (s t : String) (u : Outcome (Unit {0})) (f g : Outcome T.MergedNodeSet)
      → success f ≡ success g
      → success (context s u >> f) ≡ success (context t u >> g)
  success-contexts s t (ok _) f g h = h
  success-contexts s t (err e) f g h = refl
  success-contexts s t panic f g h = refl

  success-context :
      (s t : String) (o : Outcome T.MergedNodeSet) → success (context s o) ≡ success (context t o)
  success-context s t (ok a) = refl
  success-context s t (err e) = refl
  success-context s t panic = refl

  success-add_transition_storage :
      (merged : T.MergedNodeSet) (p : AccountProof)
      → success (add_transition_storage T (λ addr. none) merged p)
        ≡ success (add_account_storage T merged p)
  unfolding add_transition_storage add_account_storage
  success-add_transition_storage merged p = elim (Bool-cases (no_storage p)) [
    | inl skipped ↦ rw skipped
    | inr some_storage ↦
        let (set, done) =
          add_storage_nodes T (new_storage_node_set T p.address) p.storage_hash p.storage in
        rw some_storage (success-contexts _ _ done _ _ (success-context _ _ (T.merge merged set)))
  ]

  success-add_transition_storages :
      (merged : T.MergedNodeSet) (ps : List AccountProof)
      → success (add_transition_storages T (λ addr. none) merged ps)
        ≡ success (add_storages T merged ps)
  unfolding add_transition_storages add_storages
  success-add_transition_storages merged [] = refl
  success-add_transition_storages merged (p ∷ ps) =
      success-step (add_transition_storage T (λ addr. none) merged p)
        (add_account_storage T merged p) _ _ (success-add_transition_storage merged p)
        (λ m. success-add_transition_storages m ps)

  -- With no proofs of the post-state the node set of a transition is that of the pre-state: both
  -- functions succeed on the same proofs and return the same set, whatever the post-state root is.
  pub node_set_from_state_transition_proofs_without_post :
      (pre_root post_root : Hash) (ps : List AccountProof)
      → success (node_set_from_state_transition_proofs T pre_root post_root ps [])
        ≡ success (node_set_from_state_proofs T pre_root ps)
  unfolding node_set_from_state_transition_proofs node_set_from_state_proofs
      add_account_orphan_nodes accounts_proof_db_and_keys add_orphan_nodes post_proofs_by_address
  node_set_from_state_transition_proofs_without_post pre_root post_root ps =
      let (set, done) = add_account_nodes T (new_account_node_set T) pre_root ps in
      success-contexts _ _ done _ _ (success-add_transition_storages (T.new_with_node_set set) ps)
