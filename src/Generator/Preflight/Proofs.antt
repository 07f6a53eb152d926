-- ===== src/Generator/Preflight/Proofs.antt =====
-- Which proofs `fetchStateProofs` of src/generator/preflight.go fetches.
use mathlib.Core.List.{append_assoc, append-nil}
use zk_pig.Base.{
  ℤ, Option, List, [], ◌∷◌, ◌++◌, filter, Map, lookup, Bool, true, false, not, Bool-cases, inl, inr,
  Outcome, ok, >>=-eq-ok, ok_inj, map_each, ◌≡◌, refl, sym, ap, ◌∙◌,
}
use zk_pig.Geth.Types.{Hash, Address}
use zk_pig.Geth.Interface.{Geth}
use zk_pig.Trie.Interface.{TrieLib}
use zk_pig.Trie.Proofs.{AccountProof}
use zk_pig.State.Rpc.{RpcLib}
use zk_pig.Evm.Interface.{EvmLib}
use zk_pig.Chain.{ChainLib}
use zk_pig.Generator.Interface.{GenLib}
use zk_pig.Generator.Preflight.{
  all_slots, deleted_slots, is_kept, proof_of, Proofs, fetch_account, fetch_accounts,
}

module _ {G : Geth} {T : TrieLib} {R : RpcLib} {E : EvmLib} {C : ChainLib E.HeaderChain}
    (L : GenLib G T R E C) (final : E.StateDb) (parent number : Option ℤ)
    (storage : Map 20 (Map 32 Hash)) where
  -- The proof of an account before the block, with the slots that were read.
  abbrev pub pre_proof : Address → Outcome AccountProof
  pre_proof addr = proof_of L addr (all_slots L (lookup addr storage)) parent

  -- The proof of an account after the block, with the slots that were deleted.
  abbrev pub post_proof : Address → Outcome AccountProof
  post_proof addr = proof_of L addr (deleted_slots L final addr (lookup addr storage)) number

  -- A slot of the account was deleted, or the account was.
  abbrev pub is_changed : Address → Bool
  is_changed addr = not (is_kept L final addr (lookup addr storage))

  -- Exactly these proofs stand behind those that were there.
  abbrev Behind : List Address → Proofs L → Proofs L → Type 0
  Behind addrs (pre, post) (pre', post') =
      (ps : List AccountProof) × (qs : List AccountProof) × (map_each pre_proof addrs ≡ ok ps)
      × (map_each post_proof (filter is_changed addrs) ≡ ok qs)
      × (pre' ≡ pre ++ ps)
      × (post' ≡ post ++ qs)

  kept_step :
      (addr : Address) (addrs : List Address) (pre post pre' post' : List AccountProof)
      (p : AccountProof)
      → is_kept L final addr (lookup addr storage) ≡ true
      → pre_proof addr ≡ ok p
      → Behind addrs (pre ++ (p ∷ []), post) (pre', post')
      → Behind (addr ∷ addrs) (pre, post) (pre', post')
  kept_step addr addrs pre post pre' post' p k e (ps, qs, a, b, c, d) =
      (p ∷ ps, qs, rw (e, a) refl, rw k b, c ∙ append_assoc pre (p ∷ []) ps, d)

  changed_step :
      (addr : Address) (addrs : List Address) (pre post pre' post' : List AccountProof)
      (p q : AccountProof)
      → is_kept L final addr (lookup addr storage) ≡ false
      → pre_proof addr ≡ ok p
      → post_proof addr ≡ ok q
      → Behind addrs (pre ++ (p ∷ []), post ++ (q ∷ [])) (pre', post')
      → Behind (addr ∷ addrs) (pre, post) (pre', post')
  changed_step addr addrs pre post pre' post' p q k e e' (ps, qs, a, b, c, d) = (
    p ∷ ps,
    q ∷ qs,
    rw (e, a) refl,
    rw (k, e', b) refl,
    c ∙ append_assoc pre (p ∷ []) ps,
    d ∙ append_assoc post (q ∷ []) qs,
  )

  fetch_accounts-Behind :
      (addrs : List Address) (pre post pre' post' : List AccountProof)
      → fetch_accounts L final parent number storage (pre, post) addrs ≡ ok (pre', post')
      → Behind addrs (pre, post) (pre', post')
  unfolding fetch_accounts fetch_account
  fetch_accounts-Behind [] pre post pre' post' h =
      let e : (pre, post) ≡ (pre', post') = ok_inj h in
      (
        [],
        [],
        refl,
        refl,
        ap (λ (x : Proofs L). x.0) (sym e) ∙ sym (append-nil pre),
        ap (λ (x : Proofs L). x.1) (sym e) ∙ sym (append-nil post),
      )
  fetch_accounts-Behind (addr ∷ addrs) pre post pre' post' h =
      let (next, e, rest) =
        >>=-eq-ok _ (fetch_account L final parent number (lookup addr storage) (pre, post) addr)
          h in
      let (p, e', got) = >>=-eq-ok _ (pre_proof addr) e in
      elim (Bool-cases (is_kept L final addr (lookup addr storage))) [
        | inl k ↦
            let same : (pre ++ (p ∷ []), post) ≡ next = ok_inj (rw k at got) in
            kept_step addr addrs pre post pre' post' p k e'
              (fetch_accounts-Behind addrs (pre ++ (p ∷ [])) post pre' post' (rw (← same) at rest))
        | inr c ↦
            let (q, e'', got') = >>=-eq-ok _ (post_proof addr) (rw c at got) in
            let same : (pre ++ (p ∷ []), post ++ (q ∷ [])) ≡ next = ok_inj got' in
            changed_step addr addrs pre post pre' post' p q c e' e'' (
              fetch_accounts-Behind addrs (pre ++ (p ∷ [])) (post ++ (q ∷ [])) pre' post'
                (rw (← same) at rest))
      ]

  -- The proofs of the state before the block are those of all addresses, in order, and the proofs
  -- of the state after it are those of the addresses that were changed.
  pub fetch_accounts-ok :
      (addrs : List Address) (pre post : List AccountProof)
      → fetch_accounts L final parent number storage ([], []) addrs ≡ ok (pre, post)
      → (map_each pre_proof addrs ≡ ok pre)
        × (map_each post_proof (filter is_changed addrs) ≡ ok post)
  fetch_accounts-ok addrs pre post h =
      let (ps, qs, a, b, c, d) = fetch_accounts-Behind addrs [] [] pre post h in
      (rw (← c) at a, rw (← d) at b)
