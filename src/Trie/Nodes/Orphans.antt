-- ===== src/Trie/Nodes/Orphans.antt =====
-- What `AddOrphanNodes` puts into a node set.
use mathlib.Core.List.{foldl, foldl-append}
use zk_pig.Base.{
  ℕ, Option, none, some, Slice, List, [], ◌∷◌, ◌++◌, Bytes, bytes_eq, bytes_eq_sound, Outcome, ok,
  err, panic, ◌≡◌, ◌↔◌, inl, inr, Bool-cases, refl, sym, ap, ◌∙◌, if◌then◌else◌, map, arith,
}
use zk_pig.Geth.Types.{Hash}
use zk_pig.Trie.Interface.{TrieLib, IsLawful}
use zk_pig.Trie.Nodes.{add_short_node, add_short_nodes, after_last_node, proceed, add_orphan_nodes}

module _ (T : TrieLib) where
  abbrev Offer : Type 0
  Offer = Bytes × T.Node

  -- A path that holds a node keeps it, and one that holds none takes the first that is offered.
  abbrev offered : Bytes → Option T.Node → Offer → Option T.Node
  offered p (some n) (q, orphan) = some n
  offered p none (q, orphan) = if bytes_eq q p then some orphan else none

  abbrev pub first_offered : Bytes → Option T.Node → List Offer → Option T.Node
  first_offered p = foldl (offered p)

  -- The possible orphans of a key that is gone and whose last node is short, under full paths.
  abbrev pub offers_below : Bytes → Option (List (Bytes × T.Node)) → List Offer
  offers_below prefix none = []
  offers_below prefix (some short_nodes) = map (λ o. (prefix ++ o.0, o.1)) short_nodes

  abbrev pub offers_until : Outcome (Slice ℕ × Bytes × T.LastNode) → List Offer → List Offer
  offers_until (ok (some v, prefix, last)) rest = rest
  offers_until (ok (none, prefix, last)) rest =
      offers_below prefix (T.reduce_short_node last) ++ rest
  offers_until (err e) rest = []
  offers_until panic rest = []

  -- The possible orphans of the keys before the first whose proof fails.
  abbrev pub offers_of : Hash → T.ProofDb → List Bytes → List Offer
  offers_of root db [] = []
  offers_of root db (key ∷ keys) =
      offers_until (T.verify_with_last_node root key db) (offers_of root db keys)

module _ (T : TrieLib) (L : IsLawful T) where
  nodes-add_short_node :
      (prefix : Bytes) (set : T.NodeSet) (sub_key : Bytes) (orphan : T.Node) (p : Bytes)
      → T.nodes (add_short_node T prefix set (sub_key, orphan)) p
        ≡ offered T p (T.nodes set p) (prefix ++ sub_key, orphan)
  unfolding add_short_node
  nodes-add_short_node prefix set sub_key orphan p =
      let q = prefix ++ sub_key in
      elim (Bool-cases (bytes_eq q p)) [
        | inl same ↦
            ground
              (arith, L.nodes-add_node set q orphan p, ap (T.nodes set) (bytes_eq_sound q p same))
        | inr other ↦ ground (arith, L.nodes-add_node set q orphan p)
      ]

  nodes-foldl :
      (prefix : Bytes) (shorts : List (Bytes × T.Node)) (set : T.NodeSet) (p : Bytes)
      → T.nodes (foldl (add_short_node T prefix) set shorts) p
        ≡ first_offered T p (T.nodes set p) (map (λ o. (prefix ++ o.0, o.1)) shorts)
  nodes-foldl prefix [] set p = refl
  nodes-foldl prefix ((sub_key, orphan) ∷ shorts) set p =
      nodes-foldl prefix shorts (add_short_node T prefix set (sub_key, orphan)) p
      ∙ ap (λ (o : Option T.Node). first_offered T p o (map (λ o. (prefix ++ o.0, o.1)) shorts))
          (nodes-add_short_node prefix set sub_key orphan p)

  nodes-add_short_nodes :
      (set : T.NodeSet) (prefix : Bytes) (shorts : Option (List (Bytes × T.Node))) (p : Bytes)
      → T.nodes (add_short_nodes T set prefix shorts) p
        ≡ first_offered T p (T.nodes set p) (offers_below T prefix shorts)
  unfolding add_short_nodes
  nodes-add_short_nodes set prefix none p = refl
  nodes-add_short_nodes set prefix (some shorts) p = nodes-foldl prefix shorts set p

  nodes-after_last_node :
      (set : T.NodeSet) (root : Hash) (db : T.ProofDb) (keys : List Bytes) (p : Bytes)
      (v : Outcome (Slice ℕ × Bytes × T.LastNode))
      → ((s : T.NodeSet)
          → T.nodes (add_orphan_nodes T s root db keys).0 p
            ≡ first_offered T p (T.nodes s p) (offers_of T root db keys))
      → T.nodes (proceed T (after_last_node T set v) (λ s. add_orphan_nodes T s root db keys)).0 p
        ≡ first_offered T p (T.nodes set p) (offers_until T v (offers_of T root db keys))
  unfolding after_last_node proceed
  nodes-after_last_node set root db keys p (ok (some v, prefix, last)) rest = rest set
  nodes-after_last_node set root db keys p (ok (none, prefix, last)) rest =
      rest (add_short_nodes T set prefix (T.reduce_short_node last))
      ∙ rw nodes-add_short_nodes (
          sym (
            foldl-append (offered T p) (T.nodes set p)
              (offers_below T prefix (T.reduce_short_node last)) (offers_of T root db keys)))
  nodes-after_last_node set root db keys p (err e) rest = refl
  nodes-after_last_node set root db keys p panic rest = refl

  -- At every path that held a node the set keeps that node, also when the call ends in an error. At
  -- every other path it takes the first of the orphans that are offered there, if there is one: the
  -- orphans offered are those of the keys before the first whose proof fails that have no value in
  -- the post-state and whose last node is short, under the path of that node and each suffix.
  pub nodes-add_orphan_nodes :
      (set : T.NodeSet) (root : Hash) (db : T.ProofDb) (keys : List Bytes) (p : Bytes)
      → T.nodes (add_orphan_nodes T set root db keys).0 p
        ≡ first_offered T p (T.nodes set p) (offers_of T root db keys)
  unfolding add_orphan_nodes
  nodes-add_orphan_nodes set root db [] p = refl
  nodes-add_orphan_nodes set root db (key ∷ keys) p =
      nodes-after_last_node set root db keys p (T.verify_with_last_node root key db)
        (λ s. nodes-add_orphan_nodes s root db keys p)

  first_offered-some :
      (p : Bytes) (n : T.Node) (offers : List (Bytes × T.Node))
      → first_offered T p (some n) offers ≡ some n
  first_offered-some p n [] = refl
  first_offered-some p n (o ∷ offers) = first_offered-some p n offers

  -- A node of the pre-state is never replaced, whatever the proofs of the post-state are.
  pub add_orphan_nodes_keeps :
      (set : T.NodeSet) (root : Hash) (db : T.ProofDb) (keys : List Bytes) (p : Bytes) (n : T.Node)
      → T.nodes set p ≡ some n
      → T.nodes (add_orphan_nodes T set root db keys).0 p ≡ some n
  add_orphan_nodes_keeps set root db keys p n h =
      nodes-add_orphan_nodes set root db keys p
      ∙ rw h (first_offered-some p n (offers_of T root db keys))

module _ (T : TrieLib) where
  -- Each proof proves the value of its key, or that it has none.
  abbrev pub AllProved : Hash → T.ProofDb → List Bytes → Type 0
  AllProved root db [] = Unit
  AllProved root db (key ∷ keys) =
      ((v : Slice ℕ × Bytes × T.LastNode) × (T.verify_with_last_node root key db ≡ ok v))
      × AllProved root db keys

  proceed-ok :
      (set : T.NodeSet) (v : Outcome (Slice ℕ × Bytes × T.LastNode))
      (rest : T.NodeSet → T.NodeSet × Outcome (Unit {0})) (P : Type 0)
      → ((s : T.NodeSet) → ((rest s).1 ≡ ok tt) ↔ P)
      → ((proceed T (after_last_node T set v) rest).1 ≡ ok tt)
        ↔ (((x : Slice ℕ × Bytes × T.LastNode) × (v ≡ ok x)) × P)
  unfolding after_last_node proceed
  proceed-ok set (ok (some v, prefix, last)) rest P h =
      (λ q. (((some v, prefix, last), refl), (h _).0 q), λ q. (h _).1 q.1)
  proceed-ok set (ok (none, prefix, last)) rest P h =
      (λ q. (((none, prefix, last), refl), (h _).0 q), λ q. (h _).1 q.1)
  proceed-ok set (err e) rest P h = (λ q. cc, λ q. absurd (cc q.0.1))
  proceed-ok set panic rest P h = (λ q. cc, λ q. absurd (cc q.0.1))

  -- The call ends without an error exactly if every proof proves the value of its key, or that it has
  -- none.
  pub add_orphan_nodes-ok_iff :
      (set : T.NodeSet) (root : Hash) (db : T.ProofDb) (keys : List Bytes)
      → ((add_orphan_nodes T set root db keys).1 ≡ ok tt) ↔ AllProved root db keys
  unfolding add_orphan_nodes
  add_orphan_nodes-ok_iff set root db [] = (λ _. tt, λ _. refl)
  add_orphan_nodes-ok_iff set root db (key ∷ keys) =
      proceed-ok set (T.verify_with_last_node root key db) (λ s. add_orphan_nodes T s root db keys)
        (AllProved root db keys) (λ s. add_orphan_nodes-ok_iff s root db keys)
