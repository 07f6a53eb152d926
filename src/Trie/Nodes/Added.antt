-- ===== src/Trie/Nodes/Added.antt =====
-- What `AddNodes` puts into a node set.
use mathlib.Core.List.{foldl, foldl-append}
use zk_pig.Base.{
  Option, some, List, [], ◌∷◌, ◌++◌, Bytes, bytes_eq, Outcome, ok, err, panic, ◌≡◌, ◌↔◌, ◌∙◌, sym,
  refl, if◌then◌else◌,
}
use zk_pig.Geth.Types.{Hash}
use zk_pig.Trie.Interface.{TrieLib, IsLawful, Report, node, leaf}
use zk_pig.Trie.Nodes.{report, after_key, proceed, add_nodes}

module _ (T : TrieLib) where
  -- The node that the last report at a path gives, if there is one.
  abbrev noted : Bytes → Option T.Node → Report → Option T.Node
  noted p old (node hash key blob) = if bytes_eq key p then some (T.new_node hash blob) else old
  noted p old (leaf parent blob) = old

  abbrev pub last_noted : Bytes → Option T.Node → List Report → Option T.Node
  last_noted p = foldl (noted p)

  -- The reports of the keys, up to and including the first key whose proof fails.
  abbrev pub upto_failure : List Report × Outcome (Unit {0}) → List Report → List Report
  upto_failure (reports, ok _) rest = reports ++ rest
  upto_failure (reports, err e) rest = reports
  upto_failure (reports, panic) rest = reports

  abbrev pub reports_of : Hash → T.ProofDb → List Bytes → List Report
  reports_of root db [] = []
  reports_of root db (key ∷ keys) =
      upto_failure (T.verify_with_reporting root key db) (reports_of root db keys)

  -- The proof of every key is valid.
  abbrev pub AllVerified : Hash → T.ProofDb → List Bytes → Type 0
  AllVerified root db [] = Unit
  AllVerified root db (key ∷ keys) =
      ((T.verify_with_reporting root key db).1 ≡ ok tt) × AllVerified root db keys

module _ (T : TrieLib) (L : IsLawful T) where
  nodes-reports :
      (set : T.NodeSet) (rs : List Report) (p : Bytes)
      → T.nodes (foldl (report T) set rs) p ≡ last_noted T p (T.nodes set p) rs
  unfolding report
  nodes-reports set [] p = refl
  nodes-reports set (node hash key blob ∷ rs) p =
      rw (← L.nodes-add_node set key (T.new_node hash blob) p)
        (nodes-reports (T.add_node set key (T.new_node hash blob)) rs p)
  nodes-reports set (leaf parent blob ∷ rs) p =
      rw (← L.nodes-add_leaf set parent blob p) (nodes-reports (T.add_leaf set parent blob) rs p)

  last_noted-append :
      (p : Bytes) (old : Option T.Node) (rs qs : List Report)
      → last_noted T p old (rs ++ qs) ≡ last_noted T p (last_noted T p old rs) qs
  last_noted-append p old rs qs = foldl-append (noted T p) old rs qs

  nodes-after_key :
      (set : T.NodeSet) (root : Hash) (db : T.ProofDb) (keys : List Bytes) (p : Bytes)
      (v : List Report × Outcome (Unit {0}))
      → ((s : T.NodeSet)
          → T.nodes (add_nodes T s root db keys).0 p
            ≡ last_noted T p (T.nodes s p) (reports_of T root db keys))
      → T.nodes (proceed T (after_key T set v) (λ s. add_nodes T s root db keys)).0 p
        ≡ last_noted T p (T.nodes set p) (upto_failure T v (reports_of T root db keys))
  unfolding after_key proceed
  nodes-after_key set root db keys p (rs, ok u) rest =
      rest (foldl (report T) set rs)
      ∙ (rw (nodes-reports set rs p)
          (sym (last_noted-append p (T.nodes set p) rs (reports_of T root db keys))))
  nodes-after_key set root db keys p (rs, err e) rest = nodes-reports set rs p
  nodes-after_key set root db keys p (rs, panic) rest = nodes-reports set rs p

  -- At every path the set holds the node of the last report at that path among the reports of the
  -- keys up to and including the first whose proof fails, and what it held before if there is none.
  pub nodes-add_nodes :
      (set : T.NodeSet) (root : Hash) (db : T.ProofDb) (keys : List Bytes) (p : Bytes)
      → T.nodes (add_nodes T set root db keys).0 p
        ≡ last_noted T p (T.nodes set p) (reports_of T root db keys)
  unfolding add_nodes
  nodes-add_nodes set root db [] p = refl
  nodes-add_nodes set root db (key ∷ keys) p =
      nodes-after_key set root db keys p (T.verify_with_reporting root key db)
        (λ s. nodes-add_nodes s root db keys p)

module _ (T : TrieLib) where
  proceed-ok :
      (set : T.NodeSet) (v : List Report × Outcome (Unit {0}))
      (rest : T.NodeSet → T.NodeSet × Outcome (Unit {0})) (P : Type 0)
      → ((s : T.NodeSet) → ((rest s).1 ≡ ok tt) ↔ P)
      → ((proceed T (after_key T set v) rest).1 ≡ ok tt) ↔ ((v.1 ≡ ok tt) × P)
  unfolding after_key proceed
  proceed-ok set (rs, ok u) rest P h = (λ q. (refl, (h _).0 q), λ q. (h _).1 q.1)
  proceed-ok set (rs, err e) rest P h = (λ q. cc, λ q. absurd (cc q.0))
  proceed-ok set (rs, panic) rest P h = (λ q. cc, λ q. absurd (cc q.0))

  -- The call ends without an error exactly if the proof of every key is valid.
  pub add_nodes-ok_iff :
      (set : T.NodeSet) (root : Hash) (db : T.ProofDb) (keys : List Bytes)
      → ((add_nodes T set root db keys).1 ≡ ok tt) ↔ AllVerified T root db keys
  unfolding add_nodes
  add_nodes-ok_iff set root db [] = (λ _. tt, λ _. refl)
  add_nodes-ok_iff set root db (key ∷ keys) =
      proceed-ok set (T.verify_with_reporting root key db) (λ s. add_nodes T s root db keys)
        (AllVerified T root db keys) (λ s. add_nodes-ok_iff s root db keys)
