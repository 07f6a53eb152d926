-- ===== src/Trie/Sample.antt =====
-- A value of the interface that keeps the laws of node sets: a node set is an association list with
-- the latest entry first, and a proof is valid if its key is not empty.
use zk_pig.Base.{
  Option, none, some, List, [], ◌∷◌, ◌++◌, String, Bytes, bytes_eq, Outcome, ok, err, error, zeros,
  refl, if◌then◌else◌,
}
use zk_pig.Geth.Types.{Hash}
use zk_pig.Trie.Interface.{TrieLib, IsLawful, Report, node}

abbrev pub Entry : Type 0
Entry = Hash × Bytes

abbrev pub Entries : Type 0
Entries = Hash × List (Bytes × Entry)

unfoldable pub find : List (Bytes × Entry) → Bytes → Option Entry
find [] p = none
find ((q, n) ∷ rest) p = if bytes_eq q p then some n else find rest p

unfoldable pub find_in : Entries → Bytes → Option Entry
find_in (owner, entries) p = find entries p

unfoldable pub put_in : Entries → Bytes → Entry → Entries
put_in (owner, entries) p n = (owner, (p, n) ∷ entries)

unfoldable pub verify : Hash → Bytes → List String → List Report × Outcome (Unit {0})
verify root [] db = ([], err (error "empty key"))
verify root (b ∷ bs) db = (node root (b ∷ bs) (1 ∷ []) ∷ [], ok tt)

unfoldable pub read_proofs : List String → List String → Outcome (List String)
read_proofs [] db = err (error "no proof")
read_proofs (p ∷ ps) db = ok (p ∷ ps ++ db)

abbrev pub sample : TrieLib
sample = record {
  keccak256 = λ b. b;
  keccak256_hash = λ b. zeros 32;
  hex_decode = λ s. ok (1 ∷ []);
  ProofDb = List String;
  new_proof_db = [];
  store_hex_proofs = read_proofs;
  Node = Entry;
  new_node = λ h b. (h, b);
  NodeSet = Entries;
  new_node_set = λ owner. (owner, []);
  add_node = put_in;
  add_leaf = λ s h b. s;
  nodes = find_in;
  MergedNodeSet = List Entries;
  new_with_node_set = λ s. s ∷ [];
  merge = λ m s. ok (s ∷ m);
  verify_with_reporting = verify;
  LastNode = Unit {0};
  verify_with_last_node = λ root key db. ok (none, key, tt);
  reduce_short_node = λ n. some ((1 ∷ [], (zeros 32, 7 ∷ [])) ∷ (2 ∷ [], (zeros 32, 8 ∷ [])) ∷ []);
}

pub sample-IsLawful : IsLawful sample
unfolding find_in put_in find
sample-IsLawful = record {
  nodes-new_node_set = λ owner p. refl;
  nodes-add_node = λ s p n q. refl;
  nodes-add_leaf = λ s h b q. refl;
}
