-- ===== src/Chain/Written.antt =====
-- What the database holds after codes, headers and nodes were written to it.
use zk_pig.Base.{
  ℕ, Option, none, some, List, [], ◌∷◌, Slice, items, ok, deref, >>=-eq-ok, array_eq, if◌then◌else◌,
  ◌≡◌, refl, sym, ap, ◌∙◌,
}
use zk_pig.Geth.Types.{Hash, Header}
use zk_pig.Chain.{
  ChainLib, write_one_code, write_codes, write_headers, write_one_node, write_nodes_to_hash_db,
}

-- Codes, headers and trie nodes lie under keys of their own, by hash.
pub record IsLawful {HeaderChain : Type 0} (C : ChainLib HeaderChain) : Type 0 where
  pub read_code-write_code :
      (db : C.Db) (h : Hash) (code : Slice ℕ) (k : Hash)
      → C.read_code (C.write_code db h code) k ≡ (if array_eq h k then code else C.read_code db k)
  pub read_code-write_header :
      (db : C.Db) (h : Header) (k : Hash) → C.read_code (C.write_header db h) k ≡ C.read_code db k
  pub read_code-write_node :
      (db : C.Db) (h : Hash) (node : Slice ℕ) (k : Hash)
      → C.read_code (C.write_legacy_trie_node db h node) k ≡ C.read_code db k
  pub read_header-write_header :
      (db : C.Db) (h : Header) (k : Hash)
      → C.read_header (C.write_header db h) k
        ≡ (if array_eq (C.header_hash h) k then some h else C.read_header db k)
  pub read_header-write_code :
      (db : C.Db) (h : Hash) (code : Slice ℕ) (k : Hash)
      → C.read_header (C.write_code db h code) k ≡ C.read_header db k
  pub read_header-write_node :
      (db : C.Db) (h : Hash) (node : Slice ℕ) (k : Hash)
      → C.read_header (C.write_legacy_trie_node db h node) k ≡ C.read_header db k
  pub read_node-write_node :
      (db : C.Db) (h : Hash) (node : Slice ℕ) (k : Hash)
      → C.read_legacy_trie_node (C.write_legacy_trie_node db h node) k
        ≡ (if array_eq h k then node else C.read_legacy_trie_node db k)
  pub read_node-write_code :
      (db : C.Db) (h : Hash) (code : Slice ℕ) (k : Hash)
      → C.read_legacy_trie_node (C.write_code db h code) k ≡ C.read_legacy_trie_node db k
  pub read_node-write_header :
      (db : C.Db) (h : Header) (k : Hash)
      → C.read_legacy_trie_node (C.write_header db h) k ≡ C.read_legacy_trie_node db k

module _ {HeaderChain : Type 0} (C : ChainLib HeaderChain) where
  -- The last of the blobs that hash to the key, or what was there before.
  abbrev pub last_blob : Hash → List (Slice ℕ) → Slice ℕ → Slice ℕ
  last_blob k [] old = old
  last_blob k (b ∷ bs) old =
      last_blob k bs (if array_eq (C.keccak256_hash (items b)) k then b else old)

  abbrev pub last_header : Hash → List (Option Header) → Option Header → Option Header
  last_header k [] old = old
  last_header k (none ∷ hs) old = last_header k hs old
  last_header k (some h ∷ hs) old =
      last_header k hs (if array_eq (C.header_hash h) k then some h else old)

module _ {HeaderChain : Type 0} (C : ChainLib HeaderChain) (L : IsLawful C) where
  pub read_code-write_codes :
      (codes : List (Slice ℕ)) (db : C.Db) (k : Hash)
      → C.read_code (write_codes C db codes) k ≡ last_blob C k codes (C.read_code db k)
  unfolding write_codes write_one_code
  read_code-write_codes [] db k = refl
  read_code-write_codes (c ∷ cs) db k =
      read_code-write_codes cs (write_one_code C db c) k
      ∙ ap (last_blob C k cs) (L.read_code-write_code db (C.keccak256_hash (items c)) c k)

  pub read_header-write_codes :
      (codes : List (Slice ℕ)) (db : C.Db) (k : Hash)
      → C.read_header (write_codes C db codes) k ≡ C.read_header db k
  unfolding write_codes write_one_code
  read_header-write_codes [] db k = refl
  read_header-write_codes (c ∷ cs) db k =
      read_header-write_codes cs (write_one_code C db c) k
      ∙ L.read_header-write_code db (C.keccak256_hash (items c)) c k

  pub read_node-write_codes :
      (codes : List (Slice ℕ)) (db : C.Db) (k : Hash)
      → C.read_legacy_trie_node (write_codes C db codes) k ≡ C.read_legacy_trie_node db k
  unfolding write_codes write_one_code
  read_node-write_codes [] db k = refl
  read_node-write_codes (c ∷ cs) db k =
      read_node-write_codes cs (write_one_code C db c) k
      ∙ L.read_node-write_code db (C.keccak256_hash (items c)) c k

  pub read_node-write_nodes :
      (nodes : List (Slice ℕ)) (db : C.Db) (k : Hash)
      → C.read_legacy_trie_node (write_nodes_to_hash_db C db nodes) k
        ≡ last_blob C k nodes (C.read_legacy_trie_node db k)
  unfolding write_nodes_to_hash_db write_one_node
  read_node-write_nodes [] db k = refl
  read_node-write_nodes (n ∷ ns) db k =
      read_node-write_nodes ns (write_one_node C db n) k
      ∙ ap (last_blob C k ns) (L.read_node-write_node db (C.keccak256_hash (items n)) n k)

  pub read_code-write_nodes :
      (nodes : List (Slice ℕ)) (db : C.Db) (k : Hash)
      → C.read_code (write_nodes_to_hash_db C db nodes) k ≡ C.read_code db k
  unfolding write_nodes_to_hash_db write_one_node
  read_code-write_nodes [] db k = refl
  read_code-write_nodes (n ∷ ns) db k =
      read_code-write_nodes ns (write_one_node C db n) k
      ∙ L.read_code-write_node db (C.keccak256_hash (items n)) n k

  pub read_header-write_nodes :
      (nodes : List (Slice ℕ)) (db : C.Db) (k : Hash)
      → C.read_header (write_nodes_to_hash_db C db nodes) k ≡ C.read_header db k
  unfolding write_nodes_to_hash_db write_one_node
  read_header-write_nodes [] db k = refl
  read_header-write_nodes (n ∷ ns) db k =
      read_header-write_nodes ns (write_one_node C db n) k
      ∙ L.read_header-write_node db (C.keccak256_hash (items n)) n k

  -- Writing headers that are all there succeeds, and stores them.
  pub read-write_headers :
      (headers : List (Option Header)) (db : C.Db) {db' : C.Db}
      → write_headers C db headers ≡ ok db'
      → (k : Hash)
      → (C.read_header db' k ≡ last_header C k headers (C.read_header db k))
        × (C.read_code db' k ≡ C.read_code db k)
        × (C.read_legacy_trie_node db' k ≡ C.read_legacy_trie_node db k)
  unfolding write_headers
  read-write_headers [] db {db'} h k =
      let e : db ≡ db' = cc in
      (
        ap (λ (d : C.Db). C.read_header d k) (sym e),
        ap (λ (d : C.Db). C.read_code d k) (sym e),
        ap (λ (d : C.Db). C.read_legacy_trie_node d k) (sym e),
      )
  read-write_headers (none ∷ hs) db h k = cc
  read-write_headers (some x ∷ hs) db h k =
      let (_, _, h') = >>=-eq-ok _ (deref x.number) h in
      let (p, q, n) = read-write_headers hs (C.write_header db x) h' k in
      (
        p ∙ ap (last_header C k hs) (L.read_header-write_header db x k),
        q ∙ L.read_code-write_header db x k,
        n ∙ L.read_node-write_header db x k,
      )
