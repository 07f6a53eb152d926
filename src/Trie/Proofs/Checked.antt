-- ===== src/Trie/Proofs/Checked.antt =====
-- What it means that the proofs of accounts and slots are read into one database and checked there,
-- beside `accountsProofDBAndKeys` and `storageProofDBAndKeys` of src/ethereum/trie.
use zk_pig.Base.{
  List, [], ◌∷◌, ◌++◌, Slice, items, Bytes, Bool, true, false, ◌==◌, length, Bool-cases, inl, inr,
  ◌⊎◌, Error, Outcome, ok, err, panic, ◌>>=◌, context, >>=-eq-ok, context-eq-ok, ok_inj, ◌≡◌, ◌↔◌,
  refl, sym, subst,
}
use zk_pig.Trie.Interface.{TrieLib}
use zk_pig.Trie.Proofs.{
  AccountProof, StorageProof, DbAndKeys, storage_trie_key, account_trie_key, account_proofs_from,
  accounts_proof_db_and_keys, storage_proof_step, storage_proofs_from, storage_proof_db_and_keys,
}

-- A slot that comes without a proof, which is not checked.
abbrev pub without_proof : StorageProof → Bool
without_proof p = length p.proof == 0

module _ (T : TrieLib) where
  -- The proofs of the slots that have one are read in order, from one database to the other.
  abbrev pub SlotsRead : T.ProofDb → List StorageProof → T.ProofDb → Type 0
  SlotsRead db [] out = db ≡ out
  SlotsRead db (p ∷ ps) out =
      ((without_proof p ≡ true) × SlotsRead db ps out)
      ⊎ ((without_proof p ≡ false)
          × (db' : T.ProofDb) × (T.store_hex_proofs p.proof db ≡ ok db')
          × SlotsRead db' ps out)

  -- The proofs of all accounts are read in order.
  abbrev pub AccountsRead : T.ProofDb → List AccountProof → T.ProofDb → Type 0
  AccountsRead db [] out = db ≡ out
  AccountsRead db (p ∷ ps) out =
      (db' : T.ProofDb) × (T.store_hex_proofs p.proof db ≡ ok db') × AccountsRead db' ps out

  -- The proof of an account is refused with an error, after those before it were read.
  abbrev pub AccountsRefused : T.ProofDb → List AccountProof → Type 0
  AccountsRefused db [] = ⊥
  AccountsRefused db (p ∷ ps) =
      ((e : Error) × (T.store_hex_proofs p.proof db ≡ err e))
      ⊎ ((db' : T.ProofDb) × (T.store_hex_proofs p.proof db ≡ ok db') × AccountsRefused db' ps)

  -- What holds of proofs that could be read, and of those that could be or were refused.
  module _ (P : T.ProofDb → List Bytes → Type 0) where
    abbrev pub IfRead : Outcome (DbAndKeys T) → Type 0
    IfRead (ok (db, keys)) = P db keys
    IfRead (err e) = ⊥
    IfRead panic = ⊥

    abbrev pub IfNotRefused : Outcome (DbAndKeys T) → Type 0
    IfNotRefused (ok (db, keys)) = P db keys
    IfNotRefused (err e) = Unit
    IfNotRefused panic = ⊥

  module _ (Q : T.ProofDb → Bytes → Type 0) where
    -- Every slot with a proof has a key that can be decoded, and whose hash the database proves.
    abbrev pub SlotsChecked : T.ProofDb → List StorageProof → Type 0
    SlotsChecked db [] = Unit
    SlotsChecked db (p ∷ ps) =
        (without_proof p ≡ false
          → (key : Bytes) × (T.hex_decode p.key ≡ ok key) × Q db (T.keccak256 key))
        × SlotsChecked db ps

    -- The database proves the hash of every address.
    abbrev pub AccountsChecked : T.ProofDb → List AccountProof → Type 0
    AccountsChecked db [] = Unit
    AccountsChecked db (p ∷ ps) = Q db (T.keccak256 p.address.bytes) × AccountsChecked db ps

    -- The slots of an account are read and checked.
    abbrev pub StorageProven : Slice StorageProof → Type 0
    StorageProven storage =
        (db : T.ProofDb) × SlotsRead T.new_proof_db (items storage) db
        × SlotsChecked db (items storage)

    -- The accounts are read and checked, or they cannot be read.
    abbrev pub AccountsProven : List AccountProof → Type 0
    AccountsProven ps =
        ((db : T.ProofDb) × AccountsRead T.new_proof_db ps db × AccountsChecked db ps)
        ⊎ AccountsRefused T.new_proof_db ps

  module _ (Q : T.ProofDb → Bytes → Type 0) (P : T.ProofDb → List Bytes → Type 0)
      (split : (db : T.ProofDb) (keys : List Bytes) (key : Bytes)
        → P db (keys ++ (key ∷ [])) ↔ (P db keys × Q db key)) where
    slots_to :
        (db : T.ProofDb) (keys : List Bytes) (ps : List StorageProof) {out : DbAndKeys T}
        → storage_proofs_from T (db, keys) ps ≡ ok out
        → P out.0 out.1
        → (o : T.ProofDb) × SlotsRead db ps o × P o keys × SlotsChecked Q o ps
    unfolding storage_proofs_from storage_proof_step storage_proof_db_and_keys storage_trie_key
    slots_to db keys [] {out} e h =
        (db, refl, subst (λ (d : DbAndKeys T). P d.0 d.1) (sym (ok_inj e)) h, tt)
    slots_to db keys (p ∷ ps) {out} e h = elim (Bool-cases (without_proof p)) [
      | inl skipped ↦
          let (o, s, h', c) = slots_to db keys ps (rw skipped at e) h in
          (o, inl (skipped, s), h', (λ n. absurd (cc), c))
      | inr some_proof ↦
          let (acc, e1, rest) = >>=-eq-ok _ (storage_proof_step T (db, keys) p) e in
          let (key, ek, e2) =
            >>=-eq-ok _ (context "failed to decode storage key" (T.hex_decode p.key))
              (rw some_proof at e1) in
          let (db', es, e3) = >>=-eq-ok _ (T.store_hex_proofs p.proof db) e2 in
          let rest' =
            subst (λ (d : DbAndKeys T). storage_proofs_from T d ps ≡ ok out) (sym (ok_inj e3))
              rest in
          let (o, s, h', c) = slots_to db' (keys ++ (T.keccak256 key ∷ [])) ps rest' h in
          let (before, here_is) = (split o keys (T.keccak256 key)).0 h' in
          (
            o,
            inr (some_proof, db', es, s),
            before,
            (
              λ n. (
                key,
                context-eq-ok "failed to decode storage key" (T.hex_decode p.key) ek,
                here_is,
              ),
              c,
            ),
          )
    ]

    slots_from :
        (db : T.ProofDb) (keys : List Bytes) (ps : List StorageProof) (o : T.ProofDb)
        → SlotsRead db ps o
        → P o keys
        → SlotsChecked Q o ps
        → (out : DbAndKeys T) × (storage_proofs_from T (db, keys) ps ≡ ok out) × P out.0 out.1
    unfolding storage_proofs_from storage_proof_step storage_proof_db_and_keys storage_trie_key
    slots_from db keys [] o s h c = ((db, keys), refl, subst (λ d. P d keys) (sym s) h)
    slots_from db keys (p ∷ ps) o (inl (skipped, s)) h (_, c) =
        rw skipped (slots_from db keys ps o s h c)
    slots_from db keys (p ∷ ps) o (inr (some_proof, db', es, s)) h (check, c) =
        let (key, ek, q) = check some_proof in
        let more = keys ++ (T.keccak256 key ∷ []) in
        let rest = slots_from db' more ps o s ((split o keys (T.keccak256 key)).1 (h, q)) c in
        rw (some_proof, ek, es) rest

    accounts_to :
        (db : T.ProofDb) (keys : List Bytes) (ps : List AccountProof) {out : DbAndKeys T}
        → account_proofs_from T (db, keys) ps ≡ ok out
        → P out.0 out.1
        → (o : T.ProofDb) × AccountsRead db ps o × P o keys × AccountsChecked Q o ps
    unfolding account_proofs_from accounts_proof_db_and_keys account_trie_key
    accounts_to db keys [] {out} e h =
        (db, refl, subst (λ (d : DbAndKeys T). P d.0 d.1) (sym (ok_inj e)) h, tt)
    accounts_to db keys (p ∷ ps) e h =
        let (db', es, rest) = >>=-eq-ok _ (T.store_hex_proofs p.proof db) e in
        let key = T.keccak256 p.address.bytes in
        let (o, s, h', c) = accounts_to db' (keys ++ (key ∷ [])) ps rest h in
        let (before, here_is) = (split o keys key).0 h' in (o, (db', es, s), before, (here_is, c))

    accounts_from :
        (db : T.ProofDb) (keys : List Bytes) (ps : List AccountProof) (o : T.ProofDb)
        → AccountsRead db ps o
        → P o keys
        → AccountsChecked Q o ps
        → (out : DbAndKeys T) × (account_proofs_from T (db, keys) ps ≡ ok out) × P out.0 out.1
    unfolding account_proofs_from accounts_proof_db_and_keys account_trie_key
    accounts_from db keys [] o s h c = ((db, keys), refl, subst (λ d. P d keys) (sym s) h)
    accounts_from db keys (p ∷ ps) o (db', es, s) h (q, c) =
        let key = T.keccak256 p.address.bytes in
        rw es (accounts_from db' (keys ++ (key ∷ [])) ps o s ((split o keys key).1 (h, q)) c)

  refused_to :
      (acc : DbAndKeys T) (ps : List AccountProof) {e : Error}
      → account_proofs_from T acc ps ≡ err e
      → AccountsRefused acc.0 ps
  unfolding account_proofs_from accounts_proof_db_and_keys
  refused_to acc [] h = cc
  refused_to (db, keys) (p ∷ ps) {e} h =
      of (T.store_hex_proofs p.proof db) refl (λ db' h'. refused_to (db', keys ++ (_ ∷ [])) ps h') h
    where
      of :
          (o : Outcome T.ProofDb)
          → T.store_hex_proofs p.proof db ≡ o
          → ((db' : T.ProofDb)
              → account_proofs_from T (db', keys ++ (account_trie_key T p.address ∷ [])) ps ≡ err e
              → AccountsRefused db' ps)
          → (do
            db' ← o
            account_proofs_from T (db', keys ++ (account_trie_key T p.address ∷ [])) ps)
            ≡ err e
          → AccountsRefused db (p ∷ ps)
      of (ok db') is rest h' = inr (db', is, rest db' h')
      of (err x) is rest h' = inl (x, is)
      of panic is rest h' = cc

  refused_from :
      (acc : DbAndKeys T) (ps : List AccountProof)
      → AccountsRefused acc.0 ps
      → (e : Error) × (account_proofs_from T acc ps ≡ err e)
  unfolding account_proofs_from accounts_proof_db_and_keys
  refused_from acc [] h = absurd h
  refused_from (db, keys) (p ∷ ps) (inl (e, is)) = rw is (e, refl)
  refused_from (db, keys) (p ∷ ps) (inr (db', is, h)) =
      rw is (refused_from (db', keys ++ (account_trie_key T p.address ∷ [])) ps h)

  module _ (Q : T.ProofDb → Bytes → Type 0) (P : T.ProofDb → List Bytes → Type 0)
      (at_first : (db : T.ProofDb) → P db [])
      (split : (db : T.ProofDb) (keys : List Bytes) (key : Bytes)
        → P db (keys ++ (key ∷ [])) ↔ (P db keys × Q db key)) where
    pub storage_proof_db_and_keys-StorageProven :
        (storage : Slice StorageProof)
        → IfRead P (storage_proof_db_and_keys T storage) ↔ StorageProven Q storage
    unfolding storage_proof_db_and_keys
    storage_proof_db_and_keys-StorageProven storage = (λ h. to (read storage) refl h, from)
      where
        read : Slice StorageProof → Outcome (DbAndKeys T)
        read storage = storage_proofs_from T (T.new_proof_db, []) (items storage)

        to : (o : Outcome (DbAndKeys T)) → read storage ≡ o → IfRead P o → StorageProven Q storage
        to (ok (db, keys)) e h =
            let (o, s, _, c) = slots_to Q P split T.new_proof_db [] (items storage) e h in (o, s, c)
        to (err x) e h = absurd h
        to panic e h = absurd h

        from : StorageProven Q storage → IfRead P (read storage)
        from (o, s, c) =
            let (out, e, h) =
              slots_from Q P split T.new_proof_db [] (items storage) o s (at_first o) c in
            rw e h

    pub accounts_proof_db_and_keys-AccountsProven :
        (ps : List AccountProof)
        → IfNotRefused P (accounts_proof_db_and_keys T ps) ↔ AccountsProven Q ps
    unfolding accounts_proof_db_and_keys
    accounts_proof_db_and_keys-AccountsProven ps = (λ h. to (read ps) refl h, from)
      where
        read : List AccountProof → Outcome (DbAndKeys T)
        read ps = account_proofs_from T (T.new_proof_db, []) ps

        to : (o : Outcome (DbAndKeys T)) → read ps ≡ o → IfNotRefused P o → AccountsProven Q ps
        to (ok (db, keys)) e h =
            let (o, s, _, c) = accounts_to Q P split T.new_proof_db [] ps e h in inl (o, s, c)
        to (err x) e h = inr (refused_to (T.new_proof_db, []) ps e)
        to panic e h = absurd h

        from : AccountsProven Q ps → IfNotRefused P (read ps)
        from (inl (o, s, c)) =
            let (out, e, h) = accounts_from Q P split T.new_proof_db [] ps o s (at_first o) c in
            rw e h
        from (inr refused) = let (x, e) = refused_from (T.new_proof_db, []) ps refused in rw e tt
