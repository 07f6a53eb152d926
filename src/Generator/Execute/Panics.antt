-- ===== src/Generator/Execute/Panics.antt =====
-- Which prover inputs the executor in src/generator/execute.go panics on.
use zk_pig.Base.{
  ℤ, Option, none, some, List, [], ◌∷◌, items, Bool, true, false, ◌&&◌, array_eq, Bool-cases, inl,
  inr, Outcome, ok, panic, ◌>>=◌, >>=-ne_panic, >>=-panic_iff, context-ne_panic, deref, ◌≡◌, ◌≢◌,
  ◌↔◌, refl, sym, ap, ◌∙◌,
}
use zk_pig.Geth.Types.{Hash, Header, ChainConfig}
use zk_pig.Geth.Interface.{Geth}
use zk_pig.Input.{Witness, Block, ProverInput}
use zk_pig.Trie.Interface.{TrieLib}
use zk_pig.State.Rpc.{RpcLib}
use zk_pig.Evm.Interface.{EvmLib}
use zk_pig.Evm.Executor.Results.{NeverPanics}
use zk_pig.Chain.{ChainLib, new_chain, write_headers, write_codes, write_nodes_to_hash_db}
use zk_pig.Generator.Interface.{GenLib}
use zk_pig.Generator.Run.Returns.{run_returns}
use zk_pig.Generator.Execute.{
  to_geth_block, prefill, exec_params_of, execute_first, execute_blocks, execute_input,
}

ok_ne_panic : {A : Type 0} (a : A) → ok a ≢ panic
ok_ne_panic a e = cc

abbrev pub is_given {ℓ} : {A : Type ℓ} → Option A → Bool
is_given none = false
is_given (some a) = true

abbrev pub all_given {ℓ} : {A : Type ℓ} → List (Option A) → Bool
all_given [] = true
all_given (x ∷ xs) = let rest = all_given xs in is_given x && rest

abbrev pub numbered : Option Header → Bool
numbered none = false
numbered (some h) = is_given h.number

abbrev pub all_numbered : List (Option Header) → Bool
all_numbered [] = true
all_numbered (h ∷ hs) = let rest = all_numbered hs in numbered h && rest

abbrev pub filled_in : Option Witness → Bool
filled_in none = false
filled_in (some w) = all_numbered (items w.ancestors)

module _ {Tx : Type 0} where
  abbrev pub headed : Option (Block Tx) → Bool
  headed none = false
  headed (some b) = numbered b.header

  abbrev pub completes : ProverInput Tx → List (Option (Block Tx)) → Bool
  completes inputs [] = true
  completes inputs (first ∷ others) =
      is_given inputs.chain_config && headed first && filled_in inputs.witness

  -- The first block has no nil uncle.
  abbrev pub uncles_given : List (Option (Block Tx)) → Bool
  uncles_given (some b ∷ others) = all_given (items b.uncles)
  uncles_given blocks = true

  -- If there is a block, then there are a chain configuration, a numbered header in the first block,
  -- and a witness whose ancestors are not nil and have numbers.
  abbrev pub is_complete : ProverInput Tx → Bool
  is_complete inputs = completes inputs (items inputs.blocks)

-- `gethstate.New`, and the making of a block with a header and without nil uncles, return.
pub record NoPanic {G : Geth} {T : TrieLib} {R : RpcLib} {E : EvmLib} {C : ChainLib E.HeaderChain}
    (L : GenLib G T R E C) : Type 0 where
  pub new_state_lem : (db : C.Db) (root : Hash) → L.new_state db root ≢ panic
  pub to_geth_block_lem :
      (b : Block G.Transaction)
      → b.header ≢ none
      → all_given (items b.uncles) ≡ true
      → to_geth_block L b ≢ panic
  pub evm : NeverPanics E

-- What the tags of an execution dereference, and the rest of it.
module _ {Tx A : Type 0} where
  abbrev tagged :
      Option ChainConfig → Option (Block Tx) → (Block Tx → Header → Outcome A) → Outcome A
  tagged c first rest = do
    _ ← deref c
    b ← deref first
    header ← deref b.header
    _ ← deref header.number
    rest b header

  tags-panic_iff :
      (c : Option ChainConfig) (first : Option (Block Tx)) (rest : Block Tx → Header → Outcome A)
      (filled : Bool)
      → ((b : Block Tx) (header : Header)
          → first ≡ some b
          → b.header ≢ none
          → (rest b header ≡ panic) ↔ (filled ≡ false))
      → (tagged c first rest ≡ panic) ↔ ((is_given c && headed first && filled) ≡ false)
  tags-panic_iff none first rest filled h = (λ e. refl, λ e. refl)
  tags-panic_iff (some c) none rest filled h = (λ e. refl, λ e. refl)
  tags-panic_iff (some c) (some b) rest filled h = of b.header (λ header. h b header refl)
    where
      of_number :
          (n : Option ℤ) (o : Outcome A)
          → (o ≡ panic) ↔ (filled ≡ false)
          → ((do _ ← deref n; o) ≡ panic) ↔ ((is_given n && filled) ≡ false)
      of_number none o k = (λ e. refl, λ e. refl)
      of_number (some n) o k = k

      of :
          (o : Option Header)
          → ((header : Header) → o ≢ none → (rest b header ≡ panic) ↔ (filled ≡ false))
          → ((do header ← deref o; _ ← deref header.number; rest b header) ≡ panic)
            ↔ ((numbered o && filled) ≡ false)
      of none k = (λ e. refl, λ e. refl)
      of (some header) k = of_number header.number (rest b header) (k header (λ e. cc))

module _ {HeaderChain : Type 0} (C : ChainLib HeaderChain) where
  write_headers-panic_iff :
      (hs : List (Option Header)) (db : C.Db)
      → (write_headers C db hs ≡ panic) ↔ (all_numbered hs ≡ false)
  unfolding write_headers
  write_headers-panic_iff [] db = (λ h. cc, λ h. cc)
  write_headers-panic_iff (none ∷ hs) db = (λ h. refl, λ h. refl)
  write_headers-panic_iff (some h ∷ hs) db =
      of h.number (write_headers-panic_iff hs (C.write_header db h))
    where
      of :
          {A : Type 0} {rest : Outcome A} {b : Bool} (n : Option ℤ)
          → (rest ≡ panic) ↔ (b ≡ false)
          → ((do _ ← deref n; rest) ≡ panic) ↔ ((is_given n && b) ≡ false)
      of none k = (λ e. refl, λ e. refl)
      of (some n) k = k

module _ {G : Geth} {T : TrieLib} {R : RpcLib} {E : EvmLib} {C : ChainLib E.HeaderChain}
    (L : GenLib G T R E C) (N : NoPanic L) where
  exec_params_of_returns :
      (db : C.Db) (b : Block G.Transaction) (header : Header) (ancestors : List (Option Header))
      → b.header ≢ none
      → all_given (items b.uncles) ≡ true
      → exec_params_of L db b header ancestors ≢ panic
  unfolding exec_params_of
  exec_params_of_returns db b header [] given uncles = λ e. cc
  exec_params_of_returns db b header (none ∷ others) given uncles = λ e. cc
  exec_params_of_returns db b header (some parent ∷ others) given uncles =
      elim (Bool-cases (array_eq (C.header_hash parent) (C.header_hash header))) [
        | inl same ↦ rw same (λ e. cc)
        | inr other ↦ rw other (
            >>=-ne_panic _ _ (context-ne_panic _ _ (N.new_state_lem db parent.root))
              (λ st _. >>=-ne_panic _ _ (N.to_geth_block_lem b given uncles) (λ block _ e. cc)))
      ]

  prefill-panic_iff :
      (db : C.Db) (w : Witness)
      → (prefill L db w ≡ panic) ↔ (all_numbered (items w.ancestors) ≡ false)
  unfolding prefill
  prefill-panic_iff db w =
      let first =
        >>=-panic_iff (write_headers C db (items w.ancestors))
          (λ db'. ok (write_nodes_to_hash_db C (write_codes C db' (items w.codes)) (items w.state)))
          (λ db'. ok_ne_panic _) in
      let headers = write_headers-panic_iff C (items w.ancestors) db in
      (λ h. headers.0 (first.0 h), λ h. first.1 (headers.1 h))

  -- Writing the witness to the database, and what follows it.
  witnessed-panic_iff :
      {A : Type 0} (w : Option Witness) (db : C.Db) (rest : Witness → C.Db → Outcome A)
      → ((v : Witness) (db' : C.Db) → rest v db' ≢ panic)
      → ((do v ← deref w; db' ← prefill L db v; rest v db') ≡ panic) ↔ (filled_in w ≡ false)
  witnessed-panic_iff none db rest h = (λ e. refl, λ e. refl)
  witnessed-panic_iff (some w) db rest h =
      let first = >>=-panic_iff (prefill L db w) (rest w) (h w) in
      let filled = prefill-panic_iff db w in (λ e. filled.0 (first.0 e), λ e. first.1 (filled.1 e))

  execute_first-panic_iff :
      (inputs : ProverInput G.Transaction) (b : Block G.Transaction) (header : Header)
      {x : E.HeaderChain × C.Db}
      → b.header ≢ none
      → all_given (items b.uncles) ≡ true
      → new_chain C inputs.chain_config C.new_memory_database ≡ ok x
      → (execute_first L inputs b header ≡ panic) ↔ (filled_in inputs.witness ≡ false)
  unfolding execute_first
  execute_first-panic_iff inputs b header {x} given uncles chained = rw chained (
      witnessed-panic_iff inputs.witness x.1 _ (λ w db.
        >>=-ne_panic _ _
          (context-ne_panic _ _
            (exec_params_of_returns db b header (items w.ancestors) given uncles))
          (λ p _. context-ne_panic _ _ (run_returns E N.evm x.0 p.0 true p.1))))

  -- If go-ethereum does not panic and the header chain can be made, then the executor panics on a
  -- prover input whose first block has no nil uncle exactly if it has a block, but no chain
  -- configuration, or a first block that is nil or has no header or no number, or no witness, or a
  -- header that is nil or has no number among the ancestors of the witness.
  pub execute_input-panic_iff :
      (inputs : ProverInput G.Transaction) {x : E.HeaderChain × C.Db}
      → new_chain C inputs.chain_config C.new_memory_database ≡ ok x
      → uncles_given (items inputs.blocks) ≡ true
      → (execute_input L inputs ≡ panic) ↔ (is_complete inputs ≡ false)
  unfolding execute_input execute_blocks
  execute_input-panic_iff inputs {x} chained uncles = of (items inputs.blocks) uncles
    where
      of :
          (blocks : List (Option (Block G.Transaction)))
          → uncles_given blocks ≡ true
          → (execute_blocks L inputs blocks ≡ panic) ↔ (completes inputs blocks ≡ false)
      of [] u = (λ e. cc, λ e. cc)
      of (none ∷ others) u =
          tags-panic_iff inputs.chain_config none (execute_first L inputs)
            (filled_in inputs.witness) (λ b header is given. cc)
      of (some first ∷ others) u =
          tags-panic_iff inputs.chain_config (some first) (execute_first L inputs)
            (filled_in inputs.witness)
            (λ b header is given.
              execute_first-panic_iff inputs b header given
                (ap (λ o. uncles_given (o ∷ [])) (sym is) ∙ u) chained)
