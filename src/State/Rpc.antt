-- ===== src/State/Rpc.antt =====
-- src/ethereum/state/database_rpc.go: the state database that reads a remote node, which is asked by
-- block numbers. The values that an error message shows are left out.
use mathlib.Core.List.{foldl}
use zk_pig.Base.{
  ℕ, ℤ, Option, none, some, List, [], ◌∷◌, Bool, Slice, items, length, Map, lookup, insert,
  lookup-insert, array_eq, if◌then◌else◌, Outcome, ok, err, panic, error, context, ◌>>=◌, ◌≡◌, refl,
  ◌∙◌, ap,
}
use zk_pig.Geth.Types.{Hash, Address, Header}

-- `rpc.Client`, and the functions of go-ethereum and uint256 that the reader calls.
pub record RpcLib : Type 1 where
  pub U256 : Type 0
  -- `uint256.FromBig`: the number, and whether it overflowed
  pub from_big : Option ℤ → Option U256 × Bool
  pub bytes_to_hash : Slice ℕ → Hash
  -- the fields of a proof that the reader reads
  pub ProofAccount : Type 0
  pub proof_nonce : ProofAccount → ℕ
  pub proof_balance : ProofAccount → Option ℤ
  pub proof_storage_hash : ProofAccount → Hash
  pub proof_code_hash : ProofAccount → Hash
  pub get_proof : Address → Option ℤ → Outcome (Option ProofAccount)
  pub storage_at : Address → Hash → Option ℤ → Outcome (Slice ℕ)
  pub code_at : Address → Option ℤ → Outcome (Slice ℕ)

module _ (R : RpcLib) where
  pub record RpcDatabase : Type 0 where
    pub state_root_to_block_number : Map 32 (Option ℤ)
    pub current_block_number : Option ℤ

  pub record RpcReader : Type 0 where
    pub block_number : Option ℤ
    pub root : Hash

  -- `gethtypes.StateAccount`
  pub record StateAccount : Type 0 where
    pub nonce : ℕ
    pub balance : Option R.U256
    pub root : Hash
    pub code_hash : Slice ℕ

  abbrev pub new_rpc_database : RpcDatabase
  new_rpc_database = record { state_root_to_block_number = []; current_block_number = none }

  unfoldable pub mark_block : RpcDatabase → Header → RpcDatabase
  mark_block db header = record {
    state_root_to_block_number = insert header.root header.number db.state_root_to_block_number;
    current_block_number = header.number;
  }

  unfoldable pub known : Option (Option ℤ) → Outcome (Option ℤ)
  known none = err (error "missing block for state root")
  known (some block_number) = ok block_number

  unfoldable pub get_block_number : RpcDatabase → Hash → Outcome (Option ℤ)
  unfolding known
  get_block_number db state_root = known (lookup state_root db.state_root_to_block_number)

  unfoldable pub reader : RpcDatabase → Hash → Outcome RpcReader
  unfolding get_block_number
  reader db root = do
    block_number ← get_block_number db root
    ok (record { block_number = block_number; root = root })

  unfoldable pub contract_code : RpcDatabase → Address → Hash → Outcome (Slice ℕ)
  contract_code db addr code_hash =
      context "failed to get code for address" (R.code_at addr db.current_block_number)

  unfoldable pub contract_code_size : RpcDatabase → Address → Hash → ℕ × Outcome (Unit {0})
  contract_code_size db addr code_hash = elim (contract_code db addr code_hash) [
    | ok code ↦ (length (items code), ok tt)
    | err e ↦ (0, err e)
    | panic ↦ (0, panic)
  ]

  unfoldable pub to_state_account : Option R.ProofAccount → Outcome (Option StateAccount)
  to_state_account none = ok none
  to_state_account (some account) =
      let (balance, has_overflowed) = R.from_big (R.proof_balance account) in
      if has_overflowed
      then err (error "failed to convert balance to uint256")
      else ok (
          some (record {
            nonce = R.proof_nonce account;
            balance = balance;
            root = R.proof_storage_hash account;
            code_hash = some (R.proof_code_hash account).bytes;
          }))

  unfoldable pub reader_account : RpcReader → Address → Outcome (Option StateAccount)
  unfolding to_state_account
  reader_account r addr = do
    account ← context "failed to get proof for address and block" (R.get_proof addr r.block_number)
    to_state_account account

  unfoldable pub reader_storage : RpcReader → Address → Hash → Outcome Hash
  reader_storage r addr slot = do
    value ← context "failed to get storage slot" (R.storage_at addr slot r.block_number)
    ok (R.bytes_to_hash value)

  abbrev pub mark_blocks : RpcDatabase → List Header → RpcDatabase
  mark_blocks db headers = foldl mark_block db headers

  -- The number of the last header with the root, or an older one.
  abbrev pub last_marked : Hash → List Header → Option (Option ℤ) → Option (Option ℤ)
  last_marked root [] old = old
  last_marked root (h ∷ hs) old =
      last_marked root hs (if array_eq h.root root then some h.number else old)

  abbrev pub last_number : List Header → Option ℤ → Option ℤ
  last_number [] old = old
  last_number (h ∷ hs) old = last_number hs h.number

  lookup-mark_blocks :
      (headers : List Header) (db : RpcDatabase) (root : Hash)
      → lookup root (mark_blocks db headers).state_root_to_block_number
        ≡ last_marked root headers (lookup root db.state_root_to_block_number)
  unfolding mark_block
  lookup-mark_blocks [] db root = refl
  lookup-mark_blocks (h ∷ hs) db root =
      lookup-mark_blocks hs (mark_block db h) root
      ∙ ap (last_marked root hs) (lookup-insert h.root root h.number db.state_root_to_block_number)

  current-mark_blocks :
      (headers : List Header) (db : RpcDatabase)
      → (mark_blocks db headers).current_block_number ≡ last_number headers db.current_block_number
  unfolding mark_block
  current-mark_blocks [] db = refl
  current-mark_blocks (h ∷ hs) db = current-mark_blocks hs (mark_block db h)

  -- After any sequence of `MarkBlock`, accounts and slots at a state root are asked for at the number
  -- of the last header marked with that root, and a reader of a root that no header had is an error;
  -- contract code is asked for at the number of the last header marked, whatever its root is.
  pub reads-mark_blocks :
      (db : RpcDatabase) (headers : List Header) (root : Hash) (addr : Address)
      (slot code_hash : Hash)
      → ((do r ← reader (mark_blocks db headers) root; reader_account r addr) ≡ (do
        n ← known (last_marked root headers (lookup root db.state_root_to_block_number))
        account ← context "failed to get proof for address and block" (R.get_proof addr n)
        to_state_account account))
        × ((do r ← reader (mark_blocks db headers) root; reader_storage r addr slot) ≡ (do
          n ← known (last_marked root headers (lookup root db.state_root_to_block_number))
          value ← context "failed to get storage slot" (R.storage_at addr slot n)
          ok (R.bytes_to_hash value)))
        × (contract_code (mark_blocks db headers) addr code_hash
            ≡ context "failed to get code for address"
                (R.code_at addr (last_number headers db.current_block_number)))
  unfolding reader get_block_number reader_account reader_storage contract_code
  reads-mark_blocks db headers root addr slot code_hash = (
    rw (lookup-mark_blocks headers db root) (
        with_reader (known (last_marked root headers (lookup root db.state_root_to_block_number)))
          (λ r. reader_account r addr)),
    rw (lookup-mark_blocks headers db root) (
        with_reader (known (last_marked root headers (lookup root db.state_root_to_block_number)))
          (λ r. reader_storage r addr slot)),
    rw (current-mark_blocks headers db) refl,
  )
    where
      with_reader :
          {A : Type 0} (o : Outcome (Option ℤ)) (f : RpcReader → Outcome A)
          → ((do n ← o; ok (record { block_number = n; root = root })) >>= f)
            ≡ (o >>= λ n. f (record { block_number = n; root = root }))
      with_reader (ok n) f = refl
      with_reader (err e) f = refl
      with_reader panic f = refl
