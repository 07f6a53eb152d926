-- ===== src/Ethdb/Rpcdb.antt =====
-- src/ethereum/ethdb/rpcdb/rpc_hacked_db.go.
use zk_pig.Base.{
  Error, ◌↔◌, ◌≢◌, ℕ, [], ◌∷◌, ◌==◌, ◌&&◌, Bool, true, false, if◌then◌else◌, length, some, Bytes,
  Slice, Outcome, ok, err, panic, ◌>>=◌, ◌≡◌, refl, ap, ◌<◌, ◌^◌,
}
use zk_pig.Geth.Types.{Hash}
use zk_pig.Ethdb.Keys.{header_key, decode_header_number_and_hash, decode-header_key}

-- The wrapped database, `rpc.Client`, `rlp.EncodeToBytes`, and `gethcommon.BytesToHash`.
pub record RpcdbLib : Type 1 where
  pub RemoteHeader : Type 0
  pub local_get : Bytes → Outcome (Slice ℕ)
  pub header_by_hash : Hash → Outcome RemoteHeader
  pub encode_to_bytes : RemoteHeader → Outcome (Slice ℕ)
  pub bytes_to_hash : Slice ℕ → Hash

pub record IsLawful (D : RpcdbLib) : Type 0 where
  pub bytes_to_hash_lem : (h : Hash) → D.bytes_to_hash (some h.bytes) ≡ h

module _ (D : RpcdbLib) where
  pub get_decoded : Bytes → ℕ × Hash × Bool → Outcome (Slice ℕ)
  get_decoded key (number, hash, is_header) =
      if is_header
      then (do header ← D.header_by_hash hash; D.encode_to_bytes header)
      else D.local_get key

  unfoldable pub get : Bytes → Outcome (Slice ℕ)
  unfolding get_decoded
  get key = do decoded ← decode_header_number_and_hash D.bytes_to_hash key; get_decoded key decoded

  pub got : Outcome (Slice ℕ) → Outcome Bool
  got (ok value) = ok true
  got (err e) = ok false
  got panic = panic

  unfoldable pub has : Bytes → Outcome Bool
  unfolding got
  has key = got (get key)

  -- A key that is neither empty nor of a header's form goes to the wrapped database.
  get_other :
      (b : ℕ) (rest : Bytes)
      → (b == 104 && length rest == 40) ≡ false
      → get (b ∷ rest) ≡ D.local_get (b ∷ rest)
  unfolding get get_decoded decode_header_number_and_hash
  get_other b rest h = rw h refl

  -- `Get` has three branches: an empty key panics; the key of a header, whose number is below 2^64,
  -- is answered by the encoding of the header that the remote node has for the hash, and the wrapped
  -- database is not asked; and any other key that is not empty, one that starts with another byte than
  -- `h` or is not 41 bytes long, is answered by the wrapped database.
  pub get_branches :
      (L : IsLawful D)
      → (get [] ≡ panic)
        × ((number : ℕ) (hash : Hash)
            → number < 2 ^ 64
            → get (header_key number hash)
              ≡ (do header ← D.header_by_hash hash; D.encode_to_bytes header))
        × ((b : ℕ) (rest : Bytes)
            → (b == 104 && length rest == 40) ≡ false
            → get (b ∷ rest) ≡ D.local_get (b ∷ rest))
  unfolding get get_decoded decode_header_number_and_hash
  get_branches L = (
    refl,
    λ number hash h.
        ap (λ (o : Outcome (ℕ × Hash × Bool)). o >>= get_decoded (header_key number hash))
          (decode-header_key D.bytes_to_hash L.bytes_to_hash_lem number hash h),
    get_other,
  )

  got-true_iff : (o : Outcome (Slice ℕ)) → (got o ≡ ok true) ↔ ((v : Slice ℕ) × (o ≡ ok v))
  unfolding got
  got-true_iff (ok v) = (λ h. (v, refl), λ h. refl)
  got-true_iff (err e) = (λ h. cc, λ (v, h). cc)
  got-true_iff panic = (λ h. cc, λ (v, h). cc)

  got-panic_iff : (o : Outcome (Slice ℕ)) → (got o ≡ panic) ↔ (o ≡ panic)
  unfolding got
  got-panic_iff (ok v) = (λ h. cc, λ h. cc)
  got-panic_iff (err e) = (λ h. cc, λ h. cc)
  got-panic_iff panic = (λ h. refl, λ h. refl)

  got-no_error : (o : Outcome (Slice ℕ)) (e : Error) → got o ≢ err e
  unfolding got
  got-no_error (ok v) e = λ h. cc
  got-no_error (err x) e = λ h. cc
  got-no_error panic e = λ h. cc

  -- `Has` is true exactly if `Get` gives a value, panics exactly if `Get` panics, and never returns an
  -- error: a node that cannot be reached is taken for a missing key.
  pub has-get :
      (key : Bytes)
      → ((has key ≡ ok true) ↔ ((v : Slice ℕ) × (get key ≡ ok v)))
        × ((has key ≡ panic) ↔ (get key ≡ panic))
        × ((e : Error) → has key ≢ err e)
  unfolding has
  has-get key = (got-true_iff (get key), got-panic_iff (get key), got-no_error (get key))
