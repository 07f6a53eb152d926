-- ===== src/Ethdb/Keys.antt =====
-- The keys of headers in a database of go-ethereum: `h`, the number in eight bytes, and the hash; and
-- `decodeHeaderNumberAndHash` of src/ethereum/ethdb/rpcdb/rpc_hacked_db.go.
use zk_pig.Base.{
  ℕ, zero, suc, ◌+◌, ◌/◌, ◌%◌, ◌^◌, ◌<◌, ◌==◌, ◌&&◌, Bool, true, false, if◌then◌else◌, some, [],
  ◌∷◌, length, take, drop, Bytes, Slice, be_nat, be_value, zeros, Outcome, ok, panic, ◌≡◌, ◌∙◌, ap,
  arith,
}
use zk_pig.Geth.Types.{Hash}

abbrev pub be_fixed : ℕ → ℕ → Bytes → Bytes
be_fixed zero n rest = rest
be_fixed (suc w) n rest = be_fixed w (n / 256) ((n % 256) ∷ rest)

-- `headerKey` of go-ethereum's schema.
abbrev pub header_key : ℕ → Hash → Bytes
header_key number hash = 104 ∷ be_fixed 8 number hash.bytes

module _ (bytes_to_hash : Slice ℕ → Hash) where
  -- `string(key[0])` is "h" for the byte 104 only.
  unfoldable pub decode_header_number_and_hash : Bytes → Outcome (ℕ × Hash × Bool)
  decode_header_number_and_hash [] = panic
  decode_header_number_and_hash (b ∷ rest) =
      if b == 104 && length rest == 40
      then ok (be_nat (some (take 8 rest)), bytes_to_hash (some (drop 8 rest)), true)
      else ok (0, zeros 32, false)

be_value-be_fixed :
    (w n : ℕ) (rest : Bytes) → n < 256 ^ w → be_value 0 (be_fixed w n rest) ≡ be_value n rest
unfolding be_value
be_value-be_fixed zero n rest h = ap (λ (k : ℕ). be_value k rest) (omega (arith, h))
be_value-be_fixed (suc w) n rest h =
    be_value-be_fixed w (n / 256) ((n % 256) ∷ rest) (omega (arith, h))
    ∙ ap (λ (k : ℕ). be_value k rest) (omega arith)

length-be_fixed : (w n : ℕ) (rest : Bytes) → length (be_fixed w n rest) ≡ w + length rest
length-be_fixed zero n rest = omega arith
length-be_fixed (suc w) n rest = omega (arith, length-be_fixed w (n / 256) ((n % 256) ∷ rest))

is_header_key :
    (number : ℕ) (hash : Hash) → (104 == 104 && length (be_fixed 8 number hash.bytes) == 40) ≡ true
is_header_key number hash = ground (arith, hash.sized, length-be_fixed 8 number hash.bytes)

module _ (bytes_to_hash : Slice ℕ → Hash) where
  -- Where the hash of a hash's own bytes is the hash, decoding the key of a header gives its number
  -- and its hash.
  pub decode-header_key :
      ((h : Hash) → bytes_to_hash (some h.bytes) ≡ h)
      → (number : ℕ) (hash : Hash) → number < 2 ^ 64
      → decode_header_number_and_hash bytes_to_hash (header_key number hash)
        ≡ ok (number, hash, true)
  unfolding decode_header_number_and_hash be_nat
  decode-header_key law number hash h =
      rw (is_header_key number hash, law hash)
        (ap (λ (k : ℕ). ok (k, hash, true)) (be_value-be_fixed 8 number [] (omega (arith, h))))
