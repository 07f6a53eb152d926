-- ===== src/Proto/Helpers.antt =====
-- src/prover-input/proto/helpers.go: conversions of byte slices, hashes, addresses and big integers.
-- `hexutil.Bytes` is a `[]byte`, so the two conversions of lists of those copy the elements.
use zk_pig.Base.{ℕ, ℤ, pos, nat_abs, magnitude, Option, none, some, Slice, map, be_nat, be_bytes}
use zk_pig.Base.{
  ◌≡◌, refl, ap, Outcome, ok, ◌>>=◌, deref, be_nat-be_bytes, to_array, to_array-bytes,
}
use zk_pig.Geth.Types.{Hash, Address}
use zk_pig.Geth.Interface.{Geth}
use zk_pig.Geth.Lawful.{IsLawful}
use mathlib.Core.Option

-- `b.Bytes()` of a big integer: the bytes of its absolute value.
unfoldable pub bytes_of_int : ℤ → Slice ℕ
bytes_of_int i = some (be_bytes (nat_abs i))

-- `new(big.Int).SetBytes(b)`.
unfoldable pub int_of_bytes : Slice ℕ → ℤ
int_of_bytes b = pos (be_nat b)

unfoldable pub bytes_to_big_int : Slice ℕ → Option ℤ
bytes_to_big_int none = none
bytes_to_big_int (some b) = some (int_of_bytes (some b))

-- Helper function to convert *big.Int to []byte
unfoldable pub big_int_to_bytes : Option ℤ → Slice ℕ
big_int_to_bytes (some b) = bytes_of_int b
big_int_to_bytes none = none

unfoldable pub addr_to_bytes : Option Address → Slice ℕ
addr_to_bytes none = none
addr_to_bytes (some addr) = some addr.bytes

-- `h[:]` of an optional hash, where the conversions fill an optional field only if it is there.
unfoldable pub hash_ptr_to_bytes : Option Hash → Slice ℕ
hash_ptr_to_bytes none = none
hash_ptr_to_bytes (some hash) = some hash.bytes

unfoldable pub hex_bytes_to_bytes : Slice (Slice ℕ) → Slice (Slice ℕ)
hex_bytes_to_bytes none = none
hex_bytes_to_bytes (some bs) = some (map (λ b. b) bs)

unfoldable pub bytes_to_hexutil : Slice (Slice ℕ) → Slice (Slice ℕ)
bytes_to_hexutil none = none
bytes_to_hexutil (some bs) = some (map (λ b. b) bs)

-- `x.Bytes()` of a pointer that the code does not test.
abbrev pub int_bytes : Option ℤ → Outcome (Slice ℕ)
int_bytes i = do i' ← deref i; ok (bytes_of_int i')

module _ (G : Geth) where
  unfoldable pub bytes_to_hash_ptr : Slice ℕ → Option Hash
  bytes_to_hash_ptr none = none
  bytes_to_hash_ptr (some b) = some (G.bytes_to_hash (some b))

-- A number is read back without its sign.
pub int_of_bytes-bytes_of_int : (i : ℤ) → int_of_bytes (bytes_of_int i) ≡ magnitude i
unfolding int_of_bytes bytes_of_int
int_of_bytes-bytes_of_int i = ap pos (be_nat-be_bytes (nat_abs i))

-- A nil pointer stays nil, and a number loses its sign.
pub bytes_to_big_int-big_int_to_bytes :
    (o : Option ℤ) → bytes_to_big_int (big_int_to_bytes o) ≡ Option.map magnitude o
unfolding bytes_to_big_int big_int_to_bytes bytes_of_int int_of_bytes
bytes_to_big_int-big_int_to_bytes none = refl
bytes_to_big_int-big_int_to_bytes (some i) =
    ap (λ (n : ℕ). some (pos n)) (be_nat-be_bytes (nat_abs i))

pub bytes_to_hash_ptr-hash_ptr_to_bytes :
    (G : Geth) (L : IsLawful G) (o : Option Hash) → bytes_to_hash_ptr G (hash_ptr_to_bytes o) ≡ o
unfolding bytes_to_hash_ptr hash_ptr_to_bytes
bytes_to_hash_ptr-hash_ptr_to_bytes G L none = refl
bytes_to_hash_ptr-hash_ptr_to_bytes G L (some h) = ap some (L.to_hash h)

-- The generated getters: a nil message has the zero value in every field.
module _ {ℓ κ} {M : Type ℓ} {A : Type κ} where
  abbrev pub get_slice : Option M → (M → Slice A) → Slice A
  get_slice none f = none
  get_slice (some m) f = f m

module _ {ℓ} {M : Type ℓ} where
  abbrev pub get_uint64 : Option M → (M → ℕ) → ℕ
  get_uint64 none f = 0
  get_uint64 (some m) f = f m

-- `if t.GetTo() != nil { to = (*gethcommon.Address)(t.GetTo()) }`: the conversion to an array panics
-- if there are fewer than 20 bytes, and takes the first 20 if there are more.
unfoldable pub receiver : Slice ℕ → Outcome (Option Address)
receiver none = ok none
receiver (some b) = do a ← to_array 20 b; ok (some a)

pub receiver-addr_to_bytes : (to : Option Address) → receiver (addr_to_bytes to) ≡ ok to
unfolding receiver addr_to_bytes
receiver-addr_to_bytes none = refl
receiver-addr_to_bytes (some a) = rw (to_array-bytes a)
