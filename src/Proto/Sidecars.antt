-- ===== src/Proto/Sidecars.antt =====
-- src/prover-input/proto/transaction.go: the sidecar of a blob transaction.
use zk_pig.Base.{
  ℕ, Option, none, some, List, [], ◌∷◌, Slice, items, appended, map, Outcome, ok, ◌>>=◌, map_each,
  map_each-map, Array, to_array, to_array-bytes, ◌≡◌, refl,
}
use mathlib.Core.Option
use mathlib.Core.List.{map-id}
use zk_pig.Geth.Lawful.{trimmed, trimmed_sidecar}
use zk_pig.Geth.Types
use zk_pig.Geth.Types.{blob_size, point_size}
use zk_pig.Proto.Message

-- The three loops append to slices that start out nil.
pub arrays_to_bytes : {n : ℕ} → Slice (Array n) → Slice (Slice ℕ)
arrays_to_bytes arrays = appended (map (λ a. some a.bytes) (items arrays))

pub arrays_from_bytes : (n : ℕ) → Slice (Slice ℕ) → Outcome (Slice (Array n))
arrays_from_bytes n bs = do
  arrays ← map_each (λ b. to_array n (items b)) (items bs)
  ok (appended arrays)

unfoldable pub blob_sidecar_to_proto : Option Types.BlobTxSidecar → Option Message.BlobTxSidecar
unfolding arrays_to_bytes
blob_sidecar_to_proto none = none
blob_sidecar_to_proto (some sidecar) = some (record {
  blobs = arrays_to_bytes sidecar.blobs;
  commitments = arrays_to_bytes sidecar.commitments;
  proofs = arrays_to_bytes sidecar.proofs;
})

unfoldable pub blob_sidecar_from_proto :
    Option Message.BlobTxSidecar → Outcome (Option Types.BlobTxSidecar)
unfolding arrays_from_bytes
blob_sidecar_from_proto none = ok none
blob_sidecar_from_proto (some t) = do
  blobs ← arrays_from_bytes blob_size t.blobs
  commitments ← arrays_from_bytes point_size t.commitments
  proofs ← arrays_from_bytes point_size t.proofs
  ok (some (record { blobs = blobs; commitments = commitments; proofs = proofs }))

items-appended {ℓ} : {A : Type ℓ} (xs : List A) → items (appended xs) ≡ xs
items-appended [] = refl
items-appended (x ∷ xs) = refl

arrays_from_bytes-arrays_to_bytes :
    (n : ℕ) (s : Slice (Array n)) → arrays_from_bytes n (arrays_to_bytes s) ≡ ok (trimmed s)
unfolding arrays_from_bytes arrays_to_bytes
arrays_from_bytes-arrays_to_bytes n s =
    rw
      (
        items-appended,
        map_each-map (λ (b : Slice ℕ). to_array n (items b)) (λ (a : Array n). some a.bytes)
            (λ a. a) (λ a. to_array-bytes a) (items s),
      )
      (simp map-id)

-- A sidecar comes back, with slices that are nil if they are empty.
pub blob_sidecar_from_proto-blob_sidecar_to_proto :
    (s : Option Types.BlobTxSidecar)
    → blob_sidecar_from_proto (blob_sidecar_to_proto s) ≡ ok (Option.map trimmed_sidecar s)
unfolding blob_sidecar_from_proto blob_sidecar_to_proto
blob_sidecar_from_proto-blob_sidecar_to_proto none = refl
blob_sidecar_from_proto-blob_sidecar_to_proto (some s) = simp arrays_from_bytes-arrays_to_bytes

-- What `NewTx` keeps of a sidecar is kept again.
pub trimmed_twice :
    (s : Option Types.BlobTxSidecar)
    → Option.map trimmed_sidecar (Option.map trimmed_sidecar s) ≡ Option.map trimmed_sidecar s
trimmed_twice none = refl
trimmed_twice (some s) = rw (items-appended, items-appended, items-appended) refl
