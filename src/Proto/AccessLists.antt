-- ===== src/Proto/AccessLists.antt =====
-- src/prover-input/proto/transaction.go: access lists.
use mathlib.Core.Option
use mathlib.Core.List.{map-map, map-id}
use zk_pig.Base.{Option, none, some, List, Slice, items, map, ◌≡◌, refl, ap, ◌∙◌}
use mathlib.Core.Path.{fun_ext}
use zk_pig.Geth.Types
use zk_pig.Geth.Types.{Hash}
use zk_pig.Geth.Interface.{Geth}
use zk_pig.Geth.Lawful.{IsLawful}
use zk_pig.Proto.Message
use zk_pig.Proto.Helpers.{get_slice}

pub access_tuple_to_proto : Types.AccessTuple → Message.AccessTuple
access_tuple_to_proto tuple = record {
  address = some tuple.address.bytes;
  storage_keys = some (map (λ key. some key.bytes) (items tuple.storage_keys));
}

unfoldable pub access_list_to_proto : Types.AccessList → Slice (Option Message.AccessTuple)
unfolding access_tuple_to_proto
access_list_to_proto none = none
access_list_to_proto (some al) = some (map (λ tuple. some (access_tuple_to_proto tuple)) al)

module _ (G : Geth) where
  pub access_tuple_from_proto : Option Message.AccessTuple → Types.AccessTuple
  access_tuple_from_proto p = record {
    address = G.bytes_to_address (get_slice p (λ m. m.address));
    storage_keys = some (map G.bytes_to_hash (items (get_slice p (λ m. m.storage_keys))));
  }

  unfoldable pub access_list_from_proto : Slice (Option Message.AccessTuple) → Types.AccessList
  unfolding access_tuple_from_proto
  access_list_from_proto none = none
  access_list_from_proto (some p) = some (map access_tuple_from_proto p)

-- The tuple with a list of keys that is not nil.
abbrev pub with_keys : Types.AccessTuple → Types.AccessTuple
with_keys tuple = record tuple { storage_keys = some (items tuple.storage_keys) }

module _ (G : Geth) (L : IsLawful G) where
  keys_round_trip : (keys : List Hash) → map (λ k. G.bytes_to_hash (some k.bytes)) keys ≡ keys
  keys_round_trip keys = simp (L.to_hash, map-id)

  access_tuple_from_proto-access_tuple_to_proto :
      (tuple : Types.AccessTuple)
      → access_tuple_from_proto G (some (access_tuple_to_proto tuple)) ≡ with_keys tuple
  unfolding access_tuple_from_proto access_tuple_to_proto
  access_tuple_from_proto-access_tuple_to_proto tuple =
      simp (L.to_address, map-map, keys_round_trip)

  -- An access list comes back, nil or not, with lists of keys that are not nil.
  pub access_list_from_proto-access_list_to_proto :
      (al : Types.AccessList)
      → access_list_from_proto G (access_list_to_proto al) ≡ Option.map (map with_keys) al
  unfolding access_list_from_proto access_list_to_proto
  access_list_from_proto-access_list_to_proto none = refl
  access_list_from_proto-access_list_to_proto (some al) = ap some (
      map-map _ _ al
      ∙ ap (λ (f : Types.AccessTuple → Types.AccessTuple). map f al)
          (fun_ext (access_tuple_from_proto-access_tuple_to_proto)))
