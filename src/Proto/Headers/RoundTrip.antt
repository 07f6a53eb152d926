-- ===== src/Proto/Headers/RoundTrip.antt =====
-- Headers and withdrawals survive the conversion to messages and back.
use mathlib.Core.Option
use mathlib.Core.List.{map-map, map-id}
use zk_pig.Base.{
  magnitude, Option, none, some, Slice, map, ok, map_each-map, to_array-bytes, ◌≡◌, refl, ap,
}
use zk_pig.Geth.Types
use zk_pig.Geth.Interface.{Geth}
use zk_pig.Geth.Lawful.{IsLawful}
use zk_pig.Proto.Helpers.{bytes_to_big_int-big_int_to_bytes, bytes_to_hash_ptr-hash_ptr_to_bytes}
use zk_pig.Proto.Headers.{
  header_to_proto, header_from_proto, headers_to_proto, headers_from_proto, withdrawal_to_proto,
  withdrawal_from_proto, withdrawals_to_proto, withdrawals_from_proto,
}

-- The header with the absolute values of its three big integers.
abbrev pub unsigned : Types.Header → Types.Header
unsigned h = record h {
  difficulty = Option.map magnitude h.difficulty;
  number = Option.map magnitude h.number;
  base_fee = Option.map magnitude h.base_fee;
}

module _ (G : Geth) (L : IsLawful G) where
  -- A header comes back field by field: nil stays nil, and only signs of big integers are lost.
  pub header_from_proto-header_to_proto :
      (h : Option Types.Header)
      → header_from_proto G (header_to_proto G h) ≡ ok (Option.map unsigned h)
  unfolding header_to_proto header_from_proto
  header_from_proto-header_to_proto none = refl
  header_from_proto-header_to_proto (some h) = simp (
    to_array-bytes,
    L.to_hash,
    L.to_address,
    L.to_nonce,
    bytes_to_big_int-big_int_to_bytes,
    bytes_to_hash_ptr-hash_ptr_to_bytes G L,
  )

  pub headers_from_proto-headers_to_proto :
      (hs : Slice (Option Types.Header))
      → headers_from_proto G (headers_to_proto G hs)
        ≡ ok (Option.map (map (Option.map unsigned)) hs)
  unfolding headers_to_proto headers_from_proto
  headers_from_proto-headers_to_proto none = refl
  headers_from_proto-headers_to_proto (some hs) = rw (
      map_each-map (header_from_proto G) (header_to_proto G) (Option.map unsigned)
        header_from_proto-header_to_proto hs)

  withdrawal_from_proto-withdrawal_to_proto :
      (w : Option Types.Withdrawal) → withdrawal_from_proto G (withdrawal_to_proto G w) ≡ w
  unfolding withdrawal_from_proto withdrawal_to_proto
  withdrawal_from_proto-withdrawal_to_proto none = refl
  withdrawal_from_proto-withdrawal_to_proto (some w) = simp L.to_address

  -- Withdrawals come back unchanged.
  pub withdrawals_from_proto-withdrawals_to_proto :
      (ws : Slice (Option Types.Withdrawal))
      → withdrawals_from_proto G (withdrawals_to_proto G ws) ≡ ws
  unfolding withdrawals_from_proto withdrawals_to_proto
  withdrawals_from_proto-withdrawals_to_proto none = refl
  withdrawals_from_proto-withdrawals_to_proto (some ws) =
      ap some (simp (map-map, withdrawal_from_proto-withdrawal_to_proto, map-id))
