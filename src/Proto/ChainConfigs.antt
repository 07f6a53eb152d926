-- ===== src/Proto/ChainConfigs.antt =====
-- src/prover-input/proto/chain_config.go: chain configurations.
use mathlib.Core.Option
use zk_pig.Base.{
  ℕ, magnitude, Option, none, some, Bool, false, Slice, items, length, [], ◌∷◌, ltb, ◌≡◌, refl,
  if◌then◌else◌,
}
use zk_pig.Geth.Types
use zk_pig.Geth.Interface.{Geth}
use zk_pig.Geth.Lawful.{IsLawful}
use zk_pig.Proto.Message
use zk_pig.Proto.Helpers.{big_int_to_bytes, bytes_to_big_int, bytes_to_big_int-big_int_to_bytes}

pub clique_config_to_proto : Option Types.CliqueConfig → Option Message.CliqueConfig
clique_config_to_proto none = none
clique_config_to_proto (some c) = some (record { period = c.period; epoch = c.epoch })

pub clique_config_from_proto : Option Message.CliqueConfig → Option Types.CliqueConfig
clique_config_from_proto none = none
clique_config_from_proto (some c) = some (record { period = c.period; epoch = c.epoch })

-- The engine is told by the bytes of "Ethash", or by nil.
pub ethash_mark : Option (Unit {0}) → Slice ℕ
ethash_mark none = none
ethash_mark (some e) = some (b'E' ∷ b't' ∷ b'h' ∷ b'a' ∷ b's' ∷ b'h' ∷ [])

pub ethash_of_mark : Slice ℕ → Option (Unit {0})
ethash_of_mark mark = if ltb 0 (length (items mark)) then some tt else none

-- `c.GetDaoForkSupport()`
dao_fork_support_of : Option Bool → Bool
dao_fork_support_of none = false
dao_fork_support_of (some b) = b

unfoldable pub chain_config_to_proto : Option Types.ChainConfig → Option Message.ChainConfig
chain_config_to_proto none = none
chain_config_to_proto (some c) = some (record {
  chain_id = big_int_to_bytes c.chain_id;
  homestead_block = big_int_to_bytes c.homestead_block;
  dao_fork_block = big_int_to_bytes c.dao_fork_block;
  dao_fork_support = some c.dao_fork_support;
  eip150_block = big_int_to_bytes c.eip150_block;
  eip155_block = big_int_to_bytes c.eip155_block;
  eip158_block = big_int_to_bytes c.eip158_block;
  byzantium_block = big_int_to_bytes c.byzantium_block;
  constantinople_block = big_int_to_bytes c.constantinople_block;
  petersburg_block = big_int_to_bytes c.petersburg_block;
  istanbul_block = big_int_to_bytes c.istanbul_block;
  muir_glacier_block = big_int_to_bytes c.muir_glacier_block;
  berlin_block = big_int_to_bytes c.berlin_block;
  london_block = big_int_to_bytes c.london_block;
  arrow_glacier_block = big_int_to_bytes c.arrow_glacier_block;
  gray_glacier_block = big_int_to_bytes c.gray_glacier_block;
  merge_netsplit_block = big_int_to_bytes c.merge_netsplit_block;
  shanghai_time = c.shanghai_time;
  cancun_time = c.cancun_time;
  prague_time = c.prague_time;
  verkle_time = c.verkle_time;
  terminal_total_difficulty = big_int_to_bytes c.terminal_total_difficulty;
  deposit_contract_address = some c.deposit_contract_address.bytes;
  ethash = ethash_mark c.ethash;
  clique = clique_config_to_proto c.clique;
})

module _ (G : Geth) where
  unfoldable pub chain_config_from_proto : Option Message.ChainConfig → Option Types.ChainConfig
  unfolding dao_fork_support_of
  chain_config_from_proto none = none
  chain_config_from_proto (some c) = some (record {
    chain_id = bytes_to_big_int c.chain_id;
    homestead_block = bytes_to_big_int c.homestead_block;
    dao_fork_block = bytes_to_big_int c.dao_fork_block;
    dao_fork_support = dao_fork_support_of c.dao_fork_support;
    eip150_block = bytes_to_big_int c.eip150_block;
    eip155_block = bytes_to_big_int c.eip155_block;
    eip158_block = bytes_to_big_int c.eip158_block;
    byzantium_block = bytes_to_big_int c.byzantium_block;
    constantinople_block = bytes_to_big_int c.constantinople_block;
    petersburg_block = bytes_to_big_int c.petersburg_block;
    istanbul_block = bytes_to_big_int c.istanbul_block;
    muir_glacier_block = bytes_to_big_int c.muir_glacier_block;
    berlin_block = bytes_to_big_int c.berlin_block;
    london_block = bytes_to_big_int c.london_block;
    arrow_glacier_block = bytes_to_big_int c.arrow_glacier_block;
    gray_glacier_block = bytes_to_big_int c.gray_glacier_block;
    merge_netsplit_block = bytes_to_big_int c.merge_netsplit_block;
    shanghai_time = c.shanghai_time;
    cancun_time = c.cancun_time;
    prague_time = c.prague_time;
    verkle_time = c.verkle_time;
    terminal_total_difficulty = bytes_to_big_int c.terminal_total_difficulty;
    deposit_contract_address = G.bytes_to_address c.deposit_contract_address;
    ethash = ethash_of_mark c.ethash;
    clique = clique_config_from_proto c.clique;
  })

-- The configuration with the absolute values of its big integers.
abbrev pub unsigned_config : Types.ChainConfig → Types.ChainConfig
unsigned_config c = record c {
  chain_id = Option.map magnitude c.chain_id;
  homestead_block = Option.map magnitude c.homestead_block;
  dao_fork_block = Option.map magnitude c.dao_fork_block;
  eip150_block = Option.map magnitude c.eip150_block;
  eip155_block = Option.map magnitude c.eip155_block;
  eip158_block = Option.map magnitude c.eip158_block;
  byzantium_block = Option.map magnitude c.byzantium_block;
  constantinople_block = Option.map magnitude c.constantinople_block;
  petersburg_block = Option.map magnitude c.petersburg_block;
  istanbul_block = Option.map magnitude c.istanbul_block;
  muir_glacier_block = Option.map magnitude c.muir_glacier_block;
  berlin_block = Option.map magnitude c.berlin_block;
  london_block = Option.map magnitude c.london_block;
  arrow_glacier_block = Option.map magnitude c.arrow_glacier_block;
  gray_glacier_block = Option.map magnitude c.gray_glacier_block;
  merge_netsplit_block = Option.map magnitude c.merge_netsplit_block;
  terminal_total_difficulty = Option.map magnitude c.terminal_total_difficulty;
}

clique_round_trip :
    (c : Option Types.CliqueConfig) → clique_config_from_proto (clique_config_to_proto c) ≡ c
unfolding clique_config_from_proto clique_config_to_proto
clique_round_trip none = refl
clique_round_trip (some c) = refl

ethash_round_trip : (e : Option (Unit {0})) → ethash_of_mark (ethash_mark e) ≡ e
unfolding ethash_of_mark ethash_mark
ethash_round_trip none = refl
ethash_round_trip (some e) = refl

-- A chain configuration comes back field by field, forks that are not set included: only signs of
-- big integers are lost.
pub chain_config_round_trip :
    (G : Geth) (L : IsLawful G) (c : Option Types.ChainConfig)
    → chain_config_from_proto G (chain_config_to_proto c) ≡ Option.map unsigned_config c
unfolding chain_config_from_proto chain_config_to_proto
chain_config_round_trip G L none = refl
chain_config_round_trip G L (some c) =
    simp (bytes_to_big_int-big_int_to_bytes, clique_round_trip, ethash_round_trip, L.to_address)
