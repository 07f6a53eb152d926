-- ===== src/Generator/Chains.antt =====
-- src/generator/chains.go. The keys of the map are decimal strings of numbers, which are equal exactly
-- if the numbers are; a nil number has a string of its own.
use zk_pig.Base.{
  ℤ, pos, negsuc, Option, none, some, List, [], ◌∷◌, Bool, true, false, ◌==◌, if◌then◌else◌,
  Bool-cases, inl, inr, Outcome, ok, err, error, ◌≡◌, refl, arith,
}
use zk_pig.Geth.Types.{ChainConfig}

unfoldable pub same_number : Option ℤ → Option ℤ → Bool
same_number none none = true
same_number (some (pos m)) (some (pos n)) = m == n
same_number (some (negsuc m)) (some (negsuc n)) = m == n
same_number _ _ = false

unfoldable pub find_chain : List ChainConfig → Option ℤ → Outcome ChainConfig
unfolding same_number
find_chain [] chain_id = err (error "unsupported chain ID")
find_chain (cfg ∷ cfgs) chain_id =
    if same_number cfg.chain_id chain_id then ok cfg else find_chain cfgs chain_id

module _ (mainnet sepolia holesky : ChainConfig) where
  -- A later entry would replace an earlier one of the same key.
  abbrev pub chain_configs : List ChainConfig
  chain_configs = holesky ∷ sepolia ∷ mainnet ∷ []

  unfoldable pub get_chain_config : Option ℤ → Outcome ChainConfig
  unfolding find_chain same_number
  get_chain_config chain_id = find_chain chain_configs chain_id

same_number_sound : (a b : Option ℤ) → same_number a b ≡ true → a ≡ b
unfolding same_number
same_number_sound none none h = refl
same_number_sound none (some b) h = cc
same_number_sound (some (pos m)) none h = cc
same_number_sound (some (negsuc m)) none h = cc
same_number_sound (some (pos m)) (some (pos n)) h = ground arith
same_number_sound (some (negsuc m)) (some (negsuc n)) h = ground arith
same_number_sound (some (pos m)) (some (negsuc n)) h = cc
same_number_sound (some (negsuc m)) (some (pos n)) h = cc

find_chain-id :
    (cfgs : List ChainConfig) (chain_id : Option ℤ) {cfg : ChainConfig}
    → find_chain cfgs chain_id ≡ ok cfg
    → cfg.chain_id ≡ chain_id
unfolding find_chain
find_chain-id [] chain_id h = cc
find_chain-id (c ∷ cs) chain_id {cfg} h = elim (Bool-cases (same_number c.chain_id chain_id)) [
  | inl same ↦
      let e : ok c ≡ ok cfg = rw same at h in
      let e' : c ≡ cfg = cc in rw (← e') (same_number_sound c.chain_id chain_id same)
  | inr other ↦ find_chain-id cs chain_id (rw other at h)
]

-- The configuration that is found for a chain ID has that chain ID.
pub get_chain_config-id :
    (mainnet sepolia holesky : ChainConfig) (chain_id : Option ℤ) {cfg : ChainConfig}
    → get_chain_config mainnet sepolia holesky chain_id ≡ ok cfg
    → cfg.chain_id ≡ chain_id
unfolding get_chain_config
get_chain_config-id mainnet sepolia holesky chain_id h =
    find_chain-id (chain_configs mainnet sepolia holesky) chain_id h
