-- ===== src/Config/Tests.antt =====
-- Chain IDs and S3 configurations.
use zk_pig.Base.{pos, negsuc, [], ◌∷◌, ok, ◌≡◌, refl, decimal, dec_value}
use zk_pig.Config.{S3Config, set_string, parse_chain_id}
use zk_pig.Config.ChainIds.{chain_id_text, parse_chain_id-chain_id_text}

-- "11155111"
sepolia : decimal 11155111 ≡ 49 ∷ 49 ∷ 49 ∷ 53 ∷ 53 ∷ 49 ∷ 49 ∷ 49 ∷ []
unfolding decimal
sepolia = refl

-- "+1" and "-2"
signs :
    (parse_chain_id (43 ∷ 49 ∷ []) ≡ ok (pos 1)) × (parse_chain_id (45 ∷ 50 ∷ []) ≡ ok (negsuc 1))
unfolding parse_chain_id set_string dec_value
signs = (refl, refl)

parse_chain_id-chain_id_text_example :
    parse_chain_id (chain_id_text (pos 11155111)) ≡ ok (pos 11155111)
parse_chain_id-chain_id_text_example = parse_chain_id-chain_id_text (pos 11155111)

-- A bucket alone.
abbrev pub bucket_only : S3Config
bucket_only = record {
  bucket = 98 ∷ [];
  key_prefix = [];
  region = [];
  access_key = [];
  secret_key = [];
}
