-- ===== src/Ethdb/Tests.antt =====
-- A database over an empty one and a remote node.
use zk_pig.Base.{
  ℕ, [], ◌∷◌, ◌==◌, ◌&&◌, false, length, some, Bytes, ok, err, error, panic, ◌>>=◌, ◌≡◌, ◌<◌, ◌^◌,
}
use zk_pig.Geth.Types.{Hash}
use zk_pig.Geth.Sample.{sample, sample-IsLawful}
use zk_pig.Ethdb.Keys.{header_key}
use zk_pig.Ethdb.Rpcdb.{RpcdbLib, IsLawful, get, get_branches}

abbrev pub remote : RpcdbLib
remote = record {
  RemoteHeader = Hash;
  local_get = λ key. err (error "not found");
  header_by_hash = λ hash. ok hash;
  encode_to_bytes = λ header. ok (some header.bytes);
  bytes_to_hash = sample.bytes_to_hash;
}

remote-IsLawful : IsLawful remote
remote-IsLawful = record { bytes_to_hash_lem = sample-IsLawful.to_hash }

get_branches_example :
    (get remote [] ≡ panic)
    × ((number : ℕ) (hash : Hash)
        → number < 2 ^ 64
        → get remote (header_key number hash)
          ≡ (do header ← remote.header_by_hash hash; remote.encode_to_bytes header))
    × ((b : ℕ) (rest : Bytes)
        → (b == 104 && length rest == 40) ≡ false
        → get remote (b ∷ rest) ≡ remote.local_get (b ∷ rest))
get_branches_example = get_branches remote remote-IsLawful
