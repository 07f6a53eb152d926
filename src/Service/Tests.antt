-- ===== src/Service/Tests.antt =====
-- A service that starts on a node whose world counts the requests.
use zk_pig.Base.{ℕ, suc, pos, none, some, true, false, ok, ◌≡◌, refl}
use zk_pig.Service.Once.{start-start}
use zk_pig.Service.{
  ServiceLib, Service, returned, start, initialize, start_remote_of, after_start, get_chain_id,
  with_chain_id,
}

abbrev pub node : ServiceLib
node = record {
  World = ℕ;
  is_runnable = true;
  start_remote = λ w. (ok tt, suc w);
  remote_chain_id = λ w. (ok (some (pos 1)), suc w);
}

abbrev service : Service node
service = record {
  cfg_chain_rpc = true;
  cfg_chain_id = none;
  init_once = false;
  chain_id = none;
  err = none;
}

started : (start node service 0).0 ≡ returned none
unfolding start initialize start_remote_of after_start get_chain_id with_chain_id
started = refl

-- Two requests are made.
requests : (start node service 0).2 ≡ 2
unfolding start initialize start_remote_of after_start get_chain_id with_chain_id
requests = refl

start-start_example :
    start node (start node service 0).1 (start node service 0).2
    ≡ (returned none, (start node service 0).1, (start node service 0).2)
start-start_example = start-start node service 0 none started
