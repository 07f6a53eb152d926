-- ===== src/Lib.antt =====
-- zk-pig makes the inputs that a prover of Ethereum blocks needs. A preflight executes a block on the
-- state of a remote node and collects state proofs, a preparation turns the proofs into trie nodes,
-- executes the block on them and builds the prover input, and an execution checks a prover input by
-- executing its block once more. Prover inputs are stored as JSON or as protobuf messages.
--
-- The files and the code that they model:
-- - Base: what the other modules share: results of Go functions (a result, an error or a panic), lists,
--   byte strings as big-endian numbers, byte arrays of a fixed size, maps.
-- - Geth: the structs of go-ethereum, and the functions of it that the codec calls as a parameter.
-- - Input: the structs of src/prover-input/input.go. Normalize is src/prover-input/testutils.go, Sorting
--   what sort.Slice promises, Compared what the comparison of two inputs finds.
-- - Proto: src/prover-input/proto. Message has the generated structs; Helpers is helpers.go; Headers and
--   Inputs are block.go and input.go; AccessLists, Sidecars and Transactions with its children are
--   transaction.go; ChainConfigs is chain_config.go. `HeaderToProto` is `header_to_proto`, and so on. A
--   pointer and a slice that may be nil is an option, and a conversion that can panic gives an outcome.
-- - Trie: src/ethereum/trie. Nodes is AddNodes and AddOrphanNodes, Proofs is node_set_account.go and
--   node_set_storage.go, NodeSets is the rest of node_set.go; Proofs/Checked says when
--   proofs prove accounts and slots, without their code. A node set is passed along as a value.
-- - State: src/ethereum/state. Tracker is database_tracker.go: trackers lie on a heap, a pointer to one
--   is its position, and a world has the heap, the manager's map and the current tracker. Rpc is
--   database_rpc.go: the numbers of the blocks that were marked, and what the remote node is asked.
--   Tries is `OpenTrie`, `OpenStorageTrie` and the `NoOpTrie` of the same file.
-- - Evm: src/ethereum/evm. Executor is executor.go: the state database is passed along, and the calls
--   that others see are kept in a list. LoggerTracer is the tracer of executor_logging.go, and
--   Decorators is `ExecutorWithLog`. Tags is `ExecutorWithTags`, and the stack of the three; the generator
--   calls the stack without the tags, which do not change an execution.
-- - Ethdb: src/ethereum/ethdb/rpcdb.
-- - Chain: src/ethereum/chain.go and database.go. A database is a value that a write replaces.
-- - Generator: src/generator. Chains is chains.go, Run the call of the executor that the three steps
--   share, Preflight, Prepare and Execute are the files of those names. `Preflight`, `Prepare` and
--   `Execute` are `run_preflight`, `run_prepare` and `execute_input`. Executed is about an execution of
--   what a preparation made. Sample is a value of the interface.
-- - Store: src/store. ProverInputs is input_store.go and PreflightData preflight_data_store.go; a path
--   is a list of bytes.
-- - Config: src/config.go, the struct of src/config/config.go, and `validateS3Config` of cmd/generate.go.
--   Flags is src/config/flags.go, Load is `Load` of src/config/config.go, and Loaded is what a loaded
--   configuration has in its fields.
-- - Service: src/service.go. `Start` is in Service itself, where the guard of `initOnce` is a field of
--   the service, Commands has `Generate` and the other commands on the worlds of the two stores, New has
--   `New`, `Stop` and `Errors`, and `preRun` of cmd/generate.go.
-- - Cmd: cmd. Root is the flags and the persistent hook of root.go, Commands the commands of
--   generate.go, as hooks on the state of the process, and Ends how they end.
-- The parts meet in the generator, which opens tracked readers of the RPC database, executes on them
-- with the executor, and hands the proofs to the node sets; the service hands what the generator makes
-- to the stores, which encode it by the codec; the commands make a service, start it, and run one of its
-- methods.
--
-- Bounds: numbers that Go holds in a uint64 are natural numbers here, where the code only copies them;
-- `Uint64` and the number of a parent are taken modulo 2^64. The number in a header key is taken to be
-- below 2^64. The digits of a number are written with the number itself as fuel, which is enough since
-- each digit divides it by 256, or by 10 in a decimal text. Nothing else has fuel.
--
-- Parameters: go-ethereum (transactions, hashes of bytes, proof verification, node sets, state readers,
-- the state processor and the block validator, databases, the header chain), uint256, zap, the remote
-- node, the stores of go-utils, JSON, the wire format of protobuf, sort.Slice, viper, the flags and the
-- logging of go-utils, cobra, and the order in which a loop visits a map. What a theorem needs of them
-- stands in records of laws, and the tests have values that keep them. That the trackers of a state
-- database hold what its reader was asked for, and nothing else, is such a law of go-ethereum (Tracks of
-- Generator/Preflight/Tracked), and that the witness of an execution is enough to execute the block
-- again is one (IsStateless of Generator/Executed).
--
-- Not modelled: the descriptions of flags and commands; the version command and main, which print; the
-- decorators of the RPC client; generated code of protobuf beside its structs; the values that error
-- messages show; log lines, and the tags of the generator's own functions; `Copy` of the readers of a state, since the
-- maps inside a tracker are values here, so that it cannot be said that a copy does not share them.
pub mod Base
pub mod Geth
pub mod Input
pub mod Proto
pub mod Trie
pub mod State
pub mod Evm
pub mod Ethdb
pub mod Chain
pub mod Generator
pub mod Store
pub mod Config
pub mod Service
pub mod Cmd
