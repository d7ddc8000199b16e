-- ===== src/Lib.antt =====
-- The core of the Landslide SDK: the block executor, the virtual machine's handlers and caches,
-- the RPC handlers, the database client, the JSON-RPC server with its HTTP proxy, and the warp
-- backend.
--
-- The machine (vm/vm.go) answers the calls of a consensus engine. It decodes blocks and keeps them
-- in caches (vm/types/state/wrapped_block.go), asks the executor (vm/types/state/executor.go) to
-- build and to apply them, and the executor tests them (vm/types/state/utils.go) and calls the
-- application, the stores, the mempool and the event bus. The RPC handlers (vm/rpc.go) read the
-- same stores and indexes. The stores lie in a database that the client (database/) reaches by
-- requests. The warp backend (warp/) signs messages for other chains.
--
-- - Common: bytes as lists of numbers, integers with the wrap-around of `int64`, maps as
--   association lists, and the outcome of a Go call: a value, an error or a panic.
-- - Chain.Types: the records of CometBFT that the code reads. Chain.Library: the functions of
--   CometBFT and of the codecs that it calls, a parameter. Chain.Validate: `ValidateBlock`,
--   `MedianTime`, `EncodeBlockWithStatus` and its inverse; its children are on when a block is
--   accepted and on the codec.
-- - Executor.World: what the executor calls, a parameter: each call is an event of a trace, and
--   its answer is a function of the trace before it. Executor.CommitInfo, Update, Next, Events and
--   Apply: the functions `BuildLastCommitInfo` and `BuildExtendedCommitInfo`, `updateState`,
--   `fireEvents`, `ApplyBlock`, `Commit`, `CreateProposalBlock`, `ProcessProposal`,
--   `ExecCommitBlock` and `pruneBlocks`. Executor.Votes: `ExtendVote` and `VerifyVoteExtension`.
--   Executor.Only: which events an action can add. Executor.Update.Heights and Permitted: what an
--   update made, and which updates pass; Executor.Apply.NewState: a run that returned a state.
-- - Cache.Cacher: the interface of utils/cache/cache.go with the laws that its users rely on.
--   Cache.LinkedHashmap, Cache.Lru and Cache.SizedLru: utils/linkedhashmap with its iterator,
--   utils/cache/lru_cache.go and utils/cache/lru_sized_cache.go; the two Implements are on the
--   interface, and Cache.Forgets is what both need for it.
-- - Vm.Storage: `WrappedBlocksStorage`; a pointer to a wrapped block is an address in a list of
--   objects, since `BlockReject` writes to an object that several caches may share. Vm.Machine:
--   the state of `LandslideVM`, and the actions that handlers are made of. Vm.Blocks, Vm.Commit
--   and Vm.Consensus: the handlers. Vm.Boot and Vm.Initialize: `Initialize`, with what it builds
--   as fields of the machine: its steps, the connections that they keep
--   and hold, and what they made; Vm.Starting: its part on the last block. Vm.Closers: vm/types/closer
--   and grpcutils/server_closer.go. Vm.Messages: the handlers on health, on application messages
--   and those that are not implemented. Vm.Stopping: `Shutdown`. Vm.Triple: triples for handlers.
--   Vm.Invariant: the invariant of the caches and the handlers. Vm.Accepting and Vm.Answers: handlers
--   that returned.
-- - Warp: warp/backend.go, warp/verifier_backend.go and warp/block_client.go. Warp.Api: the
--   queries of vm/warp_service.go and the fetcher of warp/fetcher.go; Warp.Answers: what they
--   answer. Warp.Client: warp/client.go, against the routes of the server.
-- - Jsonrpc: jsonrpc/http_json_handler.go and jsonrpc/rpc_func.go, with reflection and the JSON
--   library as parameters, and the state of the functions that are called. Jsonrpc.Replies: the
--   responses of a batch; Jsonrpc.Crashes: the requests that make the server panic; Jsonrpc.Typed:
--   the arguments of a call; Jsonrpc.Functions: `NewRPCFunc` and its options.
-- - Http: http/ and grpcutils/util.go. Http.Simple: requests that are no upgrades, with the
--   transport of gRPC as a parameter; Http.Message and Http.Request: the message that an upgrade is
--   sent in;
--   Http.Writer: http/responsewriter, the writer that a handler of an upgraded request has; the
--   three Trips are on what arrives. Http.Stream: http/reader, http/writer and http/conn.
-- - Server: `Serve` of server/sdk_server.go, its loop of signals and its way to a server that
--   listens.
-- - Config: vm/types/config.go.
-- - Rpc: the ranges of vm/rpc.go. Rpc.Pages: the pages, Rpc.Blocks: the handlers on blocks,
--   Rpc.Search: those on the indexes, Rpc.Broadcast: those on the mempool, Rpc.Info: `Status` and
--   those that pass a call on, Rpc.Routes: the table of `Routes`, with the functions that the
--   server makes of it, Rpc.Genesis: the chunks of the genesis document, from vm/vm.go too. The
--   stores are read while one request is served, so they are a record of functions; a page that an
--   answer reads twice is the same.
-- - Database: database/. Database.Client: the server is a parameter, a state with an answer and a
--   next state for each request. Database.Batch: batches. Database.Iterator: iterators, with the
--   goroutine `fetch` as a state machine whose steps interleave with the client's.
-- - Examples: a concrete library, world, cache, block, store and server, and runs on them.
--
-- A handler is a function from the machine and the trace to a result, a machine and a trace, so an
-- error leaves the changes made before it in place, and a panic is a result of its own. Calls are
-- one after the other: the locks are not modelled. Loops on fuel: that of `resize` in Cache.Lru,
-- which is given the number of elements, since each round drops one; that of `put` in
-- Cache.SizedLru, which is given the number of elements and the current size, since each round
-- drops an element or lowers the size; that of `BlockchainInfo`, which is given 21, one more than
-- the heights that a range may hold; that over the chunks of the genesis document, which is given
-- one more than its length; that of a client over a linked hash map, which is given the number of
-- its entries; and `fetch` of an iterator of the database, which comes to a wait within two steps
-- and to its end within three. All other loops are over lists. Times are numbers of nanoseconds.
-- Numbers of Go's `int64` wrap around where they are added.
--
-- Not modelled: logs, metrics and the test hook `fail.Fail`, which change nothing that the code
-- reads; the goroutines that `Initialize` starts to tell the engine of transactions; the setting
-- up of hijacked connections, `Flush`, and the options of gRPC; the list of endpoints; reflection;
-- generated code; and the copies of AvalancheGo and Coreth under utils, the aggregator of signatures
-- among them. The caches of blocks and of identifiers are an interface of the machine; those that
-- `NewWrappedBlocksStorage` makes are not put there, since their sizes are lengths of byte strings,
-- which have no bound as lists.
pub mod Common
pub mod Chain
pub mod Executor
pub mod Cache
pub mod Vm
pub mod Warp
pub mod Config
pub mod Rpc
pub mod Database
pub mod Jsonrpc
pub mod Http
pub mod Server
pub mod Examples
