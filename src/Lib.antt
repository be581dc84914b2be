-- ===== src/Lib.antt =====
-- The core of the OriginTrail node, ot-node-docker/src.
--
-- A node takes part in a network that stores assertions (sets of quads) about assets on
-- blockchains. Its work is done by commands that an executor runs, again and again, out of a
-- database and of timers: commands of an operation (publish, update, get) find the nodes near an
-- asset, ask them in batches, and count their answers; commands of the epoch check commit to
-- service agreements and prove them. The parts share the database; a command hands over to another
-- by adding it to the executor.
--
-- Prelude: lists, dictionaries and tests on the native numbers.
--
-- Executor: ot-node-docker/src/commands/command-executor.js and command.js. `World` has the queue,
--   the timers and the rows of the table of commands; `execute` is _execute with all it calls:
--   deadline, waiting, handler, repeat, retry, error, recovery, children, rollback. The handlers
--   are a parameter. Replay is replayOldCommands, at the start of the node. The parallel queue is a
--   sequence of executions.
--
-- Operation: ot-node-docker/src/service/operation-service.js with publish-service.js,
--   update-service.js and get-service.js, operation-id-service.js, and the schedule commands under
--   commands/protocols. `World` has the rows of responses and operations, the events, the two
--   caches and the scheduled commands. Replication and Get are the three processResponse functions;
--   Schedule and Publishing are the commands that send one batch; Run lets batch follow batch as
--   the executor does, with the answers of the nodes as a function. Its fuel bounds the batches:
--   one for each node found is enough, as each batch has a node. Exchange is the messages to one
--   node, from which such an answer comes; its fuel bounds the messages: one for each retry, one
--   more, and the request are enough. Receiving is the node that gets the init message of a
--   publish, whose fuel bounds its tries. The rows that several operations share are told apart by
--   operation and id. Ids and Cleaning are the statuses and cached results, and the command that
--   removes them after a day.
--
-- Sharding: ot-node-docker/src/service/sharding-table-service.js, proximity-scoring-service.js and
--   service-agreement-service.js, with commands/protocols/common/find-nodes-command.js and
--   handle-protocol-message-command.js: neighbourhoods of a key, dialling and the times of peers,
--   bids and their validation, scores, and the pull of the table from a blockchain. Hashes are
--   numbers. The contract's pages are a parameter: behind the end of the table they are padded, as
--   _getShardingTable of dkg-evm-module/contracts/v2/ShardingTable.sol does. The fuel of the pull
--   bounds its pages.
--
-- Epoch: ot-node-docker/src/commands/protocols/common/epoch-check/blockchain-epoch-check-command.js
--   and the queries of service-agreement-repository.js: which agreements the node commits to and
--   proves. What it asks blockchain and triple store for is a record of functions, in which `none`
--   is an exception.
--
-- Auth: ot-node-docker/src/service/auth-service.js and the two middlewares of the HTTP client. The
--   packages for addresses and for tokens are parameters.
--
-- Events: ot-node-docker/src/service/blockchain-event-listener-service.js with getAllPastEvents of
--   ot-node-docker/src/modules/blockchain/implementation/web3-service.js. `World` has the tables of
--   events and of checked blocks. The query of a contract and the handlers are parameters. The fuel
--   of the pages is the number of blocks, as each page has one.
--
-- Ual: ot-node-docker/src/service/ual-service.js. A text is a list of codes below 128; `Number` of
--   a text that has a sign, a point or an exponent keeps the text.
--
-- Numbers are natural numbers of any size: the program has them as JavaScript numbers below 2^53,
-- or as BigNumbers, which do not wrap; a difference that may be negative is an integer written out.
-- Identifiers, addresses and texts that are only compared are numbers.
--
-- Not modelled: logging and telemetry; the network, the triple stores and the databases themselves;
-- the contracts of the blockchains and the transactions to them; the handlers of single events;
-- migrations and the start of the node; the score function log2PLDSF, which computes with
-- floating-point logarithms; the contents of messages and the other commands of a node that
-- receives one; and paranets.
pub mod Prelude
pub mod Operation
pub mod Auth
pub mod Executor
pub mod Sharding
pub mod Epoch
pub mod Ual
pub mod Events
