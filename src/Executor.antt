-- ===== src/Executor.antt =====
-- The command executor: ot-node-docker/src/commands/command-executor.js and command.js. Commands
-- are rows of a table; those that may run stand in a queue, the others wait for a timer.
pub mod Data
pub mod Queue
pub mod Execute
pub mod Calls
pub mod Swapped
pub mod Timing
pub mod Bounded
pub mod Retries
pub mod Lifetime
pub mod Sequence
pub mod Replay
pub mod Replayed
mod Tests
