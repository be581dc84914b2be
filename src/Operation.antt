-- ===== src/Operation.antt =====
-- The operations that a node runs against other nodes: publish, update and get
-- (ot-node-docker/src/service/operation-service.js and its subclasses, operation-id-service.js,
-- and the command that sends an operation to one batch of nodes after another).
pub mod Data
pub mod Ids
pub mod Service
pub mod Replication
pub mod Get
pub mod Schedule
pub mod Counting
pub mod Outcome
pub mod Effects
pub mod Once
pub mod Batches
pub mod Run
pub mod Replicated
pub mod Rounds
pub mod Completion
pub mod Publishing
pub mod Checked
pub mod Ends
pub mod Fetching
pub mod Searching
pub mod Fetched
pub mod FetchBatch
pub mod FetchEnds
pub mod Cleaning
pub mod Readable
pub mod Exchange
mod Exchanging
mod Exchanged
mod ExchangeTests
pub mod Receiving
mod Received
mod ReceiveTests
mod Tests
