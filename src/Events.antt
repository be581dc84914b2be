-- ===== src/Events.antt =====
-- The events of the blockchains: getAllPastEvents of
-- ot-node-docker/src/modules/blockchain/implementation/web3-service.js, and
-- ot-node-docker/src/service/blockchain-event-listener-service.js with the two tables that it keeps.
pub mod Data
pub mod Fetch
mod Chain
mod Paged
mod Skipped
pub mod Handle
mod Plan
mod Handled
mod Tests
