-- ===== src/Epoch.antt =====
-- The epoch check, which schedules a node's commits and proofs:
-- ot-node-docker/src/commands/protocols/common/epoch-check/blockchain-epoch-check-command.js.
mod Data
mod Queries
mod Windows
mod Loop
mod Ranks
mod Scores
mod Rank
mod Commits
mod Justified
mod Punctual
mod Settled
mod Recorded
mod Once
mod Proofs
mod ProvedOnce
mod Tests
