-- ===== src/Sharding.antt =====
-- The sharding table: sharding-table-service.js, and what uses its neighbourhoods.
pub mod Order
mod Stable
pub mod Data
pub mod Neighbourhood
mod Closest
mod Agreement
mod Found
mod Dial
mod Seen
pub mod Pull
mod Pulled
mod PulledTable
mod Shrunk
mod PullTests
mod Bids
pub mod Agreements
mod Precision
pub mod Proximity
mod Scoring
mod Scored
mod ScoreTests
mod Tests
