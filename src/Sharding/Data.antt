-- ===== src/Sharding/Data.antt =====
-- A row of the `shard` table and a peer of a neighbourhood
-- (ot-node-docker/src/modules/repository/implementation/sequelize/models/shard.js).
use trex_dkg.Prelude.{ℕ}

-- Times are milliseconds, 0 is the columns' default. Identifiers are numbers.
pub record Peer : Type 0 where
  pub peer_id : ℕ
  pub blockchain_id : ℕ
  pub ask : ℕ
  pub stake : ℕ
  pub last_seen : ℕ
  pub last_dialed : ℕ
  pub sha256 : ℕ

-- `{ ...peer.dataValues, index }`
pub record Indexed : Type 0 where
  pub peer : Peer
  pub index : ℕ

-- `{ ...peer, distance }`
pub record Found : Type 0 where
  pub entry : Indexed
  pub distance : ℕ
