-- ===== src/Sharding/Proximity.antt =====
-- ot-node-docker/src/service/proximity-scoring-service.js: the distance on the hash ring.
use trex_dkg.Prelude.{ℕ, ◌+◌, ◌-◌, ◌*◌, ◌^◌, ◌≤◌, ◌<◌, ◌≡◌, ◌↔◌, arith, ltb, if◌then◌else◌}

-- HASH_RING_SIZE, which is MaxUint256.
abbrev pub hash_ring_size : ℕ
hash_ring_size = 2 ^ 256 - 1

abbrev pub direct_distance : ℕ → ℕ → ℕ
direct_distance peer key = if ltb key peer then peer - key else key - peer

-- `calculateBidirectionalProximityOnHashRing`, of a peer's and a key's position: numbers of 256 bits,
-- so that no subtraction goes below 0.
unfoldable pub calculate_bidirectional_proximity_on_hash_ring : ℕ → ℕ → ℕ
calculate_bidirectional_proximity_on_hash_ring peer key =
    let direct = direct_distance peer key in
    let wraparound = hash_ring_size - direct in if ltb direct wraparound then direct else wraparound

abbrev pub distance : ℕ → ℕ → ℕ
distance = calculate_bidirectional_proximity_on_hash_ring

-- The distance on the hash ring, on positions below the ring's size, is symmetric, at most half of
-- the ring, obeys the triangle inequality, and is 0 only for a position and itself.
pub distance-IsMetric :
    (a b c : ℕ)
    → a < hash_ring_size
    → b < hash_ring_size
    → c < hash_ring_size
    → (distance a b ≡ distance b a)
      × (distance a b * 2 ≤ hash_ring_size)
      × (distance a c ≤ distance a b + distance b c)
      × ((distance a b ≡ 0) ↔ (a ≡ b))
unfolding calculate_bidirectional_proximity_on_hash_ring
distance-IsMetric a b c la lb lc = (ground arith, ground arith, ground arith, ground arith)
