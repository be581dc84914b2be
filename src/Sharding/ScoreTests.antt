-- ===== src/Sharding/ScoreTests.antt =====
-- Scores of a node, of ot-node-docker/src/service/proximity-scoring-service.js.
use trex_dkg.Prelude.{ℕ, ◌*◌, ◌^◌, ◌≤◌, ◌≡◌, refl, none, some, arith}
use trex_dkg.Sharding.Agreements.{ℤ}
use trex_dkg.Sharding.Scoring.{
  uint40_max, one_ether, LinearSumParams, normalized_distance, normalized_stake, to_uint40,
  linear_sum,
}
use trex_dkg.Sharding.Scored.{linear_sum_bounded}

abbrev params : LinearSumParams
params = record {
  distance_scale_factor = one_ether;
  stake_scale_factor = one_ether;
  w1 = 1;
  w2 = 1;
}

abbrev ether : ℕ → ℕ
ether n = n * one_ether

score_of_stake :
    linear_sum params (2 ^ 250) (ether 100000) (2 ^ 252) 20 8 (ether 50000) (ether 2000000)
    ≡ some (ℤ.pos 426413163335)
unfolding linear_sum normalized_distance normalized_stake to_uint40
score_of_stake = refl

-- With a stake below the minimal one, and at distance 0.
score_below :
    linear_sum params (2 ^ 250) 0 (2 ^ 252) 20 8 (ether 1) (ether 2) ≡ some (ℤ.negsuc 137438953470)
unfolding linear_sum normalized_distance normalized_stake to_uint40
score_below = refl

no_distance : linear_sum params 0 5 10 20 8 1 9 ≡ none
unfolding linear_sum normalized_distance
no_distance = refl

linear_sum_bounded_example :
    (a : ℕ) × (b : ℕ) × (linear_sum params
        (2 ^ 250)
        (ether 100000)
        (2 ^ 252)
        20
        8
        (ether 50000)
        (ether 2000000)
      ≡ some (ℤ.pos a))
    × (linear_sum params (2 ^ 250) (ether 200000) (2 ^ 252) 20 8 (ether 50000) (ether 2000000)
        ≡ some (ℤ.pos b))
    × (a ≤ b)
    × (b ≤ uint40_max)
linear_sum_bounded_example =
    linear_sum_bounded params (2 ^ 250) (ether 100000) (ether 200000) (2 ^ 252) 20 8 (ether 50000)
      (ether 2000000) (omega arith) (omega arith) (omega arith) (omega arith) (omega arith)
      (omega arith) (omega arith) (omega arith) (omega arith) (omega arith) (omega arith)
      (omega arith)
