-- ===== src/Sharding/Scored.antt =====
-- ot-node-docker/src/service/proximity-scoring-service.js: the range of the
-- scores of linearSum.
use trex_dkg.Prelude.{
  ℕ, ◌+◌, ◌-◌, ◌*◌, ◌/◌, ◌≤◌, ◌<◌, ◌≡◌, some, inl, inr, ltb, leb, if◌then◌else◌, arith, Bool-cases,
}
use native.Mathlib.Nat.{
  mul-le-mul, mul-le-mul_left, div-le_of_le-mul, lt-mul-div-succ, le-div_iff_mul-le,
  div-mul-le_self,
}
use trex_dkg.Sharding.Proximity.{hash_ring_size}
use trex_dkg.Sharding.Agreements.{ℤ}
use trex_dkg.Sharding.Scoring.{
  uint256_max, uint40_max, one_ether, LinearSumParams, cut64, divisor_of, normalized_distance,
  normalized_stake, final_score, to_uint40, linear_sum,
}

-- With one ether as its scale, the stake's share of the range is at most that scale.
abbrev share_of : LinearSumParams → ℕ → ℕ → ℕ → ℕ
share_of p stake min_stake max_stake =
    p.stake_scale_factor * (stake - min_stake) / (max_stake - min_stake)

le-share_of :
    (p : LinearSumParams) (stake min_stake max_stake : ℕ)
    → stake ≤ max_stake
    → share_of p stake min_stake max_stake ≤ p.stake_scale_factor
le-share_of p stake min_stake max_stake h =
    div-le_of_le-mul (max_stake - min_stake) (grind (arith, mul-le-mul_left))

normalized_stake_lem :
    (p : LinearSumParams) (stake min_stake max_stake : ℕ)
    → p.stake_scale_factor ≤ one_ether
    → min_stake ≤ stake
    → stake ≤ max_stake
    → min_stake < max_stake
    → normalized_stake p stake min_stake max_stake
      ≡ some (ℤ.pos (share_of p stake min_stake max_stake))
unfolding normalized_stake
normalized_stake_lem p stake min_stake max_stake hf lo hi lt =
    ground (arith, le-share_of p stake min_stake max_stake hi)

-- The score of a normalized stake and distance that are not negative, before it is cut to 40 bits.
abbrev total : LinearSumParams → ℕ → ℕ → ℕ
total p d n =
    if leb d one_ether then (one_ether - d) * p.w1 + p.w2 * n else p.w2 * n - (d - one_ether) * p.w1

final_score-pos : (p : LinearSumParams) (d n : ℕ) → final_score p d (ℤ.pos n) ≡ ℤ.pos (total p d n)
final_score-pos p d n = ground arith

total_le : (p : LinearSumParams) (d n : ℕ) → n ≤ one_ether → total p d n ≤ one_ether * (p.w1 + p.w2)
total_le p d n h =
    let near : (one_ether - d) * p.w1 ≤ one_ether * p.w1 = mul-le-mul (omega arith) (omega arith) in
    let stake : p.w2 * n ≤ p.w2 * one_ether = mul-le-mul_left p.w2 h in ground arith

total_mono : (p : LinearSumParams) (d n m : ℕ) → n ≤ m → total p d n ≤ total p d m
total_mono p d n m h = let stake : p.w2 * n ≤ p.w2 * m = mul-le-mul_left p.w2 h in ground arith

le-div_pos : (a b : ℕ) → 0 < b → b ≤ a → 0 < a / b
le-div_pos a b pos h = grind (arith, lt-mul-div-succ a pos)

-- The factor that makes the divisor smaller is at most the distance.
compensation_le :
    (factor distance : ℕ)
    → factor ≤ one_ether
    → 0 < distance
    → distance * 2 ≤ hash_ring_size
    → factor / (uint256_max / distance) ≤ distance
compensation_le factor distance hf pos half =
    let above : uint256_max < distance * (uint256_max / distance + 1) =
      lt-mul-div-succ uint256_max pos in
    div-le_of_le-mul (uint256_max / distance) (grind arith)

normalized_distance-ok :
    (p : LinearSumParams) (distance max_neighborhood_distance r2 nodes_number : ℕ)
    → p.distance_scale_factor ≤ one_ether
    → 0 < nodes_number
    → 0 < distance
    → distance * 2 ≤ hash_ring_size
    → distance ≤ max_neighborhood_distance
    → distance ≤ hash_ring_size / nodes_number * ((r2 + 1) / 2)
    → (d : ℕ) × (normalized_distance p distance max_neighborhood_distance r2 nodes_number ≡ some d)
unfolding normalized_distance
normalized_distance-ok p distance maxd r2 nodes hf hn pos half near ideal =
    let factor = p.distance_scale_factor in
    let share = hash_ring_size / nodes * ((r2 + 1) / 2) in
    let multiplier = uint256_max / distance in
    let mpos : 0 < multiplier = le-div_pos uint256_max distance pos (omega arith) in
    let divisor = divisor_of maxd share in
    let large : distance ≤ divisor = ground arith in
    elim (Bool-cases (ltb multiplier factor)) [
      | inl e ↦
          let cpos : 0 < factor / multiplier = le-div_pos factor multiplier mpos (ground arith) in
          let apos : 0 < divisor / (factor / multiplier) =
            le-div_pos divisor _ cpos
              (omega (arith, large, compensation_le factor distance hf pos half)) in
          (cut64 (distance * multiplier / (divisor / (factor / multiplier))), ground arith)
      | inr e ↦ (cut64 (distance * factor / (divisor / 1)), ground arith)
    ]

div_mono : (a b k : ℕ) → 0 < k → a ≤ b → a / k ≤ b / k
div_mono a b k pos h = (le-div_iff_mul-le pos).1 (omega (arith, div-mul-le_self a k))

abbrev score : LinearSumParams → ℕ → ℕ → ℕ
score p d n = uint40_max * total p d n / (one_ether * (p.w1 + p.w2))

linear_sum-normalized :
    (p : LinearSumParams)
    (distance stake max_neighborhood_distance r2 nodes_number min_stake max_stake d n : ℕ)
    → 0 < p.w1 + p.w2
    → normalized_distance p distance max_neighborhood_distance r2 nodes_number ≡ some d
    → normalized_stake p stake min_stake max_stake ≡ some (ℤ.pos n)
    → linear_sum p distance stake max_neighborhood_distance r2 nodes_number min_stake max_stake
      ≡ some (ℤ.pos (score p d n))
unfolding linear_sum to_uint40
linear_sum-normalized p distance stake maxd r2 nodes min_stake max_stake d n weights hd hs =
    rw (hd, hs, final_score-pos p d n) (ground arith)

score_le : (p : LinearSumParams) (d n : ℕ) → n ≤ one_ether → score p d n ≤ uint40_max
score_le p d n h =
    div-le_of_le-mul (one_ether * (p.w1 + p.w2))
      (grind (arith, mul-le-mul_left uint40_max (total_le p d n h)))

score_mono : (p : LinearSumParams) (d n m : ℕ) → 0 < p.w1 + p.w2 → n ≤ m → score p d n ≤ score p d m
score_mono p d n m weights h =
    div_mono _ _ (one_ether * (p.w1 + p.w2)) (omega arith)
      (mul-le-mul_left uint40_max (total_mono p d n m h))

share_of_mono :
    (p : LinearSumParams) (stake more min_stake max_stake : ℕ)
    → min_stake < max_stake
    → stake ≤ more
    → share_of p stake min_stake max_stake ≤ share_of p more min_stake max_stake
share_of_mono p stake more min_stake max_stake lt h =
    div_mono _ _ (max_stake - min_stake) (omega arith)
      (mul-le-mul_left p.stake_scale_factor (omega arith))

-- linearSum returns a score for a node, which is a whole number that fits into 40 bits, and with
-- more stake the score is no less. The scale factors are at most 10^18, the weights are not both 0,
-- the distance is not 0 nor more than half of the ring, the largest distance in the neighbourhood
-- or the ideal one, and the stakes are between the minimal and the maximal one, which differ.
pub linear_sum_bounded :
    (p : LinearSumParams)
    (distance stake more max_neighborhood_distance r2 nodes_number min_stake max_stake : ℕ)
    → p.distance_scale_factor ≤ one_ether
    → p.stake_scale_factor ≤ one_ether
    → 0 < p.w1 + p.w2
    → 0 < nodes_number
    → 0 < distance
    → distance * 2 ≤ hash_ring_size
    → distance ≤ max_neighborhood_distance
    → distance ≤ hash_ring_size / nodes_number * ((r2 + 1) / 2)
    → min_stake ≤ stake
    → stake ≤ more
    → more ≤ max_stake
    → min_stake < max_stake
    → (a : ℕ) × (b : ℕ) × (linear_sum p distance stake max_neighborhood_distance r2 nodes_number
          min_stake max_stake
        ≡ some (ℤ.pos a))
      × (linear_sum p distance more max_neighborhood_distance r2 nodes_number min_stake max_stake
          ≡ some (ℤ.pos b))
      × (a ≤ b)
      × (b ≤ uint40_max)
linear_sum_bounded p distance stake more maxd r2 nodes min_stake max_stake hf hs hw hn pos half near
      ideal lo le hi lt =
    let (d, hd) = normalized_distance-ok p distance maxd r2 nodes hf hn pos half near ideal in
    let n = share_of p stake min_stake max_stake in
    let m = share_of p more min_stake max_stake in
    let small : m ≤ one_ether = omega (arith, hs, le-share_of p more min_stake max_stake hi) in
    (
      score p d n,
      score p d m,
      linear_sum-normalized p distance stake maxd r2 nodes min_stake max_stake d n hw hd
          (normalized_stake_lem p stake min_stake max_stake hs lo (omega arith) lt),
      linear_sum-normalized p distance more maxd r2 nodes min_stake max_stake d m hw hd
          (normalized_stake_lem p more min_stake max_stake hs (omega arith) hi lt),
      score_mono p d n m hw (share_of_mono p stake more min_stake max_stake lt le),
      score_le p d m small,
    )
