-- ===== src/Sharding/Scoring.antt =====
-- ot-node-docker/src/service/proximity-scoring-service.js: linearSum, the score of a node for an
-- asset. Stakes are in wei. A number may go below 0 where the stake is below the minimal stake;
-- `none` is the exception of a division by 0.
use trex_dkg.Prelude.{
  ℕ, suc, ◌+◌, ◌-◌, ◌*◌, ◌/◌, ◌%◌, ◌^◌, Option, none, some, ltb, leb, ◌==◌, if◌then◌else◌,
}
use trex_dkg.Sharding.Proximity.{hash_ring_size}
use trex_dkg.Sharding.Agreements.{ℤ, difference}

abbrev pub uint256_max : ℕ
uint256_max = 2 ^ 256 - 1

abbrev pub uint64_max : ℕ
uint64_max = 2 ^ 64 - 1

abbrev pub uint40_max : ℕ
uint40_max = 2 ^ 40 - 1

abbrev pub one_ether : ℕ
one_ether = 1000000000000000000

pub record LinearSumParams : Type 0 where
  pub distance_scale_factor : ℕ
  pub stake_scale_factor : ℕ
  pub w1 : ℕ
  pub w2 : ℕ

infixl 5 ◌>>=◌
abbrev pub ◌>>=◌ {ℓ κ} : {A : Type ℓ} {B : Type κ} → Option A → (A → Option B) → Option B
none >>= f = none
some a >>= f = f a

abbrev pub div : ℕ → ℕ → Option ℕ
div a b = if b == 0 then none else some (a / b)

abbrev pub negate : ℕ → ℤ
negate n = difference 0 n

-- `mul` by a number that is not negative.
abbrev pub scale : ℕ → ℤ → ℤ
scale n (ℤ.pos a) = ℤ.pos (n * a)
scale n (ℤ.negsuc a) = negate (n * suc a)

-- `div` of BigNumbers cuts the fraction off.
abbrev pub div_int : ℤ → ℤ → Option ℤ
div_int (ℤ.pos a) (ℤ.pos b) = if b == 0 then none else some (ℤ.pos (a / b))
div_int (ℤ.pos a) (ℤ.negsuc b) = some (negate (a / suc b))
div_int (ℤ.negsuc a) (ℤ.pos b) = if b == 0 then none else some (negate (suc a / b))
div_int (ℤ.negsuc a) (ℤ.negsuc b) = some (ℤ.pos (suc a / suc b))

abbrev pub add_nat : ℕ → ℤ → ℤ
add_nat n (ℤ.pos a) = ℤ.pos (n + a)
add_nat n (ℤ.negsuc a) = difference n (suc a)

-- A number above 64 bits is cut to them.
abbrev pub cut64 : ℕ → ℕ
cut64 n = if ltb uint64_max n then n % (uint64_max + 1) else n

abbrev pub cut64_int : ℤ → ℤ
cut64_int (ℤ.pos n) = ℤ.pos (cut64 n)
cut64_int (ℤ.negsuc n) = ℤ.negsuc n

abbrev pub divisor_of : ℕ → ℕ → ℕ
divisor_of max_neighborhood_distance ideal =
    if leb max_neighborhood_distance ideal then max_neighborhood_distance else ideal

-- The scale factor, and the factor by which the divisor is made smaller instead.
abbrev pub compensated : ℕ → ℕ → Option (ℕ × ℕ)
compensated factor max_multiplier =
    if ltb max_multiplier factor
    then (do compensation ← div factor max_multiplier; some (max_multiplier, compensation))
    else some (factor, 1)

unfoldable pub normalized_distance : LinearSumParams → ℕ → ℕ → ℕ → ℕ → Option ℕ
normalized_distance p distance max_neighborhood_distance r2 nodes_number = do
  share ← div hash_ring_size nodes_number
  let divisor = divisor_of max_neighborhood_distance (share * ((r2 + 1) / 2))
  max_multiplier ← div uint256_max distance
  (factor, compensation) ← compensated p.distance_scale_factor max_multiplier
  adjusted_divisor ← div divisor compensation
  quotient ← div (distance * factor) adjusted_divisor
  some (cut64 quotient)

unfoldable pub normalized_stake : LinearSumParams → ℕ → ℕ → ℕ → Option ℤ
normalized_stake p stake min_stake max_stake = do
  quotient ←
      div_int (scale p.stake_scale_factor (difference stake min_stake))
        (difference max_stake min_stake)
  some (cut64_int quotient)

-- The stake's score less the distance's, if that is not negative.
abbrev pub above : ℤ → ℕ → ℤ
above (ℤ.pos a) b = if leb b a then ℤ.pos (a - b) else ℤ.pos 0
above (ℤ.negsuc a) b = ℤ.pos 0

abbrev pub final_score : LinearSumParams → ℕ → ℤ → ℤ
final_score p d s =
    if leb d one_ether
    then add_nat ((one_ether - d) * p.w1) (scale p.w2 s)
    else above (scale p.w2 s) ((d - one_ether) * p.w1)

unfoldable pub to_uint40 : ℤ → ℕ → Option ℤ
to_uint40 value max_value = div_int (scale uint40_max value) (ℤ.pos max_value)

unfoldable pub linear_sum : LinearSumParams → ℕ → ℕ → ℕ → ℕ → ℕ → ℕ → ℕ → Option ℤ
linear_sum p distance stake max_neighborhood_distance r2 nodes_number min_stake max_stake = do
  d ← normalized_distance p distance max_neighborhood_distance r2 nodes_number
  s ← normalized_stake p stake min_stake max_stake
  to_uint40 (final_score p d s) (one_ether * (p.w1 + p.w2))
