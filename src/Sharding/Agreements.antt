-- ===== src/Sharding/Agreements.antt =====
-- `calculateCurrentEpoch` and `calculateBid` of
-- ot-node-docker/src/service/service-agreement-service.js and `validateBid` of
-- ot-node-docker/src/commands/protocols/common/handle-protocol-message-command.js.
use trex_dkg.Prelude.{ℕ, suc, ◌+◌, ◌-◌, ◌*◌, ◌/◌, Option, none, some, ltb, leb, ◌==◌, if◌then◌else◌}
use trex_dkg.Sharding.Bids.{bytes_in_kilobyte}

-- A whole number that may be below 0: `negsuc n` is -(n + 1).
pub data ℤ : Type 0 where
  pos : ℕ → ℤ
  negsuc : ℕ → ℤ

abbrev pub difference : ℕ → ℕ → ℤ
difference a b = if leb b a then ℤ.pos (a - b) else ℤ.negsuc (b - a - 1)

pub record AgreementData : Type 0 where
  pub start_time : ℕ
  pub epochs_number : ℕ
  pub epoch_length : ℕ
  pub token_amount : ℕ
  pub update_token_amount : ℕ

-- `Math.floor((now - startTime) / epochLength)`; `none` where JavaScript divides by 0.
unfoldable pub calculate_current_epoch : ℕ → ℕ → ℕ → Option ℤ
calculate_current_epoch now start_time epoch_length =
    if epoch_length == 0
    then none
    else if leb start_time now
    then some (ℤ.pos ((now - start_time) / epoch_length))
    else some (ℤ.negsuc ((start_time - now - 1) / epoch_length))

-- `Number(agreementData.epochsNumber) - currentEpoch`
abbrev pub epochs_left : ℕ → ℤ → ℤ
epochs_left epochs_number (ℤ.pos n) = difference epochs_number n
epochs_left epochs_number (ℤ.negsuc n) = ℤ.pos (epochs_number + suc n)

-- The quotient by a negative number, and 1 wei.
abbrev pub one_minus : ℕ → ℤ
one_minus q = difference 1 q

-- `calculateBid`; `none` is the exception of a division by 0, and of a number that is not whole.
unfoldable pub calculate_bid : ℕ → ℕ → AgreementData → ℕ → Option ℤ
calculate_bid now blockchain_assertion_size d r0 =
    let amount = (d.token_amount + d.update_token_amount) * 1024 in
    elim (calculate_current_epoch now d.start_time d.epoch_length) [
      | none ↦ none
      | some epoch ↦ elim (epochs_left d.epochs_number epoch) [
        | pos left ↦
            let divisor = r0 * left * blockchain_assertion_size in
            if divisor == 0 then none else some (ℤ.pos (amount / divisor + 1))
        | negsuc left ↦
            let divisor = r0 * suc left * blockchain_assertion_size in
            if divisor == 0 then none else some (one_minus (amount / divisor))
      ]
    ]

-- The `errorMessage` of `validateBid`, or that an exception left it.
pub data BidVerdict : Type 0 where
  accepted too_low too_large no_agreement thrown : BidVerdict

abbrev pub compare_ask : ℕ → Option ℤ → BidVerdict
compare_ask ask none = BidVerdict.thrown
compare_ask ask (some (ℤ.negsuc n)) = BidVerdict.too_low
compare_ask ask (some (ℤ.pos bid)) = if leb ask bid then BidVerdict.accepted else BidVerdict.too_low

-- `validateBid`, with the agreement, the assertion's size, R0 and the node's own ask in wei. The
-- size in kilobytes is above the maximum when the size is above the maximum in bytes.
unfoldable pub validate_bid : ℕ → ℕ → Option AgreementData → ℕ → ℕ → ℕ → BidVerdict
validate_bid now maximum_assertion_size_in_kb agreement blockchain_assertion_size r0 ask =
    elim agreement [
      | none ↦ BidVerdict.no_agreement
      | some d ↦
          if ltb (maximum_assertion_size_in_kb * bytes_in_kilobyte) blockchain_assertion_size
          then BidVerdict.too_large
          else compare_ask ask (calculate_bid now blockchain_assertion_size d r0)
    ]
