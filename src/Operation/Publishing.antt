-- ===== src/Operation/Publishing.antt =====
-- ot-node-docker/src/commands/protocols/publish/sender/publish-schedule-messages-command.js: a
-- publish asks its first batch only if enough of the nodes found accept the bid; and
-- update-schedule-messages-command.js, which only names the start event of the base class.
use trex_dkg.Prelude.{
  ℕ, ◌+◌, Bool, true, false, Option, none, some, List, [], ◌∷◌, length, ltb, leb, ◌==◌,
  if◌then◌else◌,
}
use trex_dkg.Sharding.Agreements.{ℤ, AgreementData, calculate_bid}
use trex_dkg.Operation.Data.{IdStatus, ErrorType, CommandData, World}
use trex_dkg.Operation.Service.{mark_operation_as_failed}
use trex_dkg.Operation.Replication.{publish_service}
use trex_dkg.Operation.Schedule.{MessageCommand, schedule_messages}

-- What the check reads: the blockchain's time, the size of the assertion and R0, the agreement, and
-- the ask in wei of a node, which throws for a node that is not in the table.
pub record BidTerms : Type 0 where
  pub now : ℕ
  pub assertion_size : ℕ
  pub r0 : ℕ
  pub agreement : Option AgreementData
  pub ask : ℕ → Option ℕ

-- `ask.lte(serviceAgreementBid)`
abbrev pub satisfies : ℤ → ℕ → Bool
satisfies (ℤ.pos bid) ask = leb ask bid
satisfies (ℤ.negsuc n) ask = false

abbrev pub add_valid : ℤ → Option ℕ → Option ℕ → Option ℕ
add_valid bid (some ask) (some n) = some (if satisfies bid ask then n + 1 else n)
add_valid bid _ _ = none

-- `validBids`
unfoldable pub valid_bids : (ℕ → Option ℕ) → ℤ → List ℕ → Option ℕ
valid_bids ask bid [] = some 0
valid_bids ask bid (n ∷ ns) = add_valid bid (ask n) (valid_bids ask bid ns)

abbrev pub fail_start : CommandData → World → World
fail_start d w =
    mark_operation_as_failed publish_service d.operation_id d.blockchain
      "Unable to start publish, not enough nodes in neighbourhood satisfy the bid."
      ErrorType.publish_start_error w

abbrev pub fail_agreement : CommandData → World → World
fail_agreement d w =
    mark_operation_as_failed publish_service d.operation_id d.blockchain
      "Unable to fetch agreement data." ErrorType.publish_start_error w

-- `validateBidsForNeighbourhood`; `none` is an exception.
unfoldable pub validate_bids_for_neighbourhood :
    BidTerms → CommandData → World → Option (Bool × World)
validate_bids_for_neighbourhood t d w = elim t.agreement [
  | none ↦ some (false, fail_agreement d w)
  | some agreement ↦ elim (calculate_bid t.now t.assertion_size agreement t.r0) [
    | none ↦ none
    | some bid ↦ elim (valid_bids t.ask bid d.leftover_nodes) [
      | none ↦ none
      | some n ↦ some (if ltb n d.min_ack_responses then (false, fail_start d w) else (true, w))
    ]
  ]
]

-- `PublishScheduleMessagesCommand.execute`
unfoldable pub publish_schedule_messages :
    BidTerms → CommandData → World → Option (World × List MessageCommand)
publish_schedule_messages t d w =
    if length d.leftover_nodes == d.number_of_found_nodes
    then elim (validate_bids_for_neighbourhood t d w) [
      | none ↦ none
      | some (true, w') ↦ some (schedule_messages IdStatus.publish_replicate_start d w')
      | some (false, w') ↦ some (w', [])
    ]
    else some (schedule_messages IdStatus.publish_replicate_start d w)

-- `UpdateScheduleMessagesCommand`, which inherits `execute`.
unfoldable pub update_schedule_messages : CommandData → World → Option (World × List MessageCommand)
update_schedule_messages d w = some (schedule_messages IdStatus.update_replicate_start d w)
