-- ===== src/Operation/Checked.antt =====
-- What the check of the bids of a publish gives.
use trex_dkg.Prelude.{
  ℕ, zero, suc, ◌<◌, ◌≤◌, ◌≡◌, refl, true, false, Option, none, some, String, [], arith,
  Option-cases, dec_lt, inl, inr,
}
use trex_dkg.Sharding.Agreements.{AgreementData, calculate_bid}
use trex_dkg.Operation.Data.{RequestStatus, OperationStatus, ErrorType, CommandData, World}
use trex_dkg.Operation.Ids.{update_operation_id_status}
use trex_dkg.Operation.Service.{Service, update_operation_status, mark_operation_as_failed}
use trex_dkg.Operation.Replication.{publish_service}
use trex_dkg.Operation.Effects.{status_of, row_status-set_status}
use trex_dkg.Operation.Run.{replies, Schedule, run, answer_all}
use trex_dkg.Operation.Publishing.{BidTerms, valid_bids, validate_bids_for_neighbourhood}

-- How many of the nodes accept the bid, if the code can tell; 0 without an agreement.
abbrev pub accepting : BidTerms → CommandData → Option ℕ
accepting t d = elim t.agreement [
  | none ↦ some 0
  | some agreement ↦ elim (calculate_bid t.now t.assertion_size agreement t.r0) [
    | none ↦ none
    | some bid ↦ valid_bids t.ask bid d.leftover_nodes
  ]
]

-- A failed operation, with whatever message.
pub failed_world :
    (s : Service) (d : CommandData) (m : String) (t : ErrorType) (w : World)
    → w.scheduled ≡ []
    → status_of s d w ≡ some OperationStatus.in_progress
    → let w' = mark_operation_as_failed s d.operation_id d.blockchain m t w in
      (w'.scheduled ≡ []) × (status_of s d w' ≡ some OperationStatus.failed)
unfolding mark_operation_as_failed update_operation_status update_operation_id_status
failed_world s d m t w q st = (
  q,
  ground (
    arith,
    row_status-set_status s.operation_name d.operation_id OperationStatus.failed w.operations,
  ),
)

pub run-stops :
    (fuel : ℕ) (schedule : Schedule) (d : CommandData) (answer : ℕ → RequestStatus) (w w' : World)
    → schedule d w ≡ some (w', [])
    → w'.scheduled ≡ []
    → 0 < fuel
    → run fuel (replies publish_service answer) schedule d w ≡ some w'
unfolding run answer_all
run-stops zero schedule d answer w w' e q pos = absurd (omega arith)
run-stops (suc fuel) schedule d answer w w' e q pos = ground arith

-- What the check gives, by the number of nodes that accept the bid.
pub data Checked (t : BidTerms) (d : CommandData) (w : World) : ℕ → Type 0 where
  goes_on :
      {n : ℕ}
      → d.min_ack_responses ≤ n
      → validate_bids_for_neighbourhood t d w ≡ some (true, w)
      → Checked t d w n
  fails :
      {n : ℕ} (m : String)
      → n < d.min_ack_responses
      → validate_bids_for_neighbourhood t d w
        ≡ some (
          false,
          mark_operation_as_failed publish_service d.operation_id d.blockchain m
              ErrorType.publish_start_error w,
        )
      → Checked t d w n

module _ (t : BidTerms) (d : CommandData) (w : World) where
  pub check_bid :
      (a : Option AgreementData) (n : ℕ)
      → t.agreement ≡ a
      → 0 < d.min_ack_responses
      → accepting t d ≡ some n
      → Checked t d w n
  unfolding validate_bids_for_neighbourhood
  check_bid none n e pos h =
      fails "Unable to fetch agreement data." (ground (arith, rw (e) at h)) (rw (e) refl)
  check_bid (some a) n e pos h = elim (Option-cases (calculate_bid t.now t.assertion_size a t.r0)) [
    | inl thrown ↦ absurd (ground (arith, rw (e, thrown, accepting) at h))
    | inr (bid, computed) ↦
        let counted : valid_bids t.ask bid d.leftover_nodes ≡ some n =
          rw (e, computed, accepting) at h in
        elim (dec_lt n d.min_ack_responses) [
          | yes few ↦
              fails "Unable to start publish, not enough nodes in neighbourhood satisfy the bid."
                few (rw (e, validate_bids_for_neighbourhood, computed, counted) (ground arith))
          | no enough ↦
              goes_on (omega arith)
                (rw (e, validate_bids_for_neighbourhood, computed, counted) (ground arith))
        ]
  ]
