-- ===== src/Operation/Outcome.antt =====
-- `processResponse` of a publish or an update of one keyword as a choice between four outcomes.
use trex_dkg.Prelude.{
  ℕ, ◌+◌, ◌≡◌, refl, String, Option, none, some, List, [], ◌∷◌, ltb, ◌==◌, ◌&&◌, ◌||◌,
  if◌then◌else◌, arith,
}
use trex_dkg.Operation.Data.{RequestStatus, is_completed, Response, CommandData, World}
use trex_dkg.Operation.Service.{
  Service, Counts, bump, responses_of, create_response, get_responses_statuses,
  mark_operation_as_completed, mark_operation_as_failed, schedule_operation_for_leftover_nodes,
}
use trex_dkg.Operation.Replication.{fills_batches, is_empty, react, process_response}
use trex_dkg.Operation.Counting.{
  tally, responses_of-create_response, OnlyKeyword, count_responses-OnlyKeyword,
}

pub data Outcome : Type 0 where
  completes fails next waits : Outcome

unfoldable pub outcome : CommandData → RequestStatus → Counts → Outcome
outcome d status c =
    if is_completed status && c.completed_number == d.min_ack_responses
    then completes
    else if ltb c.completed_number d.min_ack_responses
        && (d.number_of_found_nodes == c.completed_number + c.failed_number
            || fills_batches (c.completed_number + c.failed_number) d.batch_size)
    then (if is_empty d.leftover_nodes then fails else next)
    else waits

unfoldable pub apply : Service → CommandData → Outcome → World → World
apply s d completes w =
    mark_operation_as_completed s d.operation_id d.blockchain none s.completed_statuses w
apply s d fails w =
    mark_operation_as_failed s d.operation_id d.blockchain "Not replicated to enough nodes!"
      s.error_type w
apply s d next w = schedule_operation_for_leftover_nodes s d d.leftover_nodes w
apply s d waits w = w

react-apply :
    (s : Service) (d : CommandData) (status : RequestStatus) (c : Counts) (k : ℕ) (w : World)
    → react s d status ((k, c) ∷ []) c w ≡ apply s d (outcome d status c) w
unfolding react outcome apply
react-apply s d status c k w = ground arith

-- The rows of the operation that a command belongs to.
abbrev pub rows : Service → CommandData → World → List Response
rows s d w = responses_of s.operation_name d.operation_id w.responses

abbrev pub record_response : Service → CommandData → RequestStatus → Option String → World → World
record_response s d status e w =
    create_response s.operation_name status e d.operation_id d.keyword w

abbrev pub counts_after : Service → CommandData → RequestStatus → World → Counts
counts_after s d status w = bump status (tally d.keyword (rows s d w))

pub process_response-apply :
    (s : Service) (d : CommandData) (status : RequestStatus) (e : Option String) (w : World)
    → OnlyKeyword d.keyword (rows s d w)
    → process_response s d status e w
      ≡ some (
          apply s d (outcome d status (counts_after s d status w)) (record_response s d status e w))
unfolding process_response get_responses_statuses
process_response-apply s d status e w h =
    let r : Response = record {
      operation = s.operation_name;
      operation_id = d.operation_id;
      keyword = d.keyword;
      status = status;
      message = e;
    } in
    ground (
      arith,
      responses_of-create_response s.operation_name status e d.operation_id d.keyword w,
      count_responses-OnlyKeyword d.keyword (rows s d w) r h refl,
      react-apply s d status (counts_after s d status w) d.keyword (record_response s d status e w),
    )
