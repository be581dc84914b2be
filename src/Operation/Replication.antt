-- ===== src/Operation/Replication.antt =====
-- ot-node-docker/src/service/publish-service.js and update-service.js: what a publish or an update
-- does when one node has answered. The two files differ only in what their constructors set.
use trex_dkg.Prelude.{
  ℕ, ◌+◌, ◌%◌, String, Bool, true, false, Option, none, some, List, [], ◌∷◌, Dict, lookup, ltb,
  ◌==◌, ◌&&◌, ◌||◌, not, if◌then◌else◌,
}
use trex_dkg.Operation.Data.{
  OperationName, RequestStatus, is_completed, IdStatus, ErrorType, CommandData, World,
}
use trex_dkg.Operation.Service.{
  Service, Counts, get_responses_statuses, mark_operation_as_completed, mark_operation_as_failed,
  schedule_operation_for_leftover_nodes,
}

-- The constructors.
abbrev pub publish_service : Service
publish_service = record {
  operation_name = OperationName.publish;
  error_type = ErrorType.publish_error;
  completed_statuses =
      IdStatus.publish_replicate_end ∷ IdStatus.publish_end ∷ IdStatus.completed ∷ [];
}

abbrev pub update_service : Service
update_service = record {
  operation_name = OperationName.update;
  error_type = ErrorType.update_error;
  completed_statuses =
      IdStatus.update_replicate_end ∷ IdStatus.update_end ∷ IdStatus.completed ∷ [];
}

-- `n % size === 0`, which is false of the `NaN` that JavaScript has for a size of 0.
abbrev pub fills_batches : ℕ → ℕ → Bool
fills_batches n size = not (size == 0) && n % size == 0

-- The loop over `keywordsStatuses` that looks for a keyword with too few answers.
pub all_completed : ℕ → Dict Counts → Bool
all_completed min_ack [] = true
all_completed min_ack ((k, c) ∷ statuses) =
    not (ltb c.completed_number min_ack) && all_completed min_ack statuses

abbrev pub is_empty : List ℕ → Bool
is_empty [] = true
is_empty (x ∷ xs) = false

-- The branches of `processResponse`, after the counts have been read.
unfoldable pub react : Service → CommandData → RequestStatus → Dict Counts → Counts → World → World
unfolding all_completed
react s d status statuses c w =
    let responses = c.completed_number + c.failed_number in
    if is_completed status && c.completed_number == d.min_ack_responses
    then if all_completed d.min_ack_responses statuses
      then mark_operation_as_completed s d.operation_id d.blockchain none s.completed_statuses w
      else w
    else if ltb c.completed_number d.min_ack_responses
        && (d.number_of_found_nodes == responses || fills_batches responses d.batch_size)
    then if is_empty d.leftover_nodes
      then mark_operation_as_failed s d.operation_id d.blockchain "Not replicated to enough nodes!"
          s.error_type w
      else schedule_operation_for_leftover_nodes s d d.leftover_nodes w
    else w

-- `processResponse`. `none` is the TypeError of taking `undefined` apart.
unfoldable pub process_response :
    Service → CommandData → RequestStatus → Option String → World → Option World
unfolding react
process_response s d status error_message w =
    let (statuses, w') = get_responses_statuses s status error_message d.operation_id d.keyword w in
    elim (lookup d.keyword statuses) [
      | none ↦ none
      | some c ↦ some (react s d status statuses c w')
    ]

-- `PublishService.processResponse`
abbrev pub process_publish_response :
    CommandData → RequestStatus → Option String → World → Option World
process_publish_response = process_response publish_service

-- `UpdateService.processResponse`
abbrev pub process_update_response :
    CommandData → RequestStatus → Option String → World → Option World
process_update_response = process_response update_service
