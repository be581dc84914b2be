-- ===== src/Operation/Service.antt =====
-- ot-node-docker/src/service/operation-service.js: the base class of the three services.
use trex_dkg.Prelude.{
  ℕ, ◌+◌, String, Option, none, some, List, [], ◌∷◌, ◌++◌, map, Dict, lookup, insert, ◌==◌, ◌&&◌,
  if◌then◌else◌,
}
use trex_dkg.Operation.Data.{
  OperationName, same_operation, RequestStatus, OperationStatus, IdStatus, ErrorType, Response,
  OperationRow, Payload, CommandData, World,
}
use trex_dkg.Operation.Ids.{update_operation_id_status, cache_operation_id_data}

-- What a subclass's constructor sets.
pub record Service : Type 0 where
  pub operation_name : OperationName
  pub error_type : ErrorType
  pub completed_statuses : List IdStatus

-- `{ failedNumber, completedNumber }`
pub record Counts : Type 0 where
  pub failed_number : ℕ
  pub completed_number : ℕ

abbrev pub no_counts : Counts
no_counts = record { failed_number = 0; completed_number = 0 }

abbrev pub counts_or_zero : Option Counts → Counts
counts_or_zero none = no_counts
counts_or_zero (some c) = c

abbrev pub bump : RequestStatus → Counts → Counts
bump RequestStatus.failed c = record c { failed_number = c.failed_number + 1 }
bump RequestStatus.completed c = record c { completed_number = c.completed_number + 1 }

-- One round of the `forEach` in `getResponsesStatuses`.
abbrev pub count_response : Dict Counts → Response → Dict Counts
count_response statuses r =
    insert r.keyword (bump r.status (counts_or_zero (lookup r.keyword statuses))) statuses

unfoldable pub count_responses : Dict Counts → List Response → Dict Counts
count_responses statuses [] = statuses
count_responses statuses (r ∷ rs) = count_responses (count_response statuses r) rs

-- `getOperationResponsesStatuses`: the rows of one operation, oldest first.
unfoldable pub responses_of : OperationName → ℕ → List Response → List Response
responses_of operation operation_id [] = []
responses_of operation operation_id (r ∷ rs) =
    let rest = responses_of operation operation_id rs in
    if same_operation r.operation operation && r.operation_id == operation_id
    then r ∷ rest
    else rest

-- The call of `createOperationResponseRecord`.
unfoldable pub create_response :
    OperationName → RequestStatus → Option String → ℕ → ℕ → World → World
create_response operation status error_message operation_id keyword w = record w {
  responses =
      w.responses
      ++ record {
        operation = operation;
        operation_id = operation_id;
        keyword = keyword;
        status = status;
        message = error_message;
      }
        ∷ [];
}

-- `getResponsesStatuses`. The mutex makes the write and the read one step.
unfoldable pub get_responses_statuses :
    Service → RequestStatus → Option String → ℕ → ℕ → World → Dict Counts × World
unfolding create_response count_responses responses_of
get_responses_statuses s status error_message operation_id keyword w =
    let w' = create_response s.operation_name status error_message operation_id keyword w in
    (count_responses [] (responses_of s.operation_name operation_id w'.responses), w')

abbrev pub set_status : OperationName → ℕ → OperationStatus → OperationRow → OperationRow
set_status operation operation_id status row =
    if same_operation row.operation operation && row.operation_id == operation_id
    then record row { status = status }
    else row

-- `updateOperationStatus`
unfoldable pub update_operation_status : OperationName → ℕ → OperationStatus → World → World
update_operation_status operation operation_id status w = record w {
  operations = map (set_status operation operation_id status) w.operations;
}

unfoldable pub update_id_statuses : ℕ → ℕ → List IdStatus → World → World
unfolding update_operation_id_status
update_id_statuses operation_id blockchain [] w = w
update_id_statuses operation_id blockchain (status ∷ rest) w =
    update_id_statuses operation_id blockchain rest
      (update_operation_id_status operation_id blockchain status none none w)

abbrev cache_if_any : ℕ → Option Payload → World → World
cache_if_any operation_id none w = w
cache_if_any operation_id (some contents) w = cache_operation_id_data operation_id contents w

-- `markOperationAsCompleted`
unfoldable pub mark_operation_as_completed :
    Service → ℕ → ℕ → Option Payload → List IdStatus → World → World
unfolding update_operation_status update_id_statuses
mark_operation_as_completed s operation_id blockchain response_data end_statuses w =
    update_id_statuses operation_id blockchain end_statuses (
      cache_if_any operation_id response_data
        (update_operation_status s.operation_name operation_id OperationStatus.completed w))

-- `markOperationAsFailed`
unfoldable pub mark_operation_as_failed : Service → ℕ → ℕ → String → ErrorType → World → World
unfolding update_operation_status
mark_operation_as_failed s operation_id blockchain message error_type w =
    update_operation_id_status operation_id blockchain IdStatus.failed (some message)
      (some error_type)
      (update_operation_status s.operation_name operation_id OperationStatus.failed w)

-- `scheduleOperationForLeftoverNodes`
unfoldable pub schedule_operation_for_leftover_nodes :
    Service → CommandData → List ℕ → World → World
schedule_operation_for_leftover_nodes s d leftover_nodes w = record w {
  scheduled =
      w.scheduled
      ++ record {
        operation = s.operation_name;
        command = record d { leftover_nodes = leftover_nodes };
      }
        ∷ [];
}
