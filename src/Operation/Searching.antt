-- ===== src/Operation/Searching.antt =====
-- Where a get stands while its nodes answer, and what an answer does to the counts.
use trex_dkg.Prelude.{ℕ, ◌<◌, ◌≡◌, refl, some, List, [], arith}
use trex_dkg.Operation.Data.{
  RequestStatus, OperationStatus, Payload, StoreCall, Scheduled, CommandData, World,
}
use trex_dkg.Operation.Ids.{get_cached_operation_id_data}
use trex_dkg.Operation.Service.{Counts, bump, get_responses_statuses}
use trex_dkg.Operation.Get.{
  get_service, ResponseData, on_enough, on_exhausted, process_get_response,
}
use trex_dkg.Operation.Counting.{
  tally, tally-append_one, responses_of-create_response, OnlyKeyword, OnlyKeyword-append_one,
  lookup-count_responses,
}
use trex_dkg.Operation.Outcome.{rows, record_response}
use trex_dkg.Operation.Effects.{status_of}
use trex_dkg.Operation.Run.{At}

abbrev pub misses : ℕ → Counts
misses k = record { failed_number = k; completed_number = 0 }

-- `k` nodes have answered without the assertion.
pub record Searching (d : CommandData) (k : ℕ) (q : List Scheduled) (stored : List StoreCall)
    (w : World) : Type 0 where
  pub at : At get_service d (misses k) OperationStatus.in_progress q w
  pub kept : w.stored ≡ stored

-- The get is over, with a result.
pub record Over (d : CommandData) (p : Payload) (stored : List StoreCall) (w : World) : Type 0 where
  pub status : status_of get_service d w ≡ some OperationStatus.completed
  pub cached : get_cached_operation_id_data d.operation_id w ≡ some p
  pub queue : w.scheduled ≡ []
  pub kept : w.stored ≡ stored

-- A node has had the assertion.
pub record Found (d : CommandData) (p : Payload) (stored : List StoreCall) (w : World)
    : Type 0 where
  pub only : OnlyKeyword d.keyword (rows get_service d w)
  pub some_acks : 0 < (tally d.keyword (rows get_service d w)).completed_number
  pub over : Over d p stored w

-- The world in which an answer is recorded, and its counts.
abbrev pub noted : CommandData → RequestStatus → ResponseData → World → World
noted d status r w = record_response get_service d status r.error_message w

abbrev pub counts : CommandData → World → Counts
counts d w = tally d.keyword (rows get_service d w)

pub process_get_response_lem :
    (d : CommandData) (status : RequestStatus) (r : ResponseData) (w : World)
    → let c : Counts = bump status (counts d w) in
      process_get_response d status r w
      ≡ some (on_exhausted d c (on_enough d status r c (noted d status r w)))
unfolding process_get_response get_responses_statuses
process_get_response_lem d status r w = ground (
  arith,
  responses_of-create_response get_service.operation_name status r.error_message d.operation_id
      d.keyword w,
  lookup-count_responses d.keyword (rows get_service d w)
      (record {
        operation = get_service.operation_name;
        operation_id = d.operation_id;
        keyword = d.keyword;
        status = status;
        message = r.error_message;
      })
      refl,
)

-- The rows after an answer.
pub counts-noted :
    (d : CommandData) (status : RequestStatus) (r : ResponseData) (w : World)
    → OnlyKeyword d.keyword (rows get_service d w)
    → (counts d (noted d status r w) ≡ bump status (counts d w))
      × OnlyKeyword d.keyword (rows get_service d (noted d status r w))
counts-noted d status r w h =
    rw
      (responses_of-create_response get_service.operation_name status r.error_message d.operation_id
        d.keyword w)
      (
        tally-append_one d.keyword (rows get_service d w) _ refl,
        OnlyKeyword-append_one d.keyword (rows get_service d w) _ h refl,
      )
