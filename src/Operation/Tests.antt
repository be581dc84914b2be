-- ===== src/Operation/Tests.antt =====
-- Concrete operations: a publish to five nodes in batches of two that needs three acknowledgements.
use trex_dkg.Prelude.{
  ℕ, ◌≡◌, refl, List, ◌==◌, true, false, none, some, [], ◌∷◌, ltb, if◌then◌else◌, arith,
}
use trex_dkg.Operation.Data.{
  OperationName, RequestStatus, OperationStatus, IdStatus, CommandData, World,
}
use trex_dkg.Operation.Service.{responses_of}
use trex_dkg.Operation.Replication.{publish_service, update_service}
use trex_dkg.Operation.Counting.{tally}
use trex_dkg.Operation.Effects.{row_status, status_of, finished, finals}
use trex_dkg.Operation.Once.{Answers, process_responses, finished-process_responses}
use trex_dkg.Operation.Run.{replies, run}
use trex_dkg.Operation.Publishing.{
  BidTerms, valid_bids, publish_schedule_messages, update_schedule_messages,
}
use trex_dkg.Operation.Ids.{
  update_operation_id_status, get_cached_operation_id_data, cache_operation_id_data,
}
use trex_dkg.Operation.Data.{Payload}
use trex_dkg.Operation.Get.{ResponseData}
use trex_dkg.Operation.Fetching.{Answer}
use trex_dkg.Operation.Cleaning.{clean}
use trex_dkg.Operation.Readable.{
  Happening, passes, caches, reports, cleans, happen_all, happen, readable_for_a_day,
}
use trex_dkg.Operation.Checked.{accepting}
use trex_dkg.Operation.Ends.{update_ends, publish_ends}
use trex_dkg.Sharding.Agreements.{calculate_bid, calculate_current_epoch}

abbrev command : CommandData
command = record {
  operation_id = 7;
  blockchain = 1;
  keyword = 9;
  number_of_found_nodes = 5;
  leftover_nodes = 11 ∷ 12 ∷ 13 ∷ 14 ∷ 15 ∷ [];
  batch_size = 2;
  min_ack_responses = 3;
  contract = 0;
  token_id = 0;
  assertion_id = 0;
  asset_sync = false;
  paranet_sync = false;
  paranet_token_id = 0;
  paranet_latest_asset = false;
}

abbrev world : World
world = record {
  now = 1000;
  responses = [];
  operations =
      record {
        operation = OperationName.publish;
        operation_id = 7;
        status = OperationStatus.in_progress;
      }
      ∷ [];
  operation_ids =
      (7, record { status = IdStatus.find_nodes_end; failure = none; timestamp = 0 }) ∷ [];
  events = [];
  memory_cache = [];
  files = [];
  scheduled = [];
  stored = [];
}

abbrev update_world : World
update_world = record world {
  operations =
      record {
        operation = OperationName.update;
        operation_id = 7;
        status = OperationStatus.in_progress;
      }
      ∷ [];
}

-- The first two nodes refuse.
abbrev answer : ℕ → RequestStatus
answer n = if ltb n 13 then RequestStatus.failed else RequestStatus.completed

update_ends_example :
    (w' : World) × (run 5
        (replies update_service answer)
        update_schedule_messages
        command
        update_world
      ≡ some w')
    × (status_of update_service command w' ≡ some OperationStatus.completed)
unfolding tally responses_of row_status
update_ends_example =
    update_ends answer command update_world
      (record { only = tt; counts = refl; status = refl; queue = refl }) (omega arith) (omega arith)
      (omega arith) refl

-- An agreement whose bid four of the five nodes accept.
abbrev terms : BidTerms
terms = record {
  now = 150;
  assertion_size = 1024;
  r0 = 2;
  agreement = some (record {
    start_time = 100;
    epochs_number = 5;
    epoch_length = 100;
    token_amount = 1000;
    update_token_amount = 0;
  });
  ask = λ n. some (if ltb n 15 then 100 else 102);
}

accepting-terms : accepting terms command ≡ some 4
unfolding calculate_bid valid_bids calculate_current_epoch
accepting-terms = refl

publish_ends_example :
    (w' : World) × (run 5
        (replies publish_service answer)
        (publish_schedule_messages terms)
        command
        world
      ≡ some w')
    × (status_of publish_service command w' ≡ some OperationStatus.completed)
unfolding tally responses_of row_status
publish_ends_example =
    publish_ends terms command world 4 answer accepting-terms
      (record { only = tt; counts = refl; status = refl; queue = refl }) (omega arith) (omega arith)
      (omega arith) refl

-- Four nodes acknowledge, one refuses.
abbrev answers : Answers
answers =
    ([], RequestStatus.completed)
    ∷ ([], RequestStatus.failed)
    ∷ ([], RequestStatus.completed)
    ∷ ([], RequestStatus.completed)
    ∷ ([], RequestStatus.completed)
    ∷ []

finished-process_responses_example :
    (w' : World) × (process_responses publish_service command answers world ≡ some w')
    × (finished 7 w'.events ≡ 1)
unfolding tally responses_of finished finals
finished-process_responses_example =
    finished-process_responses publish_service command refl answers world tt

-- The second node of a get has the assertion.
abbrev fetched : ResponseData
fetched = record { nquads = "<a> <b> <c> ." ∷ []; error_message = none }

abbrev missing : ResponseData
missing = record { nquads = []; error_message = some "Unable to find assertion" }

abbrev get_answer : ℕ → Answer
get_answer n =
    if n == 13 then (RequestStatus.completed, fetched) else (RequestStatus.failed, missing)

abbrev get_command : CommandData
get_command = record command { min_ack_responses = 1; asset_sync = true }

abbrev get_world : World
get_world = record world {
  operations =
      record {
        operation = OperationName.get;
        operation_id = 7;
        status = OperationStatus.in_progress;
      }
      ∷ [];
}

-- Two other operations and the cleaner, within a day.
abbrev happenings : List Happening
happenings =
    passes 3600000
    ∷ caches 8 (Payload.message "other")
    ∷ reports 9 1 IdStatus.failed (some "error") none
    ∷ cleans
    ∷ passes 7200000
    ∷ []

readable_for_a_day_example :
    get_cached_operation_id_data 7 (
      clean
        (λ p. 1)
        (happen_all
          (λ p. 1)
          happenings
          (cache_operation_id_data 7 (Payload.assertion fetched.nquads) world)))
    ≡ some (Payload.assertion fetched.nquads)
unfolding happen_all happen clean update_operation_id_status cache_operation_id_data
readable_for_a_day_example =
    readable_for_a_day (λ p. 1) 7 (Payload.assertion fetched.nquads) happenings world refl refl
      (tt, ((λ e. absurd (omega arith)), ((λ e. absurd (omega arith)), (tt, (tt, tt)))))
