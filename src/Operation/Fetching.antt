-- ===== src/Operation/Fetching.antt =====
-- A get whose nodes answer one after the other: the answers as the rounds of an operation take them,
-- and the schedule command of a get
-- (ot-node-docker/src/commands/protocols/get/sender/get-schedule-messages-command.js).
use trex_dkg.Prelude.{
  ℕ, ◌≡◌, refl, String, not, ◌&&◌, Option, none, some, List, [], ◌∷◌, ◌++◌, append-nil,
  append_assoc, lookup-insert, if◌then◌else◌, arith,
}
use trex_dkg.Operation.Data.{
  OperationName, RequestStatus, is_completed, OperationStatus, IdStatus, Payload, Repository,
  StoreCall, CommandData, World,
}
use trex_dkg.Operation.Ids.{
  update_operation_id_status, cache_operation_id_data, get_cached_operation_id_data,
}
use trex_dkg.Operation.Service.{
  update_operation_status, update_id_statuses, mark_operation_as_completed,
}
use trex_dkg.Operation.Get.{
  get_service, ResponseData, local_store_asset, store_fetched, process_get_response,
}
use trex_dkg.Operation.Schedule.{MessageCommand, schedule_messages}
use trex_dkg.Operation.Effects.{status_of, row_status-set_status}
use trex_dkg.Operation.Run.{Reply}

-- How a node answers a get.
abbrev pub Answer : Type 0
Answer = RequestStatus × ResponseData

abbrev pub fetches : (ℕ → Answer) → Reply
fetches answer m w = process_get_response m.command (answer m.node).0 (answer m.node).1 w

-- `GetScheduleMessagesCommand`, which inherits `execute`.
unfoldable pub get_schedule_messages : CommandData → World → Option (World × List MessageCommand)
get_schedule_messages d w = some (schedule_messages IdStatus.get_fetch_from_nodes_start d w)

-- The quads of the first node that has the assertion.
abbrev pub first_found : (ℕ → Answer) → List ℕ → Option (List String)
first_found answer [] = none
first_found answer (n ∷ ns) =
    let rest = first_found answer ns in
    if is_completed (answer n).0 then some (answer n).1.nquads else rest

pub first_found-append :
    (answer : ℕ → Answer) (xs ys : List ℕ)
    → first_found answer (xs ++ ys)
      ≡ elim (first_found answer xs) [ none ↦ first_found answer ys | some x ↦ some x ]
first_found-append answer [] ys = refl
first_found-append answer (x ∷ xs) ys = ground (arith, first_found-append answer xs ys)

-- What the client of a get reads in the end.
abbrev pub result_of : Option (List String) → Payload
result_of none = Payload.message "Unable to find assertion on the network!"
result_of (some nquads) = Payload.assertion nquads

abbrev store_call : Repository → CommandData → List String → StoreCall
store_call repository d nquads = record {
  repository = repository;
  assertion_id = d.assertion_id;
  nquads = nquads;
  blockchain = d.blockchain;
  contract = d.contract;
  token_id = d.token_id;
  keyword = d.keyword;
}

-- Where the quads go: those of an old state of a paranet's asset to the history, those of a synced
-- asset to the current repository, and to the paranet's if it is a paranet's.
abbrev pub stores_of : CommandData → Option (List String) → List StoreCall
stores_of d none = []
stores_of d (some nquads) =
    if d.paranet_sync && not d.paranet_latest_asset
    then store_call Repository.public_history d nquads ∷ []
    else if d.asset_sync && d.paranet_sync
    then store_call Repository.public_current d nquads
      ∷ store_call (Repository.paranet d.blockchain d.contract d.paranet_token_id) d nquads
      ∷ []
    else if d.asset_sync
    then store_call Repository.public_current d nquads ∷ []
    else []

pub stored-store_fetched :
    (d : CommandData) (nquads : List String) (w : World)
    → (store_fetched d nquads w).stored ≡ w.stored ++ stores_of d (some nquads)
unfolding store_fetched local_store_asset
stored-store_fetched d nquads w = grind (arith, append-nil w.stored, append_assoc w.stored)

-- What storing leaves alone.
pub store_fetched_frame :
    (d : CommandData) (nquads : List String) (w : World)
    → let w' = store_fetched d nquads w in
      (w'.responses ≡ w.responses) × (w'.scheduled ≡ w.scheduled) × (w'.operations ≡ w.operations)
unfolding store_fetched local_store_asset
store_fetched_frame d nquads w = (ground arith, ground arith, ground arith)

pub cached-store_fetched :
    (d : CommandData) (nquads : List String) (id : ℕ) (w : World)
    → get_cached_operation_id_data id (store_fetched d nquads w) ≡ get_cached_operation_id_data id w
unfolding store_fetched local_store_asset get_cached_operation_id_data
cached-store_fetched d nquads id w = ground arith

-- A get that ends with a result.
abbrev pub concluded : CommandData → Payload → World → World
concluded d p w =
    mark_operation_as_completed get_service d.operation_id d.blockchain (some p)
      get_service.completed_statuses w

pub concluded_frame :
    (d : CommandData) (p : Payload) (w : World)
    → let w' = concluded d p w in
      (w'.responses ≡ w.responses) × (w'.scheduled ≡ w.scheduled) × (w'.stored ≡ w.stored)
unfolding mark_operation_as_completed update_operation_status update_id_statuses
    update_operation_id_status cache_operation_id_data
concluded_frame d p w = (refl, refl, refl)

pub status_of-concluded :
    (d : CommandData) (p : Payload) (w : World) {st : OperationStatus}
    → status_of get_service d w ≡ some st
    → status_of get_service d (concluded d p w) ≡ some OperationStatus.completed
unfolding mark_operation_as_completed update_operation_status update_id_statuses
    update_operation_id_status cache_operation_id_data
status_of-concluded d p w h = ground (
  arith,
  row_status-set_status OperationName.get d.operation_id OperationStatus.completed w.operations,
)

-- The result is found by its operation id.
pub cached-concluded :
    (d : CommandData) (p : Payload) (w : World)
    → get_cached_operation_id_data d.operation_id (concluded d p w) ≡ some p
unfolding mark_operation_as_completed update_operation_status update_id_statuses
    update_operation_id_status cache_operation_id_data get_cached_operation_id_data
cached-concluded d p w = ground (
  arith,
  lookup-insert d.operation_id d.operation_id (record { contents = p; timestamp = w.now })
      w.memory_cache,
)
