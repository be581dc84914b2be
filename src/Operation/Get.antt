-- ===== src/Operation/Get.antt =====
-- ot-node-docker/src/service/get-service.js: what a get does when one node has answered.
use trex_dkg.Prelude.{
  ℕ, ◌%◌, String, Bool, Option, none, some, List, [], ◌∷◌, ◌++◌, lookup, ltb, ◌==◌, ◌&&◌, ◌||◌, not,
  if◌then◌else◌,
}
use trex_dkg.Operation.Data.{
  OperationName, RequestStatus, is_completed, IdStatus, ErrorType, Payload, Repository, CommandData,
  World,
}
use trex_dkg.Operation.Service.{
  Service, Counts, get_responses_statuses, mark_operation_as_completed,
  schedule_operation_for_leftover_nodes,
}
use trex_dkg.Operation.Replication.{is_empty}

-- The constructor.
abbrev pub get_service : Service
get_service = record {
  operation_name = OperationName.get;
  error_type = ErrorType.get_error;
  completed_statuses =
      IdStatus.get_fetch_from_nodes_end ∷ IdStatus.get_end ∷ IdStatus.completed ∷ [];
}

-- `responseData`: the quads of an answer, or an error message.
pub record ResponseData : Type 0 where
  pub nquads : List String
  pub error_message : Option String

-- The call of `tripleStoreService.localStoreAsset`.
unfoldable pub local_store_asset : Repository → CommandData → List String → World → World
local_store_asset repository d nquads w = record w {
  stored =
      w.stored
      ++ record {
        repository = repository;
        assertion_id = d.assertion_id;
        nquads = nquads;
        blockchain = d.blockchain;
        contract = d.contract;
        token_id = d.token_id;
        keyword = d.keyword;
      }
        ∷ [];
}

-- Where the fetched quads are stored: an old state of a paranet's asset in the history, a synced
-- asset in the current repository and, for a paranet, in the paranet's own.
unfoldable pub store_fetched : CommandData → List String → World → World
unfolding local_store_asset
store_fetched d nquads w =
    if d.paranet_sync && not d.paranet_latest_asset
    then local_store_asset Repository.public_history d nquads w
    else if d.asset_sync
    then (let w' = local_store_asset Repository.public_current d nquads w in
        if d.paranet_sync
        then local_store_asset (Repository.paranet d.blockchain d.contract d.paranet_token_id) d
            nquads w'
        else w')
    else w

-- `failed % size === 0`: 0 is a multiple of every size but 0, for which JavaScript has `NaN`.
abbrev pub is_multiple : ℕ → ℕ → Bool
is_multiple n size = not (size == 0) && n % size == 0

-- The first `if` of `processResponse`.
unfoldable pub on_enough : CommandData → RequestStatus → ResponseData → Counts → World → World
unfolding store_fetched
on_enough d status response c w =
    if is_completed status && c.completed_number == d.min_ack_responses
    then store_fetched d response.nquads (
        mark_operation_as_completed get_service d.operation_id d.blockchain
          (some (Payload.assertion response.nquads)) get_service.completed_statuses w)
    else w

-- The second `if`: it counts failures only.
unfoldable pub on_exhausted : CommandData → Counts → World → World
on_exhausted d c w =
    if ltb c.completed_number d.min_ack_responses
      && (d.number_of_found_nodes == c.failed_number || is_multiple c.failed_number d.batch_size)
    then if is_empty d.leftover_nodes
      then mark_operation_as_completed get_service d.operation_id d.blockchain
          (some (Payload.message "Unable to find assertion on the network!"))
          get_service.completed_statuses w
      else schedule_operation_for_leftover_nodes get_service d d.leftover_nodes w
    else w

-- `processResponse`. `none` is the TypeError of taking `undefined` apart.
unfoldable pub process_get_response :
    CommandData → RequestStatus → ResponseData → World → Option World
unfolding on_enough on_exhausted
process_get_response d status response w =
    let (statuses, w') =
      get_responses_statuses get_service status response.error_message d.operation_id d.keyword w in
    elim (lookup d.keyword statuses) [
      | none ↦ none
      | some c ↦ some (on_exhausted d c (on_enough d status response c w'))
    ]
