-- ===== src/Operation/Data.antt =====
-- The records that the operation services share: rows of the database, events, cached results,
-- and the data that a command of an operation carries
-- (ot-node-docker/src/constants/constants.js and the Sequelize models).
use trex_dkg.Prelude.{ℕ, String, Bool, true, false, Option, List, Dict}

-- OPERATIONS
pub data OperationName : Type 0 where
  publish update get : OperationName

abbrev pub same_operation : OperationName → OperationName → Bool
same_operation publish publish = true
same_operation update update = true
same_operation get get = true
same_operation _ _ = false

-- OPERATION_REQUEST_STATUS: how one node answered.
pub data RequestStatus : Type 0 where
  failed completed : RequestStatus

abbrev pub is_completed : RequestStatus → Bool
is_completed RequestStatus.completed = true
is_completed RequestStatus.failed = false

-- OPERATION_STATUS: a row of the operation's own table.
pub data OperationStatus : Type 0 where
  in_progress failed completed : OperationStatus

-- OPERATION_ID_STATUS: those that the modelled services set.
pub data IdStatus : Type 0 where
  pending failed completed : IdStatus
  find_nodes_start find_nodes_end : IdStatus
  publish_replicate_start publish_replicate_end publish_end : IdStatus
  update_replicate_start update_replicate_end update_end : IdStatus
  get_fetch_from_nodes_start get_fetch_from_nodes_end get_end : IdStatus

-- ERROR_TYPE: those that the modelled services set.
pub data ErrorType : Type 0 where
  publish_error publish_start_error update_error get_error : ErrorType

-- A row of `<operation>_response`.
pub record Response : Type 0 where
  pub operation : OperationName
  pub operation_id : ℕ
  pub keyword : ℕ
  pub status : RequestStatus
  pub message : Option String

-- A row of `publish`, `update` or `get`.
pub record OperationRow : Type 0 where
  pub operation : OperationName
  pub operation_id : ℕ
  pub status : OperationStatus

-- What `JSON.stringify({ errorMessage, errorType })` holds.
pub record Failure : Type 0 where
  pub error_message : String
  pub error_type : Option ErrorType

-- A row of `operation_ids`, without its key.
pub record IdRow : Type 0 where
  pub status : IdStatus
  pub failure : Option Failure
  pub timestamp : ℕ

-- The event `operation_status_changed`.
pub record Event : Type 0 where
  pub last_event : IdStatus
  pub operation_id : ℕ
  pub blockchain : Option ℕ
  pub value1 : Option String
  pub value2 : Option ErrorType

-- The objects that are cached as the result of an operation.
pub data Payload : Type 0 where
  assertion : List String → Payload
  message : String → Payload

-- An entry of the memory cache, and a file of the file cache with its time of change.
pub record CacheEntry : Type 0 where
  pub contents : Payload
  pub timestamp : ℕ

-- The repositories of the triple store; that of a paranet is named after the paranet's token.
pub data Repository : Type 0 where
  public_current public_history : Repository
  paranet : ℕ → ℕ → ℕ → Repository

-- The arguments of `tripleStoreService.localStoreAsset`.
pub record StoreCall : Type 0 where
  pub repository : Repository
  pub assertion_id : ℕ
  pub nquads : List String
  pub blockchain : ℕ
  pub contract : ℕ
  pub token_id : ℕ
  pub keyword : ℕ

-- `command.data` of the commands of an operation.
pub record CommandData : Type 0 where
  pub operation_id : ℕ
  pub blockchain : ℕ
  pub keyword : ℕ
  pub number_of_found_nodes : ℕ
  pub leftover_nodes : List ℕ
  pub batch_size : ℕ
  pub min_ack_responses : ℕ
  pub contract : ℕ
  pub token_id : ℕ
  pub assertion_id : ℕ
  pub asset_sync : Bool
  pub paranet_sync : Bool
  pub paranet_token_id : ℕ
  pub paranet_latest_asset : Bool

-- A command handed to the executor: `<operation>ScheduleMessagesCommand`, without delay.
pub record Scheduled : Type 0 where
  pub operation : OperationName
  pub command : CommandData

-- All that the services read and write. `now` is the clock.
pub record World : Type 0 where
  pub now : ℕ
  pub responses : List Response
  pub operations : List OperationRow
  pub operation_ids : Dict IdRow
  pub events : List Event
  pub memory_cache : Dict CacheEntry
  pub files : Dict CacheEntry
  pub scheduled : List Scheduled
  pub stored : List StoreCall
