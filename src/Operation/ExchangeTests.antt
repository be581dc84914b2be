-- ===== src/Operation/ExchangeTests.antt =====
-- The messages to one node: a state that keeps the responses that were processed.
use trex_dkg.Prelude.{
  ℕ, ◌≤◌, ◌≡◌, ◌≢◌, ◌⊎◌, refl, true, false, List, [], ◌∷◌, ◌++◌, Option, none, some, arith, ◌==◌,
  length, if◌then◌else◌,
}
use trex_dkg.Operation.Data.{
  OperationName, RequestStatus, OperationStatus, IdStatus, CommandData, World,
}
use trex_dkg.Operation.Replication.{publish_service, process_response}
use trex_dkg.Operation.Schedule.{MessageCommand}
use trex_dkg.Operation.Run.{replies, answer_step}
use trex_dkg.Operation.Counting.{tally}
use trex_dkg.Operation.Service.{responses_of}
use trex_dkg.Operation.Effects.{row_status}
use trex_dkg.Operation.Exchange.{
  MessageType, Response, Kind, Sender, Exchange, execute_protocol_message, conduct, exchange_reply,
}
use trex_dkg.Operation.Exchanging.{Ends}
use trex_dkg.Operation.Exchanged.{conduct-Ends, exchange_reply-replies}

abbrev answer : MessageType → Option (Response ℕ)
answer type = some (record { message_type = type; contents = 4 })

-- Busy, an exception, and two acknowledgements.
abbrev network : ℕ → Option (Response ℕ)
network n =
    if n == 0 then answer MessageType.busy else if n == 1 then none else answer MessageType.ack

abbrev getter : Sender (List RequestStatus) ℕ
getter = record {
  process_response = λ status contents w. (w ++ status ∷ [], true);
  prepare = λ kind w. true;
  in_progress = λ w. length w == 0;
  has_nquads = λ d. true;
  is_valid = λ d. d == 4;
  next_kind = Kind.get_request;
}

abbrev start : Exchange (List RequestStatus)
start = record { world = []; sent = 0; session = false }

found :
    conduct getter network 5 Kind.init 3 start
    ≡ some (record { world = RequestStatus.completed ∷ []; sent = 4; session = false })
unfolding conduct execute_protocol_message
found = refl

-- With two retries less, the exception is the last try.
failed_early :
    conduct getter network 3 Kind.init 1 start
    ≡ some (record { world = RequestStatus.failed ∷ []; sent = 1; session = false })
unfolding conduct execute_protocol_message
failed_early = refl

conduct-Ends_example : Ends getter network [] 5 (conduct getter network 5 Kind.init 3 start)
conduct-Ends_example =
    conduct-Ends getter network 5 Kind.init 3 start (λ a d. refl) tt (omega arith)

abbrev command : CommandData
command = record {
  operation_id = 7;
  blockchain = 1;
  keyword = 9;
  number_of_found_nodes = 1;
  leftover_nodes = [];
  batch_size = 2;
  min_ack_responses = 1;
  contract = 0;
  token_id = 0;
  assertion_id = 0;
  asset_sync = false;
  paranet_sync = false;
  paranet_token_id = 0;
  paranet_latest_asset = false;
}

abbrev message : MessageCommand
message = record { node = 11; command = command; delay = 0; period = 5000; retries = 3 }

abbrev world : World
world = record {
  now = 1000;
  responses = [];
  operations =
      record {
        operation = OperationName.publish;
        operation_id = 7;
        status = OperationStatus.in_progress;
      }
      ∷ [];
  operation_ids =
      (7, record { status = IdStatus.find_nodes_end; failure = none; timestamp = 0 }) ∷ [];
  events = [];
  memory_cache = [];
  files = [];
  scheduled = [];
  stored = [];
}

returns_here : (a : RequestStatus) → process_response publish_service command a none world ≢ none
unfolding tally responses_of row_status
returns_here a =
    let (w, e, at) =
      answer_step publish_service command a (record { completed_number = 0; failed_number = 0 })
        OperationStatus.in_progress world
        (record { only = tt; counts = refl; status = refl; queue = refl }) in
    cc e

exchange_reply-replies_example :
    (a : RequestStatus) × (exchange_reply publish_service
        (λ kind w. true)
        (λ node. network)
        message
        world
      ≡ replies publish_service (λ node. a) message world)
    × ((a ≡ RequestStatus.failed)
        ⊎ ((k : ℕ) × (d : ℕ) × (k ≤ 4)
            × (network k ≡ some (record { message_type = MessageType.ack; contents = d }))))
exchange_reply-replies_example =
    exchange_reply-replies publish_service (λ kind w. true) (λ node. network) message world
      returns_here
