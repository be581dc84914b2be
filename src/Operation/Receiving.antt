-- ===== src/Operation/Receiving.antt =====
-- The node that receives the init message of a publish:
-- ot-node-docker/src/commands/protocols/common/handle-protocol-message-command.js with
-- publish/receiver/v1.0.0/v1-0-0-handle-store-init-command.js, run by the executor with the retries
-- that ot-node-docker/src/controllers/rpc/publish-rpc-controller.js sets.
use trex_dkg.Prelude.{
  ℕ, zero, suc, ◌-◌, Bool, true, false, Option, none, some, List, [], ◌∷◌, ◌++◌, ltb, ◌==◌,
  if◌then◌else◌,
}
use trex_dkg.Operation.Exchange.{MessageType}
use trex_dkg.Sharding.Data.{Peer}
use trex_dkg.Sharding.Neighbourhood.{validate_neighborhood}
use trex_dkg.Sharding.Agreements.{AgreementData, BidVerdict, validate_bid}

-- What a try finds in the sharding table and on the blockchain; no assertion id is an exception.
pub record Facts : Type 0 where
  pub now : ℕ
  pub table : List Peer
  pub r2 : ℕ
  pub latest_assertion_id : Option ℕ
  pub agreement : Option AgreementData
  pub assertion_size : ℕ
  pub r0 : ℕ
  pub ask : ℕ

-- The message, and the node that receives it.
pub record Init : Type 0 where
  pub me : ℕ
  pub blockchain : ℕ
  pub assertion_id : ℕ
  pub distance_of : ℕ → ℕ
  pub maximum_assertion_size_in_kb : ℕ

-- OPERATION_ID_STATUS: those that the command sets.
pub data RemoteStatus : Type 0 where
  validate_asset_remote_start validate_asset_remote_end failed : RemoteStatus

-- The responses that were sent, the statuses of the operation, whether its data are cached, with
-- the agreement, and whether the session is cached.
pub record Receiver : Type 0 where
  pub responses : List MessageType
  pub statuses : List RemoteStatus
  pub cached : Option AgreementData
  pub session : Bool

pub data Validation : Type 0 where
  ack : AgreementData → Validation
  nack thrown : Validation

abbrev pub after_bid : Option AgreementData → BidVerdict → Validation
after_bid (some d) BidVerdict.accepted = Validation.ack d
after_bid none BidVerdict.accepted = Validation.nack
after_bid d BidVerdict.thrown = Validation.thrown
after_bid d BidVerdict.too_low = Validation.nack
after_bid d BidVerdict.too_large = Validation.nack
after_bid d BidVerdict.no_agreement = Validation.nack

abbrev pub is_assertion : ℕ → Option ℕ → Bool
is_assertion id none = false
is_assertion id (some latest) = latest == id

abbrev pub bid_of : Init → Facts → BidVerdict
bid_of m f =
    validate_bid f.now m.maximum_assertion_size_in_kb f.agreement f.assertion_size f.r0 f.ask

-- `validateReceivedData`, without the caching.
unfoldable pub validate_received_data : Init → Facts → Validation
validate_received_data m f =
    if validate_neighborhood m.distance_of m.me m.blockchain f.r2 f.table
    then (if is_assertion m.assertion_id f.latest_assertion_id
        then after_bid f.agreement (bid_of m f)
        else Validation.thrown)
    else Validation.nack

abbrev pub set_status : RemoteStatus → Receiver → Receiver
set_status status x = record x { statuses = x.statuses ++ status ∷ [] }

-- `sendMessageResponse`, which is taken to return.
abbrev pub respond : MessageType → Receiver → Receiver
respond type x = record x { responses = x.responses ++ type ∷ [] }

abbrev pub remove_cached_session : Receiver → Receiver
remove_cached_session x = record x { session = false }

unfoldable pub handle_error : Receiver → Receiver
handle_error x = remove_cached_session (respond MessageType.nack (set_status RemoteStatus.failed x))

-- `execute` ends with Command.empty(), or with Command.retry().
abbrev pub after_validation : ℕ → Validation → Receiver → Receiver × Bool
after_validation retries (Validation.ack d) x = (
  remove_cached_session (
      respond MessageType.ack
        (set_status RemoteStatus.validate_asset_remote_end (record x { cached = some d }))),
  false,
)
after_validation retries Validation.nack x = (
  remove_cached_session
      (respond MessageType.nack (set_status RemoteStatus.validate_asset_remote_end x)),
  false,
)
after_validation zero Validation.thrown x = (remove_cached_session (handle_error x), false)
after_validation (suc retries) Validation.thrown x = (x, true)

unfoldable pub execute : Init → ℕ → Facts → Receiver → Receiver × Bool
execute m retries f x =
    after_validation retries (validate_received_data m f)
      (set_status RemoteStatus.validate_asset_remote_start x)

-- The executor's `_handleRetry`: another try while there is more than one retry, and then
-- `retryFinished`, which handles the error.
abbrev pub go_on : ℕ → (ℕ → Receiver → Option Receiver) → Receiver × Bool → Option Receiver
go_on retries again (x, false) = some x
go_on retries again (x, true) =
    if ltb 1 retries then again (retries - 1) x else some (handle_error x)

-- The tries, each with the facts of its time. The fuel bounds their number.
unfoldable pub receive : ℕ → Init → (ℕ → Facts) → ℕ → Receiver → Option Receiver
receive zero m facts retries x = none
receive (suc fuel) m facts retries x =
    go_on retries (receive fuel m facts) (execute m retries (facts retries) x)
