-- ===== src/Operation/Exchange.antt =====
-- The messages to one node:
-- ot-node-docker/src/commands/protocols/common/protocol-message-command.js,
-- protocol-init-command.js, protocol-request-command.js and the request of a get, run by the
-- executor of ot-node-docker/src/commands/command-executor.js. The network's answers, the service's
-- processResponse and the state `W` that it changes are parameters; an answer of `none` is an
-- exception.
use trex_dkg.Prelude.{
  ℕ, zero, suc, ◌+◌, ◌-◌, Bool, true, false, ◌&&◌, Option, none, some, ltb, if◌then◌else◌,
}
use trex_dkg.Operation.Data.{RequestStatus, World, CommandData}
use trex_dkg.Operation.Service.{Service}
use trex_dkg.Operation.Replication.{process_response}
use trex_dkg.Operation.Run.{Reply}

-- NETWORK_MESSAGE_TYPES.RESPONSES, and any other type.
pub data MessageType : Type 0 where
  ack nack busy unknown : MessageType

pub record Response (D : Type 0) : Type 0 where
  pub message_type : MessageType
  pub contents : D  -- `data`

-- The command that begins, the request of a publish or an update, and that of a get.
pub data Kind : Type 0 where
  init request get_request : Kind

-- What `execute` returns: Command.empty(), Command.retry(), the next command of the sequence; or it
-- throws.
pub data Ended : Type 0 where
  empty retry continue throws : Ended

-- How a service takes part. `process_response` and `prepare` say whether they return.
pub record Sender (W D : Type 0) : Type 0 where
  pub process_response : RequestStatus → Option D → W → W × Bool
  pub prepare : Kind → W → Bool
  pub in_progress : W → Bool
  pub has_nquads : D → Bool
  pub is_valid : D → Bool
  pub next_kind : Kind

-- The state, how many messages were sent, and whether the session with the node is cached.
pub record Exchange (W : Type 0) : Type 0 where
  pub world : W
  pub sent : ℕ
  pub session : Bool

module _ {W D : Type 0} (sender : Sender W D) (network : ℕ → Option (Response D)) where
  abbrev pub ended : Exchange W → W × Bool → Exchange W × Ended
  ended x (w, true) = (record x { world = w }, Ended.empty)
  ended x (w, false) = (record x { world = w }, Ended.throws)

  abbrev pub mark_response_as_failed : W → W × Bool
  mark_response_as_failed w = sender.process_response RequestStatus.failed none w

  abbrev pub handle_nack : Exchange W → Exchange W × Ended
  handle_nack x = ended x (mark_response_as_failed x.world)

  abbrev pub complete_with : D → Exchange W → Exchange W × Ended
  complete_with d x = ended x (sender.process_response RequestStatus.completed (some d) x.world)

  abbrev pub handle_ack : Kind → D → Exchange W → Exchange W × Ended
  handle_ack Kind.init d x = (x, Ended.continue)
  handle_ack Kind.request d x = complete_with d x
  handle_ack Kind.get_request d x =
      if sender.has_nquads d && sender.is_valid d then complete_with d x else handle_nack x

  abbrev pub handle_response : Kind → MessageType → D → Exchange W → Exchange W × Ended
  handle_response kind MessageType.busy d x = (x, Ended.retry)
  handle_response kind MessageType.nack d x = handle_nack x
  handle_response kind MessageType.ack d x = handle_ack kind d x
  handle_response kind MessageType.unknown d x = handle_nack x

  -- `sendProtocolMessage`
  abbrev pub after_send : Kind → Option (Response D) → Exchange W → Exchange W × Ended
  after_send kind none x = (record x { session = true }, Ended.throws)
  after_send kind (some response) x =
      handle_response kind response.message_type response.contents (record x { session = false })

  abbrev pub should_send_message : Kind → W → Bool
  should_send_message Kind.init w = true
  should_send_message Kind.request w = true
  should_send_message Kind.get_request w = sender.in_progress w

  unfoldable pub execute_protocol_message : Kind → Exchange W → Exchange W × Ended
  execute_protocol_message kind x =
      if should_send_message kind x.world
      then (if sender.prepare kind x.world
          then after_send kind (network x.sent) (record x { sent = x.sent + 1 })
          else (x, Ended.throws))
      else (x, Ended.empty)

  -- An exception of `recover` itself is only logged.
  abbrev pub recover : Exchange W → Exchange W
  recover x = record x { world = (mark_response_as_failed x.world).0; session = false }

  -- How the executor goes on, with the number of retries that are left: `_handleError`,
  abbrev pub handle_error :
      Kind → ℕ → (Kind → ℕ → Exchange W → Option (Exchange W)) → Exchange W → Option (Exchange W)
  handle_error kind retries again x =
      if ltb 0 retries then again kind (retries - 1) x else some (recover x)

  -- the handler's `retryFinished`, which may throw,
  abbrev pub after_retry_finished :
      Kind
      → ℕ
      → (Kind → ℕ → Exchange W → Option (Exchange W))
      → Exchange W
      → W × Bool
      → Option (Exchange W)
  after_retry_finished kind retries again x (w, true) = some (record x { world = w })
  after_retry_finished kind retries again x (w, false) =
      handle_error kind retries again (record x { world = w })

  -- `_handleRetry`, and the next command, which has the retries of its defaults: none.
  abbrev pub go_on :
      Kind
      → ℕ
      → (Kind → ℕ → Exchange W → Option (Exchange W))
      → Exchange W × Ended
      → Option (Exchange W)
  go_on kind retries again (x, Ended.empty) = some x
  go_on kind retries again (x, Ended.continue) = again sender.next_kind 0 x
  go_on kind retries again (x, Ended.retry) =
      if ltb 1 retries
      then again kind (retries - 1) x
      else after_retry_finished kind retries again x (mark_response_as_failed x.world)
  go_on kind retries again (x, Ended.throws) = handle_error kind retries again x

  -- The fuel bounds the number of executions.
  unfoldable pub conduct : ℕ → Kind → ℕ → Exchange W → Option (Exchange W)
  conduct zero kind retries x = none
  conduct (suc fuel) kind retries x =
      go_on kind retries (conduct fuel) (execute_protocol_message kind x)

abbrev pub returns : World → Option World → World × Bool
returns w none = (w, false)
returns w (some w') = (w', true)

-- The sender of a publish or an update; the texts of errors are left out.
abbrev pub sender_of : {D : Type 0} → Service → CommandData → (Kind → World → Bool) → Sender World D
sender_of s d prepare = record {
  process_response = λ status contents w. returns w (process_response s d status none w);
  prepare = prepare;
  in_progress = λ w. true;
  has_nquads = λ d. true;
  is_valid = λ d. true;
  next_kind = Kind.request;
}

abbrev pub final_world : Option (Exchange World) → Option World
final_world none = none
final_world (some x) = some x.world

-- All the messages of a command that the schedule command adds: one for each of its retries, one
-- for the last try, and the request.
unfoldable pub exchange_reply :
    {D : Type 0} → Service → (Kind → World → Bool) → (ℕ → ℕ → Option (Response D)) → Reply
exchange_reply s prepare network m w = final_world (
    conduct (sender_of s m.command prepare) (network m.node) (m.retries + 2) Kind.init m.retries
      (record { world = w; sent = 0; session = false }))
