-- ===== src/Operation/Exchanged.antt =====
-- ot-node-docker/src/commands/protocols/common/protocol-message-command.js and its commands, run by
-- the executor: how the messages to a node end, and what they do to the operation.
use trex_dkg.Prelude.{
  ℕ, zero, suc, ◌+◌, ◌≤◌, ◌≡◌, ◌≢◌, ◌⊎◌, inl, inr, refl, Bool, true, false, Option, none, some,
  arith, Bool-cases, ap,
}
use trex_dkg.Operation.Data.{RequestStatus, World}
use trex_dkg.Operation.Service.{Service}
use trex_dkg.Operation.Replication.{process_response}
use trex_dkg.Operation.Schedule.{MessageCommand}
use trex_dkg.Operation.Run.{replies}
use trex_dkg.Operation.Exchange.{
  MessageType, Response, Kind, Sender, Exchange, handle_response, after_send, should_send_message,
  execute_protocol_message, go_on, conduct, returns, sender_of, exchange_reply,
}
use trex_dkg.Operation.Exchanging.{
  IsRequest, messages_left, messages_left_positive, Ends, IsTotal, Again, EndsAgain,
  handle_error-Ends, handle_nack-Ends, handle_ack-Ends, busy-Ends,
}

module _ {W D : Type 0} (sender : Sender W D) (network : ℕ → Option (Response D)) where
  response-Ends :
      (fuel : ℕ) (kind : Kind) (retries : ℕ) (again : Again sender network) (type : MessageType)
      (d : D) (x : Exchange W) (k limit : ℕ)
      → IsTotal sender network x.world
      → IsRequest sender.next_kind
      → EndsAgain sender network fuel again
      → messages_left kind retries ≤ suc fuel
      → x.sent + messages_left kind retries ≤ suc limit
      → x.sent ≤ limit
      → network k ≡ some (record { message_type = type; contents = d })
      → x.sent ≡ suc k
      → Ends sender network x.world limit
          (go_on sender network kind retries again (handle_response sender network kind type d x))
  response-Ends fuel kind retries again MessageType.busy d x k limit total req ends enough le lt e
        at =
      busy-Ends sender network fuel kind retries again x limit total ends enough le lt
  response-Ends fuel kind retries again MessageType.nack d x k limit total req ends enough le lt e
        at =
      handle_nack-Ends sender network kind retries again x limit total lt
  response-Ends fuel kind retries again MessageType.unknown d x k limit total req ends enough le lt
        e at =
      handle_nack-Ends sender network kind retries again x limit total lt
  response-Ends fuel kind retries again MessageType.ack d x k limit total req ends enough le lt e
        at =
      handle_ack-Ends sender network fuel kind retries again d x limit total req ends enough le lt
        (k, e, at)

  after_send-Ends :
      (fuel : ℕ) (kind : Kind) (retries : ℕ) (again : Again sender network)
      (answer : Option (Response D)) (x : Exchange W) (k limit : ℕ)
      → IsTotal sender network x.world
      → IsRequest sender.next_kind
      → EndsAgain sender network fuel again
      → messages_left kind retries ≤ suc fuel
      → x.sent + messages_left kind retries ≤ suc limit
      → x.sent ≤ limit
      → network k ≡ answer
      → x.sent ≡ suc k
      → Ends sender network x.world limit
          (go_on sender network kind retries again (after_send sender network kind answer x))
  after_send-Ends fuel kind retries again none x k limit total req ends enough le lt e at =
      handle_error-Ends sender network fuel kind retries again (record x { session = true }) limit
        total ends enough le lt
  after_send-Ends fuel kind retries again (some response) x k limit total req ends enough le lt e
        at =
      response-Ends fuel kind retries again response.message_type response.contents
        (record x { session = false }) k limit total req ends enough le lt e at

  not_in_progress :
      (kind : Kind) (w : W)
      → should_send_message sender network kind w ≡ false
      → sender.in_progress w ≡ false
  not_in_progress Kind.init w h = cc
  not_in_progress Kind.request w h = cc
  not_in_progress Kind.get_request w h = h

  -- The messages to a node end, after at most one message for each retry, one more, and the
  -- request, whatever the node answers and whenever a message cannot be prepared or sent. One
  -- response is processed in all: that of a node that completed only if the last message sent was
  -- acknowledged, and of one that failed else; only for an operation that is not in progress there
  -- may be none. The request is the next command of the sequence, and processResponse does not
  -- throw in that state.
  pub conduct-Ends :
      (fuel : ℕ) (kind : Kind) (retries : ℕ) (x : Exchange W)
      → IsTotal sender network x.world
      → IsRequest sender.next_kind
      → messages_left kind retries ≤ fuel
      → Ends sender network x.world
          (x.sent + messages_left kind retries)
          (conduct sender network fuel kind retries x)
  unfolding conduct execute_protocol_message
  conduct-Ends zero kind retries x total req enough =
      absurd (omega (arith, messages_left_positive kind retries))
  conduct-Ends (suc fuel) kind retries x total req enough =
      let limit = x.sent + messages_left kind retries in
      let again = conduct sender network fuel in
      let pos = messages_left_positive kind retries in
      let ends : EndsAgain sender network fuel again =
        λ k r y t le. conduct-Ends fuel k r y t req le in
      elim (Bool-cases (should_send_message sender network kind x.world)) [
        | inr e ↦
            rw (e, execute_protocol_message)
              (x, refl, (omega (arith, pos), inr (not_in_progress kind x.world e, refl)))
        | inl e ↦ elim (Bool-cases (sender.prepare kind x.world)) [
          | inr f ↦
              rw (e, f, execute_protocol_message)
                (handle_error-Ends sender network fuel kind retries again x limit total ends enough
                  (omega arith) (omega (arith, pos)))
          | inl f ↦
              let sent : Exchange W = record x { sent = x.sent + 1 } in
              rw (e, f, execute_protocol_message)
                (after_send-Ends fuel kind retries again (network x.sent) sent x.sent limit total
                  req ends enough (omega arith) (omega (arith, pos)) refl (omega arith))
        ]
      ]

returns_ok : (w : World) (o : Option World) → o ≢ none → (returns w o).1 ≡ true
returns_ok w none h = absurd (h refl)
returns_ok w (some v) h = refl

returns_world : (w v : World) (o : Option World) → o ≢ none → v ≡ (returns w o).0 → some v ≡ o
returns_world w v none h e = absurd (h refl)
returns_world w v (some u) h e = ap some e

-- All the messages to a node of a publish or an update have on the operation the effect of one call
-- of processResponse, as a failed response or as a completed one, and as a completed one only if
-- the node acknowledged one of them. processResponse does not throw for either.
pub exchange_reply-replies :
    {D : Type 0} (s : Service) (prepare : Kind → World → Bool)
    (network : ℕ → ℕ → Option (Response D)) (m : MessageCommand) (w : World)
    → ((a : RequestStatus) → process_response s m.command a none w ≢ none)
    → (a : RequestStatus) × (exchange_reply s prepare network m w ≡ replies s (λ node. a) m w)
      × ((a ≡ RequestStatus.failed)
          ⊎ ((k : ℕ) × (d : D) × (k ≤ m.retries + 1)
              × (network m.node k
                  ≡ some (record { message_type = MessageType.ack; contents = d }))))
unfolding exchange_reply
exchange_reply-replies s prepare network m w works =
    let sender = sender_of s m.command prepare in
    let start : Exchange World = record { world = w; sent = 0; session = false } in
    let total : IsTotal sender (network m.node) w =
      λ a d. returns_ok w (process_response s m.command a none w) (works a) in
    let (y, e, (few, answered)) =
      conduct-Ends sender (network m.node) (m.retries + 2) Kind.init m.retries start total tt
        (omega arith) in
    elim answered [
      | inr (late, same) ↦ absurd (cc late)
      | inl (inl failed) ↦ (
        RequestStatus.failed,
        rw e (
            returns_world w y.world (process_response s m.command RequestStatus.failed none w)
              (works RequestStatus.failed) failed),
        inl refl,
      )
      | inl (inr (d, done, (k, acked, at))) ↦ (
        RequestStatus.completed,
        rw e (
            returns_world w y.world (process_response s m.command RequestStatus.completed none w)
              (works RequestStatus.completed) done),
        inr (k, d, omega arith, acked),
      )
    ]
