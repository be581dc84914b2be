-- ===== src/Operation/Exchanging.antt =====
-- ot-node-docker/src/commands/protocols/common/protocol-message-command.js and its commands, run by
-- the executor: each way in which a command can end.
use trex_dkg.Prelude.{
  ℕ, zero, suc, ◌+◌, ◌-◌, ◌≤◌, ◌<◌, ◌≡◌, ◌⊎◌, inl, inr, refl, Bool, true, false, ◌&&◌, Option, none,
  some, ltb, arith, Bool-cases, ap,
}
use trex_dkg.Operation.Data.{RequestStatus}
use trex_dkg.Operation.Exchange.{
  MessageType, Response, Kind, Ended, Sender, Exchange, ended, mark_response_as_failed, handle_nack,
  complete_with, handle_ack, recover, handle_error, after_retry_finished, go_on,
}

abbrev pub IsRequest : Kind → Type 0
IsRequest Kind.init = ⊥
IsRequest Kind.request = Unit
IsRequest Kind.get_request = Unit

-- How many messages may still be sent.
abbrev pub messages_left : Kind → ℕ → ℕ
messages_left Kind.init retries = retries + 2
messages_left Kind.request retries = retries + 1
messages_left Kind.get_request retries = retries + 1

messages_left-suc : (kind : Kind) (r : ℕ) → messages_left kind (suc r) ≡ suc (messages_left kind r)
messages_left-suc Kind.init r = omega arith
messages_left-suc Kind.request r = omega arith
messages_left-suc Kind.get_request r = omega arith

pub messages_left_positive : (kind : Kind) (r : ℕ) → 0 < messages_left kind r
messages_left_positive Kind.init r = omega arith
messages_left_positive Kind.request r = omega arith
messages_left_positive Kind.get_request r = omega arith

messages_left_of_request : (kind : Kind) → IsRequest kind → messages_left kind 0 ≡ 1
messages_left_of_request Kind.init h = absurd h
messages_left_of_request Kind.request h = refl
messages_left_of_request Kind.get_request h = refl

module _ {W D : Type 0} (sender : Sender W D) (network : ℕ → Option (Response D)) where
  -- The last message that was sent was acknowledged, with this answer.
  abbrev pub IsAcked : D → Exchange W → Type 0
  IsAcked d y =
      (k : ℕ) × (network k ≡ some (record { message_type = MessageType.ack; contents = d }))
      × (y.sent ≡ suc k)

  -- One response was processed, and it is that of a node that completed only if it acknowledged.
  abbrev pub IsAnswered : W → Exchange W → Type 0
  IsAnswered w y =
      (y.world ≡ (sender.process_response RequestStatus.failed none w).0)
      ⊎ ((d : D) × (y.world ≡ (sender.process_response RequestStatus.completed (some d) w).0)
          × IsAcked d y)

  abbrev pub HasEnded : W → ℕ → Exchange W → Type 0
  HasEnded w limit y =
      (y.sent ≤ limit) × (IsAnswered w y ⊎ ((sender.in_progress w ≡ false) × (y.world ≡ w)))

  abbrev pub Ends : W → ℕ → Option (Exchange W) → Type 0
  Ends w limit o = (y : Exchange W) × (o ≡ some y) × HasEnded w limit y

  Ends-le :
      (w : W) (limit more : ℕ) (o : Option (Exchange W))
      → limit ≤ more
      → Ends w limit o
      → Ends w more o
  Ends-le w limit more o le (y, e, (sent, answered)) = (y, e, (omega arith, answered))

  -- No call of processResponse in this state throws.
  abbrev pub IsTotal : W → Type 0
  IsTotal w = (a : RequestStatus) (d : Option D) → (sender.process_response a d w).1 ≡ true

  abbrev pub Again : Type 0
  Again = Kind → ℕ → Exchange W → Option (Exchange W)

  -- What runs again ends, if there is fuel for the messages that are left.
  abbrev pub EndsAgain : ℕ → Again → Type 0
  EndsAgain fuel again =
      (kind : Kind) (retries : ℕ) (x : Exchange W)
      → IsTotal x.world
      → messages_left kind retries ≤ fuel
      → Ends x.world (x.sent + messages_left kind retries) (again kind retries x)

  pub handle_error-Ends :
      (fuel : ℕ) (kind : Kind) (retries : ℕ) (again : Again) (x : Exchange W) (limit : ℕ)
      → IsTotal x.world
      → EndsAgain fuel again
      → messages_left kind retries ≤ suc fuel
      → x.sent + messages_left kind retries ≤ suc limit
      → x.sent ≤ limit
      → Ends x.world limit (handle_error sender network kind retries again x)
  handle_error-Ends fuel kind zero again x limit total ends enough le lt =
      (recover sender network x, refl, (lt, inl (inl refl)))
  handle_error-Ends fuel kind (suc r) again x limit total ends enough le lt =
      let one_less = messages_left-suc kind r in
      let more : ltb 0 (suc r) ≡ true = ground arith in
      let less : suc r - 1 ≡ r = omega arith in
      rw (more, less)
        (Ends-le x.world (x.sent + messages_left kind r) limit (again kind r x)
          (omega (arith, one_less)) (ends kind r x total (omega (arith, one_less))))

  -- A response that is processed ends the messages.
  go_on-ended :
      (kind : Kind) (retries : ℕ) (again : Again) (x : Exchange W) (w : W) (limit : ℕ)
      (result : W × Bool)
      → result.1 ≡ true
      → x.sent ≤ limit
      → IsAnswered w (record x { world = result.0 })
      → Ends w limit (go_on sender network kind retries again (ended sender network x result))
  go_on-ended kind retries again x w limit (v, true) total le answered =
      (record x { world = v }, refl, (le, inl answered))
  go_on-ended kind retries again x w limit (v, false) total le answered = absurd (cc total)

  retry_finished-Ends :
      (kind : Kind) (retries : ℕ) (again : Again) (x : Exchange W) (limit : ℕ) (result : W × Bool)
      → result.1 ≡ true
      → x.sent ≤ limit
      → IsAnswered x.world (record x { world = result.0 })
      → Ends x.world limit (after_retry_finished sender network kind retries again x result)
  retry_finished-Ends kind retries again x limit (v, true) total le answered =
      (record x { world = v }, refl, (le, inl answered))
  retry_finished-Ends kind retries again x limit (v, false) total le answered = absurd (cc total)

  pub handle_nack-Ends :
      (kind : Kind) (retries : ℕ) (again : Again) (x : Exchange W) (limit : ℕ)
      → IsTotal x.world
      → x.sent ≤ limit
      → Ends x.world limit (go_on sender network kind retries again (handle_nack sender network x))
  handle_nack-Ends kind retries again x limit total le =
      go_on-ended kind retries again x x.world limit
        (mark_response_as_failed sender network x.world) (total RequestStatus.failed none) le
        (inl refl)

  complete_with-Ends :
      (kind : Kind) (retries : ℕ) (again : Again) (d : D) (x : Exchange W) (limit : ℕ)
      → IsTotal x.world
      → x.sent ≤ limit
      → IsAcked d x
      → Ends x.world limit
          (go_on sender network kind retries again (complete_with sender network d x))
  complete_with-Ends kind retries again d x limit total le acked =
      go_on-ended kind retries again x x.world limit
        (sender.process_response RequestStatus.completed (some d) x.world)
        (total RequestStatus.completed (some d)) le (inr (d, refl, acked))

  pub handle_ack-Ends :
      (fuel : ℕ) (kind : Kind) (retries : ℕ) (again : Again) (d : D) (x : Exchange W) (limit : ℕ)
      → IsTotal x.world
      → IsRequest sender.next_kind
      → EndsAgain fuel again
      → messages_left kind retries ≤ suc fuel
      → x.sent + messages_left kind retries ≤ suc limit
      → x.sent ≤ limit
      → IsAcked d x
      → Ends x.world limit
          (go_on sender network kind retries again (handle_ack sender network kind d x))
  handle_ack-Ends fuel Kind.init retries again d x limit total req ends enough le lt acked =
      let one = messages_left_of_request sender.next_kind req in
      Ends-le x.world (x.sent + messages_left sender.next_kind 0) limit (again sender.next_kind 0 x)
        (omega (arith, one)) (ends sender.next_kind 0 x total (omega (arith, one)))
  handle_ack-Ends fuel Kind.request retries again d x limit total req ends enough le lt acked =
      complete_with-Ends Kind.request retries again d x limit total lt acked
  handle_ack-Ends fuel Kind.get_request retries again d x limit total req ends enough le lt acked =
      elim (Bool-cases (sender.has_nquads d && sender.is_valid d)) [
        | inl e ↦ rw e (complete_with-Ends Kind.get_request retries again d x limit total lt acked)
        | inr e ↦ rw e (handle_nack-Ends Kind.get_request retries again x limit total lt)
      ]

  pub busy-Ends :
      (fuel : ℕ) (kind : Kind) (retries : ℕ) (again : Again) (x : Exchange W) (limit : ℕ)
      → IsTotal x.world
      → EndsAgain fuel again
      → messages_left kind retries ≤ suc fuel
      → x.sent + messages_left kind retries ≤ suc limit
      → x.sent ≤ limit
      → Ends x.world limit (go_on sender network kind retries again (x, Ended.retry))
  busy-Ends fuel kind retries again x limit total ends enough le lt =
      elim (Bool-cases (ltb 1 retries)) [
        | inl e ↦ rw e (again_ends (retries - 1) (ground arith))
        | inr e ↦ rw e (
            retry_finished-Ends kind retries again x limit
              (mark_response_as_failed sender network x.world) (total RequestStatus.failed none) lt
              (inl refl))
      ]
    where
      again_ends : (r : ℕ) → retries ≡ suc r → Ends x.world limit (again kind r x)
      again_ends r e =
          let one_less = messages_left-suc kind r in
          let same : messages_left kind retries ≡ messages_left kind (suc r) =
            ap (messages_left kind) e in
          Ends-le x.world (x.sent + messages_left kind r) limit (again kind r x)
            (omega (arith, one_less, same)) (ends kind r x total (omega (arith, one_less, same)))
