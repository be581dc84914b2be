-- ===== src/Operation/Run.antt =====
-- A whole publish or update: one batch of nodes after another is asked, until enough have
-- acknowledged or no node is left.
use trex_dkg.Prelude.{
  ℕ, zero, suc, ◌<◌, ◌≤◌, ◌≡◌, inl, inr, ◌⊎◌, ◌∙◌, ap, true, false, Option, none, some, List, [],
  ◌∷◌, ◌++◌, if◌then◌else◌, arith,
}
use trex_dkg.Operation.Data.{RequestStatus, OperationStatus, Scheduled, CommandData, World}
use trex_dkg.Operation.Service.{Service, Counts, bump, create_response}
use trex_dkg.Operation.Replication.{fills_batches, is_empty, process_response}
use trex_dkg.Operation.Schedule.{MessageCommand}
use trex_dkg.Operation.Counting.{tally, OnlyKeyword}
use trex_dkg.Operation.Outcome.{
  Outcome, completes, fails, next, waits, outcome, apply, rows, record_response,
  process_response-apply,
}
use trex_dkg.Operation.Effects.{
  status_of, status_after, apply_status, scheduled_after, apply_scheduled,
}
use trex_dkg.Operation.Once.{rows-process}
use trex_dkg.Operation.Batches.{total}

-- What a node's answer to its message command does: `none` where its handling throws.
abbrev pub Reply : Type 0
Reply = MessageCommand → World → Option World

-- The nodes of a batch answer one after the other.
unfoldable pub answer_all : Reply → List MessageCommand → World → Option World
answer_all reply [] w = some w
answer_all reply (m ∷ ms) w = elim (reply m w) [ none ↦ none | some w' ↦ answer_all reply ms w' ]

-- Each node answers a publish or an update in its own way.
abbrev pub replies : Service → (ℕ → RequestStatus) → Reply
replies s answer m w = process_response s m.command (answer m.node) none w

-- What the executor does with the schedule command: the new world and the messages of a batch, or
-- `none` where the command throws.
abbrev pub Schedule : Type 0
Schedule = CommandData → World → Option (World × List MessageCommand)

-- The executor runs the schedule command, the nodes of the batch answer, and the executor runs the
-- schedule command that an answer may have added. The fuel bounds the number of batches; `none`
-- stands for a command that throws, too.
unfoldable pub run : ℕ → Reply → Schedule → CommandData → World → Option World
run zero reply schedule d w = none
run (suc fuel) reply schedule d w = elim (schedule d w) [
  | none ↦ none
  | some (w1, commands) ↦ elim (answer_all reply commands w1) [
    | none ↦ none
    | some w2 ↦ elim w2.scheduled [
      | [] ↦ some w2
      | x ∷ rest ↦ run fuel reply schedule x.command (record w2 { scheduled = rest })
    ]
  ]
]

-- Where an operation stands: the counts of its answers, its status, and what is scheduled.
pub record At (s : Service) (d : CommandData) (c : Counts) (st : OperationStatus)
    (q : List Scheduled) (w : World) : Type 0 where
  pub only : OnlyKeyword d.keyword (rows s d w)
  pub counts : tally d.keyword (rows s d w) ≡ c
  pub status : status_of s d w ≡ some st
  pub queue : w.scheduled ≡ q

-- One answer.
pub answer_step :
    (s : Service) (d : CommandData) (a : RequestStatus) (c : Counts) (st : OperationStatus)
    (w : World)
    → At s d c st [] w
    → let o = outcome d a (bump a c) in
      (w' : World) × (process_response s d a none w ≡ some w')
      × At s d (bump a c) (status_after o st) (scheduled_after s d o) w'
unfolding create_response
answer_step s d a c st w h = (
  apply s d o (record_response s d a none w),
  ground (arith, process_response-apply s d a none w h.only, h.counts),
  record {
    only = (rows-process s d a o w h.only).1;
    counts = (rows-process s d a o w h.only).0 ∙ ap (bump a) h.counts;
    status = apply_status s d o (record_response s d a none w) h.status;
    queue =
        apply_scheduled s d o (record_response s d a none w)
        ∙ ap (λ q. q ++ scheduled_after s d o) h.queue;
  },
)
  where
    o : Outcome
    o = outcome d a (bump a c)

pub outcome-late :
    (d : CommandData) (a : RequestStatus) (c : Counts)
    → d.min_ack_responses ≤ c.completed_number
    → outcome d a (bump a c) ≡ waits
unfolding outcome
outcome-late d RequestStatus.failed c h = ground arith
outcome-late d RequestStatus.completed c h = ground arith

pub outcome-enough :
    (d : CommandData) (a : RequestStatus) (c : Counts)
    → c.completed_number < d.min_ack_responses
    → d.min_ack_responses ≤ (bump a c).completed_number
    → outcome d a (bump a c) ≡ completes
unfolding outcome
outcome-enough d RequestStatus.failed c h k = absurd (omega arith)
outcome-enough d RequestStatus.completed c h k = ground arith

pub outcome-inside :
    (d : CommandData) (a : RequestStatus) (c : Counts)
    → c.completed_number < d.min_ack_responses
    → total c < d.number_of_found_nodes
    → fills_batches (total c) d.batch_size ≡ false
    → outcome d a c ≡ waits
unfolding outcome
outcome-inside d a c h k f = ground arith

pub outcome-end :
    (d : CommandData) (a : RequestStatus) (c : Counts)
    → c.completed_number < d.min_ack_responses
    → ((total c ≡ d.number_of_found_nodes) ⊎ (fills_batches (total c) d.batch_size ≡ true))
    → outcome d a c ≡ (if is_empty d.leftover_nodes then fails else next)
unfolding outcome
outcome-end d a c h (inl k) = ground arith
outcome-end d a c h (inr k) = ground arith
