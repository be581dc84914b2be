-- ===== src/Operation/Rounds.antt =====
-- One round of an operation: the schedule command, the answers of its batch, and the schedule command
-- that comes of them.
use trex_dkg.Prelude.{
  ℕ, zero, suc, ◌+◌, ◌<◌, ◌≡◌, refl, none, some, List, [], ◌∷◌, take, drop, length, length-take,
  length-drop, ltb, if◌then◌else◌, arith,
}
use trex_dkg.Operation.Data.{OperationStatus, IdStatus, Scheduled, CommandData, World}
use trex_dkg.Operation.Ids.{update_operation_id_status}
use trex_dkg.Operation.Service.{Service, Counts}
use trex_dkg.Operation.Schedule.{current_batch, current_leftover, schedule_messages}
use trex_dkg.Operation.Run.{answer_all, Reply, Schedule, run, At}
use trex_dkg.Operation.Replicated.{batch}

-- The command of each message of a batch.
abbrev pub asked : CommandData → CommandData
asked d = record d { leftover_nodes = current_leftover d }

-- The world after the schedule command.
abbrev pub started : IdStatus → CommandData → World → World
started start d w = update_operation_id_status d.operation_id d.blockchain start none none w

pub started-At :
    (s : Service) (start : IdStatus) (d : CommandData) (c : Counts) (st : OperationStatus)
    (q : List Scheduled) (w : World)
    → At s d c st q w
    → At s (asked d) c st q (started start d w)
unfolding update_operation_id_status
started-At s start d c st q w at = record {
  only = at.only;
  counts = at.counts;
  status = at.status;
  queue = at.queue;
}

module _ (start : IdStatus) (reply : Reply) where
  -- A schedule command that does what the base class does.
  abbrev pub IsBase : Schedule → CommandData → World → Type 0
  IsBase schedule d w = schedule d w ≡ some (schedule_messages start d w)

  pub run-done :
      (fuel : ℕ) (schedule : Schedule) (d : CommandData) (w w' : World)
      → IsBase schedule d w
      → answer_all reply (batch (asked d) (current_batch d)) (started start d w) ≡ some w'
      → w'.scheduled ≡ []
      → run (suc fuel) reply schedule d w ≡ some w'
  unfolding run schedule_messages
  run-done fuel schedule d w w' base e q = ground arith

  pub run-more :
      (fuel : ℕ) (schedule : Schedule) (d : CommandData) (w w' : World) (x : Scheduled)
      → IsBase schedule d w
      → answer_all reply (batch (asked d) (current_batch d)) (started start d w) ≡ some w'
      → w'.scheduled ≡ x ∷ []
      → run (suc fuel) reply schedule d w
        ≡ run fuel reply schedule x.command (record w' { scheduled = [] })
  unfolding run schedule_messages
  run-more fuel schedule d w w' x base e q = ground arith

pub take-cons :
    (b : ℕ) (l : List ℕ) → 0 < b → 0 < length l → (n : ℕ) × (ns : List ℕ) × (take b l ≡ n ∷ ns)
take-cons zero l h k = absurd (omega arith)
take-cons (suc b) [] h k = absurd (omega arith)
take-cons (suc b) (x ∷ l) h k = (x, take b l, refl)

pub batch_length :
    (b : ℕ) (l : List ℕ)
    → length (take b l) + length (if ltb b (length l) then drop b l else []) ≡ length l
batch_length b l = ground (arith, length-take b l, length-drop b l)
