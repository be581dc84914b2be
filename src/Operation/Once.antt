-- ===== src/Operation/Once.antt =====
-- A publish or an update reports its completion once.
use trex_dkg.Prelude.{
  ℕ, ◌+◌, ◌≡◌, refl, List, [], ◌∷◌, Option, none, some, ltb, leb, ◌&&◌, if◌then◌else◌, arith,
}
use trex_dkg.Operation.Data.{RequestStatus, is_completed, CommandData, World}
use trex_dkg.Operation.Service.{Service, Counts, bump, create_response}
use trex_dkg.Operation.Replication.{process_response}
use trex_dkg.Operation.Counting.{
  tally, tally-append_one, responses_of-create_response, OnlyKeyword, OnlyKeyword-append_one,
}
use trex_dkg.Operation.Outcome.{
  Outcome, outcome, apply, rows, record_response, counts_after, process_response-apply,
}
use trex_dkg.Operation.Effects.{apply_responses, finished, finals, finished_after, finished-apply}

-- Answers to one operation: the nodes that were left over when the node was asked, and its answer.
-- The commands of an operation differ in nothing else.
abbrev pub Answers : Type 0
Answers = List (List ℕ × RequestStatus)

abbrev pub answer_command : CommandData → List ℕ → CommandData
answer_command d leftover = record d { leftover_nodes = leftover }

unfoldable pub process_responses : Service → CommandData → Answers → World → Option World
process_responses s d [] w = some w
process_responses s d ((leftover, status) ∷ rest) w =
    elim (process_response s (answer_command d leftover) status none w) [
      | none ↦ none
      | some w' ↦ process_responses s d rest w'
    ]

abbrev pub acks : Answers → ℕ
acks [] = 0
acks ((leftover, status) ∷ rest) = (if is_completed status then 1 else 0) + acks rest

-- Whether the number of acknowledgements reaches `m` on the way from `c` to `n`.
abbrev pub crosses : ℕ → ℕ → ℕ → ℕ
crosses m c n = if ltb c m && leb m n then 1 else 0

-- The rows of the operation after an answer.
pub rows-process :
    (s : Service) (d : CommandData) (status : RequestStatus) (o : Outcome) (w : World)
    → OnlyKeyword d.keyword (rows s d w)
    → let w' = apply s d o (record_response s d status none w) in
      (tally d.keyword (rows s d w') ≡ counts_after s d status w)
      × OnlyKeyword d.keyword (rows s d w')
rows-process s d status o w h =
    rw
      (
        apply_responses s d o (record_response s d status none w),
        responses_of-create_response s.operation_name status none d.operation_id d.keyword w,
      )
      (
        tally-append_one d.keyword (rows s d w) _ refl,
        OnlyKeyword-append_one d.keyword (rows s d w) _ h refl,
      )

finished_after-outcome :
    (d : CommandData) (status : RequestStatus) (c : Counts)
    → finished_after (outcome d status (bump status c))
      ≡ crosses d.min_ack_responses c.completed_number
          (c.completed_number + (if is_completed status then 1 else 0))
unfolding outcome
finished_after-outcome d RequestStatus.failed c = ground arith
finished_after-outcome d RequestStatus.completed c = ground arith

crosses-add :
    (m c a b : ℕ) → crosses m c (c + a) + crosses m (c + a) (c + a + b) ≡ crosses m c (c + (a + b))
crosses-add m c a b = ground arith

completed-bump :
    (status : RequestStatus) (c : Counts)
    → (bump status c).completed_number ≡ c.completed_number + (if is_completed status then 1 else 0)
completed-bump RequestStatus.failed c = omega arith
completed-bump RequestStatus.completed c = omega arith

module _ (s : Service) (d : CommandData) (one_final : finals s.completed_statuses ≡ 1) where
  abbrev pub acked : World → ℕ
  acked w = (tally d.keyword (rows s d w)).completed_number

  -- One answer.
  finished-process_response :
      (leftover : List ℕ) (status : RequestStatus) (w : World)
      → OnlyKeyword d.keyword (rows s d w)
      → let b : ℕ = if is_completed status then 1 else 0 in
        (w' : World) × (process_response s (answer_command d leftover) status none w ≡ some w')
        × OnlyKeyword d.keyword (rows s d w')
        × (acked w' ≡ acked w + b)
        × (finished d.operation_id w'.events
            ≡ finished d.operation_id w.events
              + crosses d.min_ack_responses (acked w) (acked w + b))
  unfolding create_response
  finished-process_response leftover status w h = (
    apply s a o (record_response s a status none w),
    process_response-apply s a status none w h,
    after.1,
    ground (arith, after.0, completed-bump status (tally d.keyword (rows s d w))),
    ground (
      arith,
      finished-apply s a o (record_response s a status none w) one_final,
      finished_after-outcome a status (tally d.keyword (rows s d w)),
    ),
  )
    where
      a : CommandData
      a = answer_command d leftover

      o : Outcome
      o = outcome a status (counts_after s a status w)

      after :
          let w1 = apply s a o (record_response s a status none w) in
          (tally d.keyword (rows s d w1) ≡ counts_after s a status w)
          × OnlyKeyword d.keyword (rows s d w1)
      after = rows-process s a status o w h

  -- Over any sequence of answers to a publish or an update, each with any nodes left over, no call
  -- throws, and the event COMPLETED of the operation id is emitted once if the acknowledgements
  -- reach the required number on the way, and not at all otherwise: late answers and failures emit
  -- no second one. The rows of the operation are about one keyword, and COMPLETED occurs once among
  -- the final statuses of the service.
  pub finished-process_responses :
      (answers : Answers) (w : World)
      → OnlyKeyword d.keyword (rows s d w)
      → (w' : World) × (process_responses s d answers w ≡ some w')
        × (finished d.operation_id w'.events
            ≡ finished d.operation_id w.events
              + crosses d.min_ack_responses (acked w) (acked w + acks answers))
  unfolding process_responses
  finished-process_responses [] w h = (w, refl, ground arith)
  finished-process_responses ((leftover, status) ∷ rest) w h =
      let (w1, step, only, acked1, finished1) = finished-process_response leftover status w h in
      let (w2, steps, finished2) = finished-process_responses rest w1 only in
      (
        w2,
        rw (step, process_responses) steps,
        ground (
          arith,
          finished1,
          finished2,
          acked1,
          crosses-add d.min_ack_responses (acked w) (if is_completed status then 1 else 0)
              (acks rest),
        ),
      )
