-- ===== src/Operation/Completion.antt =====
-- How a publish or an update ends: it is completed if enough nodes acknowledge, and otherwise it
-- fails after every node has been asked.
use trex_dkg.Prelude.{
  ℕ, zero, suc, ◌+◌, ◌%◌, ◌<◌, ◌≤◌, ◌≡◌, refl, sym, ◌∙◌, ap, some, List, [], take, drop, length,
  length-take, length-drop, take-append-drop, ltb, leb, if◌then◌else◌, arith, dec_lt, dec_le, min,
  min,
}
use trex_dkg.Operation.Data.{RequestStatus, OperationStatus, IdStatus, CommandData, World}
use trex_dkg.Operation.Service.{Service, Counts}
use trex_dkg.Operation.Schedule.{current_batch, current_leftover}
use trex_dkg.Operation.Effects.{status_of}
use trex_dkg.Operation.Batches.{
  mod-next, acks_of, acks_of-append, take-all, count_answers, total, completed-count_answers,
  total-count_answers,
}
use trex_dkg.Operation.Run.{replies, answer_all, Schedule, run, At}
use trex_dkg.Operation.Rounds.{
  asked, started, started-At, IsBase, run-done, run-more, take-cons, batch_length,
}
use trex_dkg.Operation.Replicated.{batch, answer_all-batch, final_status, final_queue}

-- The batch of a command is not empty, and is answered as `answer_all-batch` says.
batch_answered :
    (s : Service) (start : IdStatus) (answer : ℕ → RequestStatus) (d : CommandData) (c : Counts)
    (w : World)
    → At s d c OperationStatus.in_progress [] w
    → c.completed_number < d.min_ack_responses
    → total c % d.batch_size ≡ 0
    → 0 < d.batch_size
    → 0 < length d.leftover_nodes
    → total c + length d.leftover_nodes ≡ d.number_of_found_nodes
    → let c' = count_answers answer c (current_batch d) in
      (w' : World) × (answer_all
          (replies s answer)
          (batch (asked d) (current_batch d))
          (started start d w)
        ≡ some w')
      × At s
          (asked d)
          c'
          (final_status s (asked d) answer c' OperationStatus.in_progress)
          (final_queue s (asked d) answer c')
          w'
batch_answered s start answer d c w at less mult pos some_left sum =
    let (n, ns, e) = take-cons d.batch_size d.leftover_nodes pos some_left in
    let len : suc (length ns) ≡ min d.batch_size (length d.leftover_nodes) =
      ap length (sym e) ∙ length-take d.batch_size d.leftover_nodes in
    rw e (
      answer_all-batch s (asked d) answer n ns (total c) c OperationStatus.in_progress
        (started start d w) mult less (omega arith) (omega arith) (omega arith) (omega arith)
        (started-At s start d c OperationStatus.in_progress [] w at))

-- A command's nodes are those of its batch and those left over.
batch_acks :
    (answer : ℕ → RequestStatus) (b : ℕ) (l : List ℕ)
    → acks_of answer l
      ≡ acks_of answer (take b l) + acks_of answer (if ltb b (length l) then drop b l else [])
batch_acks answer b l = elim (dec_lt b (length l)) [
  | yes more ↦
      ap (acks_of answer) (sym (take-append-drop b l))
      ∙ ground (arith, acks_of-append answer (take b l) (drop b l))
  | no rest ↦ ground (arith, ap (acks_of answer) (take-all b l (omega arith)))
]

-- The status that an operation ends in.
abbrev pub verdict : ℕ → ℕ → OperationStatus
verdict min_ack acks =
    if leb min_ack acks then OperationStatus.completed else OperationStatus.failed

module _ (s : Service) (start : IdStatus) (answer : ℕ → RequestStatus) where
  -- From a command with nodes left, at the end of a batch: where the schedule command does what
  -- that of the base class does, now and whenever fewer nodes are left than were found, the run ends
  -- within as many batches as nodes are left, with the verdict on all acknowledgements.
  pub run_ends :
      (fuel : ℕ) (schedule : Schedule) (d : CommandData) (c : Counts) (w : World)
      → IsBase start (replies s answer) schedule d w
      → ((d' : CommandData) (w' : World)
          → length d'.leftover_nodes < d'.number_of_found_nodes
          → IsBase start (replies s answer) schedule d' w')
      → At s d c OperationStatus.in_progress [] w
      → c.completed_number < d.min_ack_responses
      → total c % d.batch_size ≡ 0
      → 0 < d.batch_size
      → 0 < length d.leftover_nodes
      → total c + length d.leftover_nodes ≡ d.number_of_found_nodes
      → length d.leftover_nodes ≤ fuel
      → (w' : World) × (run fuel (replies s answer) schedule d w ≡ some w')
        × (status_of s d w'
            ≡ some (
                verdict d.min_ack_responses (c.completed_number + acks_of answer d.leftover_nodes)))
  run_ends zero schedule d c w base later at less mult pos some_left sum fits = absurd (omega arith)
  run_ends (suc fuel) schedule d c w base later at less mult pos some_left sum fits =
      let c1 : Counts = count_answers answer c (current_batch d) in
      let (w1, e1, at1) = batch_answered s start answer d c w at less mult pos some_left sum in
      let acked = completed-count_answers answer c (current_batch d) in
      let answered = total-count_answers answer c (current_batch d) in
      let all_acks = batch_acks answer d.batch_size d.leftover_nodes in
      let len = batch_length d.batch_size d.leftover_nodes in
      elim (dec_le d.min_ack_responses c1.completed_number) [
        | yes enough ↦ (
          w1,
          run-done start (replies s answer) fuel schedule d w w1 base e1
              (ground (arith, at1.queue)),
          ground (arith, at1.status, acked, all_acks),
        )
        | no few ↦ elim (dec_lt d.batch_size (length d.leftover_nodes)) [
          | yes more ↦
              let left : 0 < length (current_leftover d) =
                ground (arith, length-drop d.batch_size d.leftover_nodes) in
              let w2 : World = record w1 { scheduled = [] } in
              let (w3, e3, ended) =
                run_ends fuel schedule (asked d) c1 w2
                  (later (asked d) w2 (omega (arith, length-take d.batch_size d.leftover_nodes)))
                  later
                  (record {
                    only = at1.only;
                    counts = at1.counts;
                    status = ground (arith, at1.status);
                    queue = refl;
                  })
                  (omega arith)
                  (ground (
                    arith,
                    answered,
                    length-take d.batch_size d.leftover_nodes,
                    mod-next (total c) d.batch_size mult pos,
                  ))
                  pos left (omega arith)
                  (omega (arith, length-take d.batch_size d.leftover_nodes)) in
              (
                w3,
                run-more start (replies s answer) fuel schedule d w w1
                      (record { operation = s.operation_name; command = asked d }) base e1
                      (ground (arith, at1.queue))
                    ∙ e3,
                ended ∙ ap (λ (t : ℕ). some (verdict d.min_ack_responses t)) (omega arith),
              )
          | no rest ↦ (
            w1,
            run-done start (replies s answer) fuel schedule d w w1 base e1
                (ground (arith, at1.queue)),
            ground (arith, at1.status, acked, all_acks),
          )
        ]
      ]
