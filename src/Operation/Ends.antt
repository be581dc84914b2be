-- ===== src/Operation/Ends.antt =====
-- How an update and a publish end.
use trex_dkg.Prelude.{
  ℕ, ◌<◌, ◌≡◌, refl, ap, ◌∙◌, true, false, some, [], length, leb, if◌then◌else◌, arith,
}
use trex_dkg.Operation.Data.{
  RequestStatus, OperationStatus, IdStatus, ErrorType, CommandData, World,
}
use trex_dkg.Operation.Service.{no_counts, mark_operation_as_failed}
use trex_dkg.Operation.Replication.{publish_service, update_service}
use trex_dkg.Operation.Schedule.{schedule_messages}
use trex_dkg.Operation.Effects.{status_of}
use trex_dkg.Operation.Batches.{acks_of}
use trex_dkg.Operation.Run.{replies, run, At}
use trex_dkg.Operation.Completion.{verdict, run_ends}
use trex_dkg.Operation.Publishing.{
  BidTerms, validate_bids_for_neighbourhood, publish_schedule_messages, update_schedule_messages,
}
use trex_dkg.Operation.Checked.{
  accepting, failed_world, run-stops, Checked, goes_on, fails, check_bid,
}

module _ (answer : ℕ → RequestStatus) (d : CommandData) (w : World) where
  -- An update ends, whatever each node answers: with as much fuel as nodes were found, the run of
  -- schedule commands and answers returns, and the update is then completed if the acknowledgements
  -- of all its nodes reach the required number, and failed otherwise. It begins with all nodes
  -- found, at least one, left over, its row in progress, no answer yet and no command scheduled;
  -- the required number and the batch size are above 0.
  pub update_ends :
      At update_service d no_counts OperationStatus.in_progress [] w
      → 0 < d.min_ack_responses
      → 0 < d.batch_size
      → 0 < length d.leftover_nodes
      → length d.leftover_nodes ≡ d.number_of_found_nodes
      → (w' : World) × (run
            (length d.leftover_nodes)
            (replies update_service answer)
            update_schedule_messages
            d
            w
          ≡ some w')
        × (status_of update_service d w'
            ≡ some (verdict d.min_ack_responses (acks_of answer d.leftover_nodes)))
  unfolding update_schedule_messages
  update_ends at some_acks pos some_left sum =
      let (w', ran, ended) =
        run_ends update_service IdStatus.update_replicate_start answer (length d.leftover_nodes)
          update_schedule_messages d no_counts w refl (λ d' w' less. refl) at some_acks
          (omega arith) pos some_left (omega arith) (omega arith) in
      (w', ran, ended ∙ ap (λ (t : ℕ). some (verdict d.min_ack_responses t)) (omega arith))

module _ (t : BidTerms) (d : CommandData) (w : World) where
  goes_on_base :
      validate_bids_for_neighbourhood t d w ≡ some (true, w)
      → length d.leftover_nodes ≡ d.number_of_found_nodes
      → publish_schedule_messages t d w
        ≡ some (schedule_messages IdStatus.publish_replicate_start d w)
  unfolding publish_schedule_messages
  goes_on_base valid sum = ground arith

  later_base :
      (d' : CommandData) (w' : World)
      → length d'.leftover_nodes < d'.number_of_found_nodes
      → publish_schedule_messages t d' w'
        ≡ some (schedule_messages IdStatus.publish_replicate_start d' w')
  unfolding publish_schedule_messages
  later_base d' w' less = ground arith

  fails_base :
      (w' : World)
      → validate_bids_for_neighbourhood t d w ≡ some (false, w')
      → length d.leftover_nodes ≡ d.number_of_found_nodes
      → publish_schedule_messages t d w ≡ some (w', [])
  unfolding publish_schedule_messages
  fails_base w' invalid sum = ground arith

  publish_from :
      (n : ℕ) (answer : ℕ → RequestStatus)
      → Checked t d w n
      → At publish_service d no_counts OperationStatus.in_progress [] w
      → 0 < d.min_ack_responses
      → 0 < d.batch_size
      → 0 < length d.leftover_nodes
      → length d.leftover_nodes ≡ d.number_of_found_nodes
      → (w' : World) × (run
            (length d.leftover_nodes)
            (replies publish_service answer)
            (publish_schedule_messages t)
            d
            w
          ≡ some w')
        × (status_of publish_service d w'
            ≡ some (
                if leb d.min_ack_responses n
                then verdict d.min_ack_responses (acks_of answer d.leftover_nodes)
                else OperationStatus.failed))
  publish_from n answer (goes_on enough valid) at some_acks pos some_left sum =
      let (w', ran, ended) =
        run_ends publish_service IdStatus.publish_replicate_start answer (length d.leftover_nodes)
          (publish_schedule_messages t) d no_counts w (goes_on_base valid sum)
          (λ d' w' less. later_base d' w' less) at some_acks (omega arith) pos some_left
          (omega arith) (omega arith) in
      (w', ran, ended ∙ ground arith)
  publish_from n answer (fails m few invalid) at some_acks pos some_left sum =
      let (no_queue, failed) =
        failed_world publish_service d m ErrorType.publish_start_error w at.queue at.status in
      (
        mark_operation_as_failed publish_service d.operation_id d.blockchain m
            ErrorType.publish_start_error w,
        run-stops (length d.leftover_nodes) (publish_schedule_messages t) d answer w _
            (fails_base _ invalid sum) no_queue some_left,
        failed ∙ ground arith,
      )

  -- A publish ends, whatever each node answers: with as much fuel as nodes were found, the run of
  -- schedule commands and answers returns. If the required number of nodes accept the bid, the
  -- publish is then completed if the acknowledgements of all its nodes reach that number, and
  -- failed otherwise; if fewer accept the bid, or there is no agreement, it is failed. It begins
  -- with all nodes found, at least one, left over, its row in progress, no answer yet and no
  -- command scheduled; the required number and the batch size are above 0, the bid can be computed
  -- and each node has an ask.
  pub publish_ends :
      (n : ℕ) (answer : ℕ → RequestStatus)
      → accepting t d ≡ some n
      → At publish_service d no_counts OperationStatus.in_progress [] w
      → 0 < d.min_ack_responses
      → 0 < d.batch_size
      → 0 < length d.leftover_nodes
      → length d.leftover_nodes ≡ d.number_of_found_nodes
      → (w' : World) × (run
            (length d.leftover_nodes)
            (replies publish_service answer)
            (publish_schedule_messages t)
            d
            w
          ≡ some w')
        × (status_of publish_service d w'
            ≡ some (
                if leb d.min_ack_responses n
                then verdict d.min_ack_responses (acks_of answer d.leftover_nodes)
                else OperationStatus.failed))
  publish_ends n answer h at some_acks pos some_left sum =
      publish_from n answer (check_bid t d w t.agreement n refl some_acks h) at some_acks pos
        some_left sum
