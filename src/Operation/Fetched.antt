-- ===== src/Operation/Fetched.antt =====
-- One answer to a get that one acknowledgement ends.
use trex_dkg.Prelude.{
  ℕ, suc, ◌<◌, ◌≡◌, ◌∙◌, ap, Bool, true, false, ◌||◌, none, some, List, [], ◌∷◌, ◌++◌, ◌==◌, arith,
}
use trex_dkg.Operation.Data.{RequestStatus, Payload, StoreCall, Scheduled, CommandData, World}
use trex_dkg.Operation.Ids.{get_cached_operation_id_data}
use trex_dkg.Operation.Service.{bump, create_response, schedule_operation_for_leftover_nodes}
use trex_dkg.Operation.Replication.{is_empty}
use trex_dkg.Operation.Get.{
  get_service, ResponseData, store_fetched, is_multiple, on_enough, on_exhausted,
  process_get_response,
}
use trex_dkg.Operation.Fetching.{
  result_of, stores_of, concluded, concluded_frame, status_of-concluded, cached-concluded,
  stored-store_fetched, cached-store_fetched, store_fetched_frame,
}
use trex_dkg.Operation.Searching.{
  misses, Searching, Over, Found, noted, counts, process_get_response_lem, counts-noted,
}

-- The command that a get schedules for the nodes left over.
abbrev pub next_round : CommandData → List Scheduled
next_round d = record { operation = get_service.operation_name; command = d } ∷ []

-- Whether the second `if` is taken while there is no hit.
abbrev pub ends_batch : CommandData → ℕ → Bool
ends_batch d k = d.number_of_found_nodes == k || is_multiple k d.batch_size

module _ (d : CommandData) (one : d.min_ack_responses ≡ 1) where
  -- After the first hit, an answer changes nothing but the rows.
  pub answer_late :
      (status : RequestStatus) (r : ResponseData) (p : Payload) (l : List StoreCall) (w : World)
      → Found d p l w
      → (w' : World) × (process_get_response d status r w ≡ some w') × Found d p l w'
  unfolding on_enough on_exhausted create_response get_cached_operation_id_data
  answer_late status r p l w f =
      let (counted, only) = counts-noted d status r w f.only in
      (
        noted d status r w,
        process_get_response_lem d status r w ∙ unchanged status f.some_acks,
        record {
          only = only;
          some_acks = rw counted (more status f.some_acks);
          over = record {
            status = f.over.status;
            cached = f.over.cached;
            queue = f.over.queue;
            kept = f.over.kept;
          };
        },
      )
    where
      more :
          (a : RequestStatus)
          → 0 < (counts d w).completed_number
          → 0 < (bump a (counts d w)).completed_number
      more RequestStatus.failed h = h
      more RequestStatus.completed h = omega arith

      unchanged :
          (a : RequestStatus)
          → 0 < (counts d w).completed_number
          → some (
              on_exhausted d
                (bump a (counts d w))
                (on_enough d a r (bump a (counts d w)) (noted d status r w)))
            ≡ some (noted d status r w)
      unchanged RequestStatus.failed h = ground arith
      unchanged RequestStatus.completed h = ground arith

  -- The first hit.
  pub answer_found :
      (r : ResponseData) (k : ℕ) (l : List StoreCall) (w : World)
      → Searching d k [] l w
      → (w' : World) × (process_get_response d RequestStatus.completed r w ≡ some w')
        × Found d (result_of (some r.nquads)) (l ++ stores_of d (some r.nquads)) w'
  unfolding on_enough on_exhausted create_response get_cached_operation_id_data
  answer_found r k l w f =
      let n : World = noted d RequestStatus.completed r w in
      let p : Payload = Payload.assertion r.nquads in
      let v : World = concluded d p n in
      let (counted, only) = counts-noted d RequestStatus.completed r w f.at.only in
      let (res, queue, operations) = store_fetched_frame d r.nquads v in
      let (res1, queue1, stored1) = concluded_frame d p n in
      (
        store_fetched d r.nquads v,
        process_get_response_lem d RequestStatus.completed r w ∙ ground (arith, f.at.counts),
        record {
          only = rw (res, res1) only;
          some_acks = rw (res, res1, counted, f.at.counts) (omega arith);
          over = record {
            status = rw operations (status_of-concluded d p n f.at.status);
            cached = cached-store_fetched d r.nquads d.operation_id v ∙ cached-concluded d p n;
            queue = queue ∙ queue1 ∙ f.at.queue;
            kept =
                stored-store_fetched d r.nquads v
                ∙ ap (λ s. s ++ stores_of d (some r.nquads)) (stored1 ∙ f.kept);
          };
        },
      )

  noted-Searching :
      (r : ResponseData) (k : ℕ) (l : List StoreCall) (w : World)
      → Searching d k [] l w
      → Searching d (suc k) [] l (noted d RequestStatus.failed r w)
  unfolding create_response
  noted-Searching r k l w f =
      let (counted, only) = counts-noted d RequestStatus.failed r w f.at.only in
      record {
        at = record {
          only = only;
          counts = counted ∙ ap (bump RequestStatus.failed) f.at.counts ∙ ground arith;
          status = f.at.status;
          queue = f.at.queue;
        };
        kept = f.kept;
      }

  missed :
      (r : ResponseData) (k : ℕ) (l : List StoreCall) (w : World)
      → Searching d k [] l w
      → process_get_response d RequestStatus.failed r w
        ≡ some (on_exhausted d (misses (suc k)) (noted d RequestStatus.failed r w))
  unfolding on_enough
  missed r k l w f =
      process_get_response_lem d RequestStatus.failed r w ∙ ground (arith, f.at.counts)

  -- A miss within a batch.
  pub answer_missed :
      (r : ResponseData) (k : ℕ) (l : List StoreCall) (w : World)
      → ends_batch d (suc k) ≡ false
      → Searching d k [] l w
      → (w' : World) × (process_get_response d RequestStatus.failed r w ≡ some w')
        × Searching d (suc k) [] l w'
  unfolding on_exhausted
  answer_missed r k l w e f =
      (noted d RequestStatus.failed r w, missed r k l w f ∙ ground arith, noted-Searching r k l w f)

  -- A miss at the end of a batch, with nodes left.
  pub answer_next :
      (r : ResponseData) (k : ℕ) (l : List StoreCall) (w : World)
      → ends_batch d (suc k) ≡ true
      → is_empty d.leftover_nodes ≡ false
      → Searching d k [] l w
      → (w' : World) × (process_get_response d RequestStatus.failed r w ≡ some w')
        × Searching d (suc k) (next_round d) l w'
  unfolding on_exhausted schedule_operation_for_leftover_nodes
  answer_next r k l w e some_left f =
      let s = noted-Searching r k l w f in
      (
        schedule_operation_for_leftover_nodes get_service d d.leftover_nodes
            (noted d RequestStatus.failed r w),
        missed r k l w f ∙ ground arith,
        record {
          at = record {
            only = s.at.only;
            counts = s.at.counts;
            status = s.at.status;
            queue = ap (λ q. q ++ next_round d) s.at.queue;
          };
          kept = s.kept;
        },
      )

  -- A miss at the last node.
  pub answer_last :
      (r : ResponseData) (k : ℕ) (l : List StoreCall) (w : World)
      → ends_batch d (suc k) ≡ true
      → is_empty d.leftover_nodes ≡ true
      → Searching d k [] l w
      → (w' : World) × (process_get_response d RequestStatus.failed r w ≡ some w')
        × Over d (result_of none) l w'
  unfolding on_exhausted
  answer_last r k l w e none_left f =
      let n : World = noted d RequestStatus.failed r w in
      let s = noted-Searching r k l w f in
      let (res, queue, stored) = concluded_frame d (result_of none) n in
      (
        concluded d (result_of none) n,
        missed r k l w f ∙ ground arith,
        record {
          status = status_of-concluded d (result_of none) n s.at.status;
          cached = cached-concluded d (result_of none) n;
          queue = queue ∙ s.at.queue;
          kept = stored ∙ s.kept;
        },
      )
