-- ===== src/Operation/FetchBatch.antt =====
-- One batch of a get.
use trex_dkg.Prelude.{
  ℕ, suc, ◌+◌, ◌%◌, ◌<◌, ◌≤◌, ◌≡◌, ◌⊎◌, inl, inr, refl, String, true, false, Option, none, some,
  List, [], ◌∷◌, ◌++◌, length, arith, Bool-cases, subst,
}
use trex_dkg.Operation.Data.{RequestStatus, Payload, StoreCall, CommandData, World}
use trex_dkg.Operation.Replication.{is_empty}
use trex_dkg.Operation.Batches.{batch_end, fills_batches-inside}
use trex_dkg.Operation.Run.{answer_all}
use trex_dkg.Operation.Replicated.{batch}
use trex_dkg.Operation.Fetching.{Answer, fetches, first_found, result_of, stores_of}
use trex_dkg.Operation.Searching.{Searching, Over, Found}
use trex_dkg.Operation.Fetched.{
  answer_late, answer_found, ends_batch, answer_missed, answer_next, answer_last, next_round,
}

status_cases : (a : RequestStatus) → (a ≡ RequestStatus.failed) ⊎ (a ≡ RequestStatus.completed)
status_cases RequestStatus.failed = inl refl
status_cases RequestStatus.completed = inr refl

-- After a batch, by the quads that were found.
pub data After (d : CommandData) (k : ℕ) (l : List StoreCall) (x : Option (List String)) (w : World)
    : Type 0 where
  found :
      (y : List String)
      → x ≡ some y
      → Found d (result_of (some y)) (l ++ stores_of d (some y)) w
      → After d k l x w
  gave_up :
      x ≡ none → is_empty d.leftover_nodes ≡ true → Over d (result_of none) l w → After d k l x w
  goes_on :
      x ≡ none
      → is_empty d.leftover_nodes ≡ false
      → Searching d k (next_round d) l w
      → After d k l x w

module _ (d : CommandData) (one : d.min_ack_responses ≡ 1) (answer : ℕ → Answer) where
  answer_all-Found :
      (ns : List ℕ) (p : Payload) (l : List StoreCall) (w : World)
      → Found d p l w
      → (w' : World) × (answer_all (fetches answer) (batch d ns) w ≡ some w') × Found d p l w'
  unfolding answer_all
  answer_all-Found [] p l w f = (w, refl, f)
  answer_all-Found (n ∷ ns) p l w f =
      let (w1, e1, f1) = answer_late d one (answer n).0 (answer n).1 p l w f in
      let (w2, e2, f2) = answer_all-Found ns p l w1 f1 in (w2, rw (e1, answer_all) e2, f2)

  ends_batch-end :
      (k q : ℕ)
      → q % d.batch_size ≡ 0
      → q ≤ k
      → (k + 1 ≡ d.number_of_found_nodes) ⊎ (k + 1 ≡ q + d.batch_size)
      → ends_batch d (suc k) ≡ true
  ends_batch-end k q mult lo stop =
      elim (batch_end k (suc k) q d.batch_size d.number_of_found_nodes mult lo (omega arith) stop) [
        | inl e ↦ ground arith
        | inr e ↦ ground arith
      ]

  ends_batch-inside :
      (k q : ℕ)
      → q % d.batch_size ≡ 0
      → q ≤ k
      → suc k < q + d.batch_size
      → suc k < d.number_of_found_nodes
      → ends_batch d (suc k) ≡ false
  ends_batch-inside k q mult lo hi less =
      let e = fills_batches-inside q (suc k) d.batch_size mult (omega arith) hi in ground arith

  pub answer_all-fetch :
      (n : ℕ) (ns : List ℕ) (q k : ℕ) (l : List StoreCall) (w : World)
      → q % d.batch_size ≡ 0
      → q ≤ k
      → k + suc (length ns) ≤ q + d.batch_size
      → k + suc (length ns) ≤ d.number_of_found_nodes
      → (k + suc (length ns) ≡ d.number_of_found_nodes) ⊎ (k + suc (length ns) ≡ q + d.batch_size)
      → Searching d k [] l w
      → (w' : World) × (answer_all (fetches answer) (batch d (n ∷ ns)) w ≡ some w')
        × After d (k + suc (length ns)) l (first_found answer (n ∷ ns)) w'
  unfolding answer_all
  answer_all-fetch n [] q k l w mult lo hi fits stop f = elim (status_cases (answer n).0) [
    | inr hit ↦
        let (w1, e1, f1) = answer_found d one (answer n).1 k l w f in
        (w1, rw (hit, e1, answer_all), rw hit (found _ refl f1))
    | inl miss ↦
        let e = ends_batch-end k q mult lo stop in
        elim (Bool-cases (is_empty d.leftover_nodes)) [
          | inl none_left ↦
              let (w1, e1, f1) = answer_last d one (answer n).1 k l w e none_left f in
              (w1, rw (miss, e1, answer_all), rw miss (gave_up refl none_left f1))
          | inr some_left ↦
              let (w1, e1, f1) = answer_next d one (answer n).1 k l w e some_left f in
              (
                w1,
                rw (miss, e1, answer_all),
                rw miss (
                    goes_on refl some_left
                      (subst (λ j. Searching d j (next_round d) l w1) (omega arith) f1)),
              )
        ]
  ]
  answer_all-fetch n (n' ∷ ns) q k l w mult lo hi fits stop f = elim (status_cases (answer n).0) [
    | inr hit ↦
        let (w1, e1, f1) = answer_found d one (answer n).1 k l w f in
        let (w2, e2, f2) = answer_all-Found (n' ∷ ns) _ _ w1 f1 in
        (w2, rw (hit, e1, answer_all) e2, rw hit (found _ refl f2))
    | inl miss ↦
        let (w1, e1, f1) =
          answer_missed d one (answer n).1 k l w
            (ends_batch-inside k q mult lo (omega arith) (omega arith)) f in
        let (w2, e2, f2) =
          answer_all-fetch n' ns q (suc k) l w1 mult (omega arith) (omega arith) (omega arith)
            (elim stop [ inl e ↦ inl (omega arith) | inr e ↦ inr (omega arith) ]) f1 in
        (
          w2,
          rw (miss, e1, answer_all) e2,
          rw miss (subst (λ j. After d j l (first_found answer (n' ∷ ns)) w2) (omega arith) f2),
        )
  ]
