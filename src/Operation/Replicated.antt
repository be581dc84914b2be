-- ===== src/Operation/Replicated.antt =====
-- How a publish or an update ends: it is completed if enough nodes acknowledge, and otherwise it
-- fails after every node has been asked.
use trex_dkg.Prelude.{
  ℕ, suc, ◌+◌, ◌%◌, ◌<◌, ◌≤◌, ◌≡◌, ◌⊎◌, inl, inr, refl, true, some, List, [], ◌∷◌, map, length, leb,
  if◌then◌else◌, arith, dec_le,
}
use trex_dkg.Operation.Data.{RequestStatus, OperationStatus, Scheduled, CommandData, World}
use trex_dkg.Operation.Service.{Service, Counts, bump}
use trex_dkg.Operation.Replication.{is_empty}
use trex_dkg.Operation.Schedule.{MessageCommand}
use trex_dkg.Operation.Outcome.{Outcome, fails, next, waits, outcome}
use trex_dkg.Operation.Effects.{status_after, scheduled_after}
use trex_dkg.Operation.Batches.{
  batch_end, fills_batches-inside, count_answers, total, completed-bump, total-bump,
  completed-count_answers,
}
use trex_dkg.Operation.Run.{
  replies, answer_all, At, answer_step, outcome-late, outcome-enough, outcome-inside, outcome-end,
}

pub le→leb : (a b : ℕ) → a ≤ b → leb a b ≡ true
le→leb a b h = ground arith

-- A batch as it is sent: the nodes of the batch, and a command `d` that has what is left over.
abbrev pub batch : CommandData → List ℕ → List MessageCommand
batch d = map (λ n. record { node = n; command = d; delay = 0; period = 5000; retries = 3 })

module _ (s : Service) (d : CommandData) (answer : ℕ → RequestStatus) where
  -- Once enough have acknowledged, the other answers of the batch change nothing.
  answer_all-late :
      (ns : List ℕ) (c : Counts) (st : OperationStatus) (w : World)
      → d.min_ack_responses ≤ c.completed_number
      → At s d c st [] w
      → (w' : World) × (answer_all (replies s answer) (batch d ns) w ≡ some w')
        × At s d (count_answers answer c ns) st [] w'
  unfolding answer_all
  answer_all-late [] c st w h at = (w, refl, at)
  answer_all-late (n ∷ ns) c st w h at =
      let (w1, e1, at1) = answer_step s d (answer n) c st w at in
      let late = outcome-late d (answer n) c h in
      let (w2, e2, at2) =
        answer_all-late ns (bump (answer n) c) st w1 (omega (arith, completed-bump (answer n) c))
          (rw late at at1) in
      (w2, rw (e1, answer_all) e2, at2)

  abbrev pub final_status : Counts → OperationStatus → OperationStatus
  final_status c st =
      if leb d.min_ack_responses c.completed_number
      then OperationStatus.completed
      else if is_empty d.leftover_nodes
      then OperationStatus.failed
      else st

  abbrev pub final_queue : Counts → List Scheduled
  final_queue c =
      if leb d.min_ack_responses c.completed_number
      then []
      else if is_empty d.leftover_nodes
      then []
      else record { operation = s.operation_name; command = d } ∷ []

  reached :
      (ns : List ℕ) (c : Counts)
      → d.min_ack_responses ≤ c.completed_number
      → leb d.min_ack_responses (count_answers answer c ns).completed_number ≡ true
  reached ns c h = le→leb _ _ (omega (arith, completed-count_answers answer c ns))

  -- The last answer of a batch that does not reach the required number.
  abbrev last : Outcome
  last = if is_empty d.leftover_nodes then fails else next

  last_status :
      (c : Counts) (st : OperationStatus)
      → c.completed_number < d.min_ack_responses
      → status_after last st ≡ final_status c st
  last_status c st h = ground arith

  last_queue :
      (c : Counts)
      → c.completed_number < d.min_ack_responses
      → scheduled_after s d last ≡ final_queue c
  last_queue c h = ground arith

  -- A batch that begins after `q` answers, a multiple of the batch size, and goes up to the next
  -- multiple or to the last node.
  pub answer_all-batch :
      (n : ℕ) (ns : List ℕ) (q : ℕ) (c : Counts) (st : OperationStatus) (w : World)
      → q % d.batch_size ≡ 0
      → c.completed_number < d.min_ack_responses
      → q ≤ total c
      → total c + suc (length ns) ≤ q + d.batch_size
      → total c + suc (length ns) ≤ d.number_of_found_nodes
      → (total c + suc (length ns) ≡ d.number_of_found_nodes)
        ⊎ (total c + suc (length ns) ≡ q + d.batch_size)
      → At s d c st [] w
      → (w' : World) × (answer_all (replies s answer) (batch d (n ∷ ns)) w ≡ some w')
        × At s d
            (count_answers answer c (n ∷ ns))
            (final_status (count_answers answer c (n ∷ ns)) st)
            (final_queue (count_answers answer c (n ∷ ns)))
            w'
  unfolding answer_all
  answer_all-batch n [] q c st w mult less lo hi found stop at =
      let c1 : Counts = bump (answer n) c in
      let (w1, e1, at1) = answer_step s d (answer n) c st w at in
      elim (dec_le d.min_ack_responses c1.completed_number) [
        | yes enough ↦ (
          w1,
          rw (e1, answer_all),
          rw (reached [] c1 enough) (rw (outcome-enough d (answer n) c less enough) at at1),
        )
        | no few ↦
            let e : outcome d (answer n) c1 ≡ last = outcome-end d (answer n) c1 (omega arith) (
              batch_end (total c) (total c1) q d.batch_size d.number_of_found_nodes mult lo
                (total-bump (answer n) c) stop) in
            (
              w1,
              rw (e1, answer_all),
              rw (← last_status c1 st (omega arith), ← last_queue c1 (omega arith)) (rw e at at1),
            )
      ]
  answer_all-batch n (n' ∷ ns) q c st w mult less lo hi found stop at =
      let c1 : Counts = bump (answer n) c in
      let (w1, e1, at1) = answer_step s d (answer n) c st w at in
      elim (dec_le d.min_ack_responses c1.completed_number) [
        | yes enough ↦
            let (w2, e2, at2) =
              answer_all-late (n' ∷ ns) c1 OperationStatus.completed w1 enough
                (rw (outcome-enough d (answer n) c less enough) at at1) in
            (w2, rw (e1, answer_all) e2, rw (reached (n' ∷ ns) c1 enough) at2)
        | no few ↦
            let e : outcome d (answer n) c1 ≡ waits =
              outcome-inside d (answer n) c1 (omega arith) (omega (arith, total-bump (answer n) c))
                (fills_batches-inside q (total c1) d.batch_size mult
                  (omega (arith, total-bump (answer n) c))
                  (omega (arith, total-bump (answer n) c))) in
            let (w2, e2, at2) =
              answer_all-batch n' ns q c1 st w1 mult (omega arith)
                (omega (arith, total-bump (answer n) c)) (omega (arith, total-bump (answer n) c))
                (omega (arith, total-bump (answer n) c))
                (elim stop [
                  | inl k ↦ inl (omega (arith, total-bump (answer n) c))
                  | inr k ↦ inr (omega (arith, total-bump (answer n) c))
                ])
                (rw e at at1) in
            (w2, rw (e1, answer_all) e2, at2)
      ]
