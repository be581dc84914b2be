-- ===== src/Epoch/Queries.antt =====
-- The two queries of ot-node-docker/src/modules/repository/implementation/sequelize/repositories/
-- service-agreement-repository.js that find the agreements to commit to and to prove.
use trex_dkg.Prelude.{
  ℕ, ◌+◌, ◌-◌, ◌*◌, ◌/◌, ◌%◌, Bool, true, false, Option, none, some, List, [], ◌∷◌, map, take, ltb,
  leb, ◌==◌, ◌&&◌, if◌then◌else◌,
}
use trex_dkg.Epoch.Data.{Agreement, Due}

-- `FLOOR((timestamp - start_time) / epoch_length)`, of an agreement that has started.
abbrev pub current_epoch : ℕ → Agreement → ℕ
current_epoch timestamp a = (timestamp - a.start_time) / a.epoch_length

-- An epoch that is NULL or below the current one.
abbrev pub is_before : Option ℕ → ℕ → Bool
is_before none epoch = true
is_before (some e) epoch = ltb e epoch

abbrev pub is_at : Option ℕ → ℕ → Bool
is_at none epoch = false
is_at (some e) epoch = e == epoch

-- A hundred times the part of the epoch that has passed, in units of the epoch's length: the
-- `currentEpochPerc` of the query is this by the length, without the rounding of the database.
abbrev pub epoch_perc : ℕ → Agreement → ℕ
epoch_perc timestamp a = (timestamp - a.start_time) % a.epoch_length * 100

-- An epoch of length 0 makes each comparison NULL.
unfoldable pub is_eligible_for_commit : ℕ → ℕ → ℕ → ℕ → Agreement → Bool
is_eligible_for_commit timestamp blockchain commit_window_duration_perc start_time_delay a =
    let epoch = current_epoch timestamp a in
    a.blockchain_id == blockchain
    && (ltb (a.start_time + start_time_delay) timestamp
        && (is_before a.last_commit_epoch epoch
            && (ltb (epoch_perc timestamp a) (commit_window_duration_perc * a.epoch_length)
                && ltb epoch a.epochs_number)))

unfoldable pub is_eligible_for_proof : ℕ → ℕ → ℕ → Agreement → Bool
is_eligible_for_proof timestamp blockchain proof_window_duration_perc a =
    let epoch = current_epoch timestamp a in
    let offset = a.proof_window_offset_perc * a.epoch_length in
    a.blockchain_id == blockchain
    && (ltb 0 a.epoch_length
        && (leb a.start_time timestamp
            && (is_at a.last_commit_epoch epoch
                && (is_before a.last_proof_epoch epoch
                    && (leb offset (epoch_perc timestamp a)
                        && (ltb (epoch_perc timestamp a)
                              (offset + proof_window_duration_perc * a.epoch_length)
                            && ltb epoch a.epochs_number))))))

abbrev pub rows_where : (Agreement → Bool) → List Agreement → List Agreement
rows_where test [] = []
rows_where test (a ∷ rows) = let rest = rows_where test rows in if test a then a ∷ rest else rest

abbrev pub as_due : ℕ → Agreement → Due
as_due timestamp a = record { agreement = a; current_epoch = current_epoch timestamp a }

abbrev pub limit : ℕ
limit = 500

-- The order of the database, by score function and by the time left in the window.
module _ (order_by : List Agreement → List Agreement) where
  unfoldable pub get_eligible_agreements_for_submit_commit :
      ℕ → ℕ → ℕ → ℕ → List Agreement → List Due
  get_eligible_agreements_for_submit_commit timestamp blockchain perc delay table =
      map (as_due timestamp) (
        take limit
          (order_by (rows_where (is_eligible_for_commit timestamp blockchain perc delay) table)))

  unfoldable pub get_eligible_agreements_for_submit_proof : ℕ → ℕ → ℕ → List Agreement → List Due
  get_eligible_agreements_for_submit_proof timestamp blockchain perc table =
      map (as_due timestamp)
        (take limit (order_by (rows_where (is_eligible_for_proof timestamp blockchain perc) table)))
