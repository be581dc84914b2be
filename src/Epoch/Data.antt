-- ===== src/Epoch/Data.antt =====
-- A row of the `service_agreement` table
-- (ot-node-docker/src/modules/repository/implementation/sequelize/models/service-agreement.js), and
-- the writes of the epoch check to the table (service-agreement-repository.js).
use trex_dkg.Prelude.{ℕ, Option, some, List, [], ◌∷◌, map, ◌==◌, if◌then◌else◌}

-- Times are seconds; identifiers and texts are numbers.
pub record Agreement : Type 0 where
  pub blockchain_id : ℕ
  pub contract : ℕ
  pub token_id : ℕ
  pub agreement_id : ℕ
  pub start_time : ℕ
  pub epochs_number : ℕ
  pub epoch_length : ℕ
  pub score_function_id : ℕ
  pub state_index : ℕ
  pub assertion_id : ℕ
  pub hash_function_id : ℕ
  pub keyword : ℕ
  pub proof_window_offset_perc : ℕ
  pub last_commit_epoch : Option ℕ
  pub last_proof_epoch : Option ℕ

-- A row of a query, with its `currentEpoch`.
pub record Due : Type 0 where
  pub agreement : Agreement
  pub current_epoch : ℕ

abbrev pub when_agreement : ℕ → (Agreement → Agreement) → Agreement → Agreement
when_agreement agreement_id f a = if a.agreement_id == agreement_id then f a else a

-- `updateServiceAgreementLastCommitEpoch`
unfoldable pub update_last_commit_epoch : ℕ → ℕ → List Agreement → List Agreement
update_last_commit_epoch agreement_id epoch =
    map (when_agreement agreement_id (λ a. record a { last_commit_epoch = some epoch }))

-- `updateServiceAgreementLastProofEpoch`
unfoldable pub update_last_proof_epoch : ℕ → ℕ → List Agreement → List Agreement
update_last_proof_epoch agreement_id epoch =
    map (when_agreement agreement_id (λ a. record a { last_proof_epoch = some epoch }))

-- `updateServiceAgreementRecord`: the row of the same key is replaced, or a row is added.
unfoldable pub update_service_agreement_record : Agreement → List Agreement → List Agreement
update_service_agreement_record x [] = x ∷ []
update_service_agreement_record x (a ∷ rows) =
    let rest = update_service_agreement_record x rows in
    if a.agreement_id == x.agreement_id then x ∷ rows else a ∷ rest
