-- ===== src/Epoch/Windows.antt =====
-- The windows of an agreement.
use trex_dkg.Prelude.{ℕ, ◌≡◌, refl, false, ◌&&◌, Option, none, some, arith}
use trex_dkg.Epoch.Data.{Agreement}
use trex_dkg.Epoch.Queries.{
  current_epoch, is_before, is_at, is_eligible_for_commit, is_eligible_for_proof,
}

not_before_at : (last : Option ℕ) (epoch : ℕ) → (is_before last epoch && is_at last epoch) ≡ false
not_before_at none epoch = refl
not_before_at (some e) epoch = ground arith

-- No agreement is eligible for a commit and for a proof at the same time, whatever the windows.
pub commit_or_proof :
    (timestamp blockchain commit_perc delay proof_perc : ℕ) (a : Agreement)
    → (is_eligible_for_commit timestamp blockchain commit_perc delay a
        && is_eligible_for_proof timestamp blockchain proof_perc a)
      ≡ false
unfolding is_eligible_for_commit is_eligible_for_proof
commit_or_proof timestamp blockchain commit_perc delay proof_perc a =
    ground (arith, not_before_at a.last_commit_epoch (current_epoch timestamp a))
