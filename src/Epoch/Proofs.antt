-- ===== src/Epoch/Proofs.antt =====
-- `scheduleCalculateProofsCommands` and `isEligibleForRewards` of
-- ot-node-docker/src/commands/protocols/ common/epoch-check/blockchain-epoch-check-command.js.
use trex_dkg.Prelude.{
  ℕ, ◌≤◌, ◌≡◌, ◌≢◌, refl, subst, sym, ap, ◌∙◌, Bool, true, false, not, ◌&&◌, Option, none, some,
  List, [], ◌∷◌, take, length, ◌==◌, if◌then◌else◌, arith, Bool-cases, inl, inr,
}
use mathlib.Core.List.{Memᴰ}
use trex_dkg.Epoch.Data.{Agreement, Due, update_last_proof_epoch}
use trex_dkg.Epoch.Queries.{
  current_epoch, is_eligible_for_proof, get_eligible_agreements_for_submit_proof, limit,
}
use trex_dkg.Epoch.Loop.{schedule, All, schedule-All, length-schedule}
use trex_dkg.Epoch.Punctual.{rows_where-Memᴰ, take-Memᴰ, as_due-Memᴰ, IsOrder}

-- One of `getTopCommitSubmissions`.
pub record Commit : Type 0 where
  pub identity_id : ℕ
  pub score : ℕ

-- `submitProofsCommand`
pub record ProofCommand : Type 0 where
  pub agreement : Agreement
  pub epoch : ℕ

-- What the check asks the blockchain for, of an agreement, an epoch and a state; `none` is an
-- exception.
pub record ProofSources : Type 0 where
  pub timestamp : ℕ
  pub r0 : ℕ
  pub own_identity : ℕ
  pub get_top_commit_submissions : ℕ → ℕ → ℕ → Option (List Commit)

abbrev pub is_rewarded : ℕ → List Commit → Bool
is_rewarded own_identity [] = false
is_rewarded own_identity (c ∷ cs) =
    let rest = is_rewarded own_identity cs in
    if c.identity_id == own_identity && not (c.score == 0) then true else rest

module _ (x : ProofSources) where
  -- `isEligibleForRewards`
  abbrev pub is_eligible_for_rewards : Option (List Commit) → Option Bool
  is_eligible_for_rewards none = none
  is_eligible_for_rewards (some commits) = some (is_rewarded x.own_identity (take x.r0 commits))

  abbrev pub commits_of : Due → Option (List Commit)
  commits_of due =
      x.get_top_commit_submissions due.agreement.agreement_id due.current_epoch
        due.agreement.state_index

  -- The epoch counts as proved from when the commits are known, also where no proof is sent.
  abbrev pub prove_if : Due → List Agreement → Option Bool → List Agreement × Option ProofCommand
  prove_if due table none = (table, none)
  prove_if due table (some eligible) = (
    update_last_proof_epoch due.agreement.agreement_id due.current_epoch table,
    if eligible
        then some (record { agreement = due.agreement; epoch = due.current_epoch })
        else none,
  )

  -- The body of the loop.
  unfoldable pub prove : Due → List Agreement → List Agreement × Option ProofCommand
  prove due table = prove_if due table (is_eligible_for_rewards (commits_of due))

  -- `scheduleCalculateProofsCommands`
  unfoldable pub schedule_calculate_proofs_commands :
      (List Agreement → List Agreement)
      → ℕ
      → ℕ
      → ℕ
      → List Agreement
      → List Agreement × List ProofCommand
  schedule_calculate_proofs_commands order_by blockchain max_transactions perc table =
      schedule prove max_transactions
        (get_eligible_agreements_for_submit_proof order_by x.timestamp blockchain perc table) table
        []

-- A proof of an eligible agreement of the table, whose commit of the epoch is among the best and has a
-- score.
pub record IsRewarding (x : ProofSources) (test : Agreement → Bool) (table : List Agreement)
    (c : ProofCommand) : Type 0 where
  pub stored : Memᴰ c.agreement table
  pub eligible : test c.agreement ≡ true
  pub now : c.epoch ≡ current_epoch x.timestamp c.agreement
  pub commits : List Commit
  pub known :
      x.get_top_commit_submissions c.agreement.agreement_id c.epoch c.agreement.state_index
      ≡ some commits
  pub commit : Commit
  pub best : Memᴰ commit (take x.r0 commits)
  pub own : commit.identity_id ≡ x.own_identity
  pub scored : commit.score ≢ 0

is_rewarded-some :
    (me : ℕ) (cs : List Commit)
    → is_rewarded me cs ≡ true
    → (c : Commit) × Memᴰ c cs × (c.identity_id ≡ me) × (c.score ≢ 0)
is_rewarded-some me [] h = absurd (ground (arith, h))
is_rewarded-some me (c ∷ cs) h = elim (Bool-cases (c.identity_id == me && not (c.score == 0))) [
  | inl own ↦ (c, Memᴰ.head refl, ground arith, ground arith)
  | inr other ↦
      let (d, i, same, scored) = is_rewarded-some me cs (rw other at h) in
      (d, Memᴰ.tail i, same, scored)
]

module _ (x : ProofSources) where
  pub prove-some :
      (due : Due) (table : List Agreement) (r : Option (List Commit)) (c : ProofCommand)
      → commits_of x due ≡ r
      → (prove_if x due table (is_eligible_for_rewards x r)).1 ≡ some c
      → (c.agreement ≡ due.agreement)
        × (c.epoch ≡ due.current_epoch)
        × (commits : List Commit) × (commits_of x due ≡ some commits)
        × (is_rewarded x.own_identity (take x.r0 commits) ≡ true)
  prove-some due table none c e h = absurd (ground (arith, h))
  prove-some due table (some commits) c e h =
      elim (Bool-cases (is_rewarded x.own_identity (take x.r0 commits))) [
        | inl good ↦
            let made : some (record { agreement = due.agreement; epoch = due.current_epoch })
                ≡ some c =
              rw good at h in
            (grind (arith, made), grind (arith, made), commits, e, good)
        | inr bad ↦ absurd (ground (arith, rw bad at h))
      ]

module _ (x : ProofSources) (order_by : List Agreement → List Agreement) (orders : IsOrder order_by)
    (blockchain perc : ℕ) (table : List Agreement) where
  abbrev can_prove : Agreement → Bool
  can_prove = is_eligible_for_proof x.timestamp blockchain perc

  abbrev proof_rows : List Due
  proof_rows = get_eligible_agreements_for_submit_proof order_by x.timestamp blockchain perc table

  prove-IsRewarding :
      (r : Due) (t : List Agreement) (c : ProofCommand)
      → Memᴰ r proof_rows
      → (prove x r t).1 ≡ some c
      → IsRewarding x can_prove table c
  unfolding get_eligible_agreements_for_submit_proof prove
  prove-IsRewarding r t c i e =
      let (a, j, same_row) = as_due-Memᴰ x.timestamp _ r i in
      let (stored, eligible) =
        rows_where-Memᴰ can_prove table a (orders _ a (take-Memᴰ limit _ a j)) in
      let (same, at, commits, known, good) = prove-some x r t (commits_of x r) c refl e in
      let (commit, best, own, scored) = is_rewarded-some x.own_identity (take x.r0 commits) good in
      let row : c.agreement ≡ a = same ∙ ap (λ (d : Due). d.agreement) same_row in
      record {
        stored = subst (λ b. Memᴰ b table) (sym row) stored;
        eligible = ap can_prove row ∙ eligible;
        now =
            at
            ∙ ap (λ (d : Due). d.current_epoch) same_row
            ∙ ap (current_epoch x.timestamp) (sym row);
        commits = commits;
        known =
            ap
              (λ (b : Agreement). x.get_top_commit_submissions b.agreement_id c.epoch b.state_index)
              same
            ∙ ap
                (λ e'.
                  x.get_top_commit_submissions r.agreement.agreement_id e' r.agreement.state_index)
                at
            ∙ known;
        commit = commit;
        best = best;
        own = own;
        scored = scored;
      }

  -- The epoch check schedules at most as many proofs as allowed, and each of them is for a row of
  -- the table that is in its proof window, committed to and not proved in its current epoch, and of
  -- which the node has one of the R0 best commits of the epoch, with a score other than 0. The
  -- database returns rows of those asked for, in some order.
  pub schedule_calculate_proofs_commands-IsRewarding :
      (max_transactions : ℕ)
      → let commands =
          (schedule_calculate_proofs_commands x order_by blockchain max_transactions perc
            table).1 in
        (length commands ≤ max_transactions) × All (IsRewarding x can_prove table) commands
  unfolding schedule_calculate_proofs_commands
  schedule_calculate_proofs_commands-IsRewarding max_transactions = (
    length-schedule (prove x) max_transactions proof_rows table [] (omega arith),
    schedule-All (prove x) (IsRewarding x can_prove table) max_transactions proof_rows table []
        prove-IsRewarding tt,
  )
