-- ===== src/Epoch/Once.antt =====
-- A commit is scheduled once for an epoch.
use trex_dkg.Prelude.{
  ℕ, ◌≤◌, ◌≡◌, subst, sym, ap, ◌∙◌, true, false, Option, none, some, List, [], ◌∷◌, arith,
}
use mathlib.Core.List.{Memᴰ}
use trex_dkg.Epoch.Data.{Agreement}
use trex_dkg.Epoch.Queries.{
  current_epoch, is_before, is_at, is_eligible_for_commit,
  get_eligible_agreements_for_submit_commit,
}
use trex_dkg.Epoch.Loop.{All-Memᴰ}
use trex_dkg.Epoch.Commits.{CommitCommand, Sources, commit_to, schedule_submit_commit_commands}
use trex_dkg.Epoch.Justified.{commit_to-some}
use trex_dkg.Epoch.Settled.{have_distinct_ids, schedule-Written}
use trex_dkg.Epoch.Recorded.{is_committed, commit_to_ne, commit_to_self}

is_committed-Memᴰ :
    (id epoch : ℕ) (table : List Agreement) (b : Agreement)
    → Memᴰ b table
    → b.agreement_id ≡ id
    → is_committed id epoch table ≡ true
    → is_at b.last_commit_epoch epoch ≡ true
is_committed-Memᴰ id epoch [] b i e h = elim i [ ]
is_committed-Memᴰ id epoch (a ∷ table) b (Memᴰ.head s) e h =
    let here : a.agreement_id ≡ id = sym (ap (λ (y : Agreement). y.agreement_id) s) ∙ e in
    subst (λ y. is_at y.last_commit_epoch epoch ≡ true) (sym s) (ground arith)
is_committed-Memᴰ id epoch (a ∷ table) b (Memᴰ.tail i) e h =
    is_committed-Memᴰ id epoch table b i e (ground arith)

pub not_before :
    (last : Option ℕ) (epoch now : ℕ)
    → is_at last epoch ≡ true
    → now ≤ epoch
    → is_before last now ≡ false
not_before none epoch now h le = absurd (ground (arith, h))
not_before (some e) epoch now h le = ground arith

not_eligible :
    (t blockchain perc delay epoch : ℕ) (b : Agreement)
    → is_at b.last_commit_epoch epoch ≡ true
    → current_epoch t b ≤ epoch
    → is_eligible_for_commit t blockchain perc delay b ≡ false
unfolding is_eligible_for_commit
not_eligible t blockchain perc delay epoch b h le =
    let late = not_before b.last_commit_epoch epoch (current_epoch t b) h le in ground (arith, late)

module _ (x : Sources) (order_by : List Agreement → List Agreement)
    (blockchain max_transactions perc delay : ℕ) (table : List Agreement) where
  abbrev out : List Agreement × List CommitCommand
  out = schedule_submit_commit_commands x order_by blockchain max_transactions perc delay table

  -- An agreement is committed to once in an epoch: after the check, no row of an agreement for
  -- which a commit was scheduled is eligible for another at any time until its next epoch. The rows
  -- of the query are of distinct agreements, and the current epoch of the row at that time is not
  -- after that of the command.
  pub committed_once :
      (c : CommitCommand) (b : Agreement) (later : ℕ)
      → have_distinct_ids (
          get_eligible_agreements_for_submit_commit order_by x.timestamp blockchain perc delay
            table)
        ≡ true
      → Memᴰ c (out.1)
      → Memᴰ b (out.0)
      → b.agreement_id ≡ c.agreement.agreement_id
      → current_epoch later b ≤ c.epoch
      → is_eligible_for_commit later blockchain perc delay b ≡ false
  unfolding schedule_submit_commit_commands
  committed_once c b later d i j same early =
      let rows =
        get_eligible_agreements_for_submit_commit order_by x.timestamp blockchain perc delay
          table in
      let all =
        schedule-Written (commit_to x) (λ c'. c'.agreement.agreement_id)
          (λ t c'. is_committed c'.agreement.agreement_id c'.epoch t ≡ true)
          (λ r t c' ne h. commit_to_ne x c'.agreement.agreement_id c'.epoch r t ne h)
          (λ r t c' e. (commit_to_self x r t c' e, (commit_to-some x r t c' e).1)) max_transactions
          rows table [] d tt in
      not_eligible later blockchain perc delay c.epoch b
        (is_committed-Memᴰ c.agreement.agreement_id c.epoch _ b j same (All-Memᴰ _ c _ all i)) early
