-- ===== src/Epoch/ProvedOnce.antt =====
-- A proof is scheduled once for an epoch.
use trex_dkg.Prelude.{
  ℕ, ◌≤◌, ◌≡◌, ◌≢◌, refl, subst, sym, ap, ◌∙◌, Bool, true, false, not, ◌&&◌, ◌||◌, Option, none,
  some, List, [], ◌∷◌, ◌==◌, arith,
}
use mathlib.Core.List.{Memᴰ}
use trex_dkg.Epoch.Data.{Agreement, Due, update_last_proof_epoch}
use trex_dkg.Epoch.Queries.{
  current_epoch, is_at, is_eligible_for_proof, get_eligible_agreements_for_submit_proof,
}
use trex_dkg.Epoch.Loop.{All-Memᴰ}
use trex_dkg.Epoch.Settled.{have_distinct_ids, schedule-Written}
use trex_dkg.Epoch.Once.{not_before}
use trex_dkg.Epoch.Proofs.{
  ProofCommand, ProofSources, is_eligible_for_rewards, commits_of, prove_if, prove, prove-some,
  schedule_calculate_proofs_commands,
}

-- The rows of an agreement have an epoch as their last one proved.
abbrev is_proved : ℕ → ℕ → List Agreement → Bool
is_proved id epoch [] = true
is_proved id epoch (a ∷ rows) =
    let rest = is_proved id epoch rows in
    (not (a.agreement_id == id) || is_at a.last_proof_epoch epoch) && rest

is_proved-update_last_proof_epoch :
    (id epoch : ℕ) (table : List Agreement)
    → is_proved id epoch (update_last_proof_epoch id epoch table) ≡ true
unfolding update_last_proof_epoch
is_proved-update_last_proof_epoch id epoch [] = refl
is_proved-update_last_proof_epoch id epoch (a ∷ table) =
    ground (arith, is_proved-update_last_proof_epoch id epoch table)

is_proved-update_last_proof_epoch_ne :
    (id epoch other e : ℕ) (table : List Agreement)
    → other ≢ id
    → is_proved id epoch table ≡ true
    → is_proved id epoch (update_last_proof_epoch other e table) ≡ true
unfolding update_last_proof_epoch
is_proved-update_last_proof_epoch_ne id epoch other e [] ne h = refl
is_proved-update_last_proof_epoch_ne id epoch other e (a ∷ table) ne h =
    ground (arith, is_proved-update_last_proof_epoch_ne id epoch other e table ne)

module _ (x : ProofSources) where
  prove_if_ne :
      (id epoch : ℕ) (due : Due) (table : List Agreement) (r : Option Bool)
      → due.agreement.agreement_id ≢ id
      → is_proved id epoch table ≡ true
      → is_proved id epoch (prove_if x due table r).0 ≡ true
  prove_if_ne id epoch due table none ne h = h
  prove_if_ne id epoch due table (some b) ne h =
      is_proved-update_last_proof_epoch_ne id epoch due.agreement.agreement_id due.current_epoch
        table ne h

  prove_ne :
      (due : Due) (table : List Agreement) (c : ProofCommand)
      → due.agreement.agreement_id ≢ c.agreement.agreement_id
      → is_proved c.agreement.agreement_id c.epoch table ≡ true
      → is_proved c.agreement.agreement_id c.epoch (prove x due table).0 ≡ true
  unfolding prove
  prove_ne due table c ne h =
      prove_if_ne c.agreement.agreement_id c.epoch due table
        (is_eligible_for_rewards x (commits_of x due)) ne h

  prove_if_self :
      (due : Due) (table : List Agreement) (r : Option Bool) (c : ProofCommand)
      → (prove_if x due table r).1 ≡ some c
      → is_proved due.agreement.agreement_id due.current_epoch (prove_if x due table r).0 ≡ true
  prove_if_self due table none c h = absurd (ground (arith, h))
  prove_if_self due table (some b) c h =
      is_proved-update_last_proof_epoch due.agreement.agreement_id due.current_epoch table

  prove_self :
      (due : Due) (table : List Agreement) (c : ProofCommand)
      → (prove x due table).1 ≡ some c
      → (is_proved c.agreement.agreement_id c.epoch (prove x due table).0 ≡ true)
        × (c.agreement.agreement_id ≡ due.agreement.agreement_id)
  unfolding prove
  prove_self due table c h =
      let (same, at, commits, known, good) = prove-some x due table (commits_of x due) c refl h in
      let id = ap (λ (a : Agreement). a.agreement_id) same in
      (rw (id, at) (prove_if_self due table (is_eligible_for_rewards x (commits_of x due)) c h), id)

is_proved-Memᴰ :
    (id epoch : ℕ) (table : List Agreement) (b : Agreement)
    → Memᴰ b table
    → b.agreement_id ≡ id
    → is_proved id epoch table ≡ true
    → is_at b.last_proof_epoch epoch ≡ true
is_proved-Memᴰ id epoch [] b i e h = elim i [ ]
is_proved-Memᴰ id epoch (a ∷ table) b (Memᴰ.head s) e h =
    let here : a.agreement_id ≡ id = sym (ap (λ (y : Agreement). y.agreement_id) s) ∙ e in
    subst (λ y. is_at y.last_proof_epoch epoch ≡ true) (sym s) (ground arith)
is_proved-Memᴰ id epoch (a ∷ table) b (Memᴰ.tail i) e h =
    is_proved-Memᴰ id epoch table b i e (ground arith)

not_provable :
    (t blockchain perc epoch : ℕ) (b : Agreement)
    → is_at b.last_proof_epoch epoch ≡ true
    → current_epoch t b ≤ epoch
    → is_eligible_for_proof t blockchain perc b ≡ false
unfolding is_eligible_for_proof
not_provable t blockchain perc epoch b h le =
    let late = not_before b.last_proof_epoch epoch (current_epoch t b) h le in ground (arith, late)

module _ (x : ProofSources) (order_by : List Agreement → List Agreement)
    (blockchain max_transactions perc : ℕ) (table : List Agreement) where
  abbrev proved : List Agreement × List ProofCommand
  proved = schedule_calculate_proofs_commands x order_by blockchain max_transactions perc table

  -- An agreement is proved once in an epoch: after the check, no row of an agreement for which a
  -- proof was scheduled is eligible for another at any time until its next epoch. The rows of the
  -- query are of distinct agreements, and the current epoch of the row at that time is not after
  -- that of the command.
  pub proved_once :
      (c : ProofCommand) (b : Agreement) (later : ℕ)
      → have_distinct_ids
          (get_eligible_agreements_for_submit_proof order_by x.timestamp blockchain perc table)
        ≡ true
      → Memᴰ c (proved.1)
      → Memᴰ b (proved.0)
      → b.agreement_id ≡ c.agreement.agreement_id
      → current_epoch later b ≤ c.epoch
      → is_eligible_for_proof later blockchain perc b ≡ false
  unfolding schedule_calculate_proofs_commands
  proved_once c b later d i j same early =
      let rows =
        get_eligible_agreements_for_submit_proof order_by x.timestamp blockchain perc table in
      let all =
        schedule-Written (prove x) (λ c'. c'.agreement.agreement_id)
          (λ t c'. is_proved c'.agreement.agreement_id c'.epoch t ≡ true)
          (λ r t c' ne h. prove_ne x r t c' ne h) (λ r t c' e. prove_self x r t c' e)
          max_transactions rows table [] d tt in
      not_provable later blockchain perc c.epoch b
        (is_proved-Memᴰ c.agreement.agreement_id c.epoch _ b j same (All-Memᴰ _ c _ all i)) early
