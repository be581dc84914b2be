-- ===== src/Epoch/Recorded.antt =====
-- The epoch of each commit that is scheduled is written to the table.
use trex_dkg.Prelude.{
  ℕ, ◌≡◌, ◌≢◌, refl, sym, ◌∙◌, Bool, true, not, ◌&&◌, ◌||◌, Option, none, some, List, [], ◌∷◌, ◌==◌,
  arith, Bool-cases, inl, inr,
}
use trex_dkg.Epoch.Data.{Agreement, Due, update_last_commit_epoch, update_service_agreement_record}
use trex_dkg.Epoch.Queries.{is_at}
use trex_dkg.Epoch.Justified.{refresh-some, commit_to-some}
use trex_dkg.Epoch.Ranks.{Edges}
use trex_dkg.Epoch.Commits.{
  ChainAgreement, refreshed, commit_with_edges, commit_refreshed, CommitCommand, Sources, refresh,
  edges_of, rank_of, commit_ranked, commit_to,
}

-- The rows of an agreement have an epoch as their last one committed to.
abbrev pub is_committed : ℕ → ℕ → List Agreement → Bool
is_committed id epoch [] = true
is_committed id epoch (a ∷ rows) =
    let rest = is_committed id epoch rows in
    (not (a.agreement_id == id) || is_at a.last_commit_epoch epoch) && rest

update_last_commit_epoch-is_committed :
    (id epoch : ℕ) (table : List Agreement)
    → is_committed id epoch (update_last_commit_epoch id epoch table) ≡ true
unfolding update_last_commit_epoch
update_last_commit_epoch-is_committed id epoch [] = refl
update_last_commit_epoch-is_committed id epoch (a ∷ table) =
    ground (arith, update_last_commit_epoch-is_committed id epoch table)

update_last_commit_epoch-is_committed_ne :
    (id epoch other e : ℕ) (table : List Agreement)
    → other ≢ id
    → is_committed id epoch table ≡ true
    → is_committed id epoch (update_last_commit_epoch other e table) ≡ true
unfolding update_last_commit_epoch
update_last_commit_epoch-is_committed_ne id epoch other e [] ne h = refl
update_last_commit_epoch-is_committed_ne id epoch other e (a ∷ table) ne h =
    ground (arith, update_last_commit_epoch-is_committed_ne id epoch other e table ne)

update_service_agreement_record-is_committed_ne :
    (id epoch : ℕ) (x : Agreement) (table : List Agreement)
    → x.agreement_id ≢ id
    → is_committed id epoch table ≡ true
    → is_committed id epoch (update_service_agreement_record x table) ≡ true
unfolding update_service_agreement_record
update_service_agreement_record-is_committed_ne id epoch x [] ne h = ground arith
update_service_agreement_record-is_committed_ne id epoch x (a ∷ table) ne h =
    ground (arith, update_service_agreement_record-is_committed_ne id epoch x table ne)

-- What a step leaves of the rows of an agreement.
module _ (x : Sources) where
  refreshed_ne :
      (id epoch : ℕ) (a a' : Agreement) (table table' : List Agreement)
      (d : Option (Option ChainAgreement))
      → refreshed x a table d ≡ some (a', table')
      → a.agreement_id ≢ id
      → is_committed id epoch table ≡ true
      → is_committed id epoch table' ≡ true
  refreshed_ne id epoch a a' table table' none e ne h = absurd (ground (arith, e))
  refreshed_ne id epoch a a' table table' (some none) e ne h = absurd (ground (arith, e))
  refreshed_ne id epoch a a' table table' (some (some d)) e ne h =
      let new : Agreement = record a {
        start_time = d.bid_data.start_time;
        score_function_id = d.score_function_id;
        proof_window_offset_perc = d.proof_window_offset_perc;
      } in
      grind (arith, e, update_service_agreement_record-is_committed_ne id epoch new table ne h)

  refresh_ne :
      (id epoch : ℕ) (a a' : Agreement) (table table' : List Agreement)
      → refresh x a table ≡ some (a', table')
      → a.agreement_id ≢ id
      → is_committed id epoch table ≡ true
      → is_committed id epoch table' ≡ true
  refresh_ne id epoch a a' table table' e ne h = elim (Bool-cases (a.score_function_id == 0)) [
    | inl new ↦
        refreshed_ne id epoch a a' table table' (x.get_agreement_data a.agreement_id) (rw new at e)
          ne h
    | inr old ↦ let same : some (a, table) ≡ some (a', table') = rw old at e in grind (arith, same)
  ]

  commit_ranked_ne :
      (id epoch : ℕ) (a : Agreement) (e : ℕ) (table : List Agreement) (edges : Option Edges)
      (rank : Option (Option ℕ))
      → a.agreement_id ≢ id
      → is_committed id epoch table ≡ true
      → is_committed id epoch (commit_ranked x a e table edges rank).0 ≡ true
  commit_ranked_ne id epoch a e table edges none ne h = h
  commit_ranked_ne id epoch a e table edges (some rank) ne h =
      update_last_commit_epoch-is_committed_ne id epoch a.agreement_id e table ne h

  commit_with_edges_ne :
      (id epoch : ℕ) (a : Agreement) (e : ℕ) (table : List Agreement)
      (edges : Option (Option Edges))
      → a.agreement_id ≢ id
      → is_committed id epoch table ≡ true
      → is_committed id epoch (commit_with_edges x a e table edges).0 ≡ true
  commit_with_edges_ne id epoch a e table none ne h = h
  commit_with_edges_ne id epoch a e table (some edges) ne h =
      commit_ranked_ne id epoch a e table edges (rank_of x a edges) ne h

  commit_refreshed_ne :
      (id epoch : ℕ) (a : Agreement) (e : ℕ) (table : List Agreement)
      (r : Option (Agreement × List Agreement))
      → refresh x a table ≡ r
      → a.agreement_id ≢ id
      → is_committed id epoch table ≡ true
      → is_committed id epoch (commit_refreshed x e table r).0 ≡ true
  commit_refreshed_ne id epoch a e table none r ne h = h
  commit_refreshed_ne id epoch a e table (some (a', table')) r ne h =
      commit_with_edges_ne id epoch a' e table' (edges_of x a')
        (λ same. ne (sym (refresh-some x a a' table table' r) ∙ same))
        (refresh_ne id epoch a a' table table' r ne h)

  pub commit_to_ne :
      (id epoch : ℕ) (due : Due) (table : List Agreement)
      → due.agreement.agreement_id ≢ id
      → is_committed id epoch table ≡ true
      → is_committed id epoch (commit_to x due table).0 ≡ true
  unfolding commit_to
  commit_to_ne id epoch due table ne h =
      commit_refreshed_ne id epoch due.agreement due.current_epoch table
        (refresh x due.agreement table) refl ne h

  -- A step that schedules a commit has written its epoch.
  commit_ranked_self :
      (a : Agreement) (e : ℕ) (table : List Agreement) (edges : Option Edges)
      (rank : Option (Option ℕ)) (c : CommitCommand)
      → (commit_ranked x a e table edges rank).1 ≡ some c
      → is_committed a.agreement_id e (commit_ranked x a e table edges rank).0 ≡ true
  commit_ranked_self a e table edges none c h = absurd (ground (arith, h))
  commit_ranked_self a e table edges (some rank) c h =
      update_last_commit_epoch-is_committed a.agreement_id e table

  commit_with_edges_self :
      (a : Agreement) (e : ℕ) (table : List Agreement) (edges : Option (Option Edges))
      (c : CommitCommand)
      → (commit_with_edges x a e table edges).1 ≡ some c
      → is_committed a.agreement_id e (commit_with_edges x a e table edges).0 ≡ true
  commit_with_edges_self a e table none c h = absurd (ground (arith, h))
  commit_with_edges_self a e table (some edges) c h =
      commit_ranked_self a e table edges (rank_of x a edges) c h

  commit_refreshed_self :
      (a : Agreement) (e : ℕ) (table : List Agreement) (r : Option (Agreement × List Agreement))
      (c : CommitCommand)
      → refresh x a table ≡ r
      → (commit_refreshed x e table r).1 ≡ some c
      → is_committed a.agreement_id e (commit_refreshed x e table r).0 ≡ true
  commit_refreshed_self a e table none c r h = absurd (ground (arith, h))
  commit_refreshed_self a e table (some (a', table')) c r h =
      rw (← refresh-some x a a' table table' r)
        (commit_with_edges_self a' e table' (edges_of x a') c h)

  pub commit_to_self :
      (due : Due) (table : List Agreement) (c : CommitCommand)
      → (commit_to x due table).1 ≡ some c
      → is_committed c.agreement.agreement_id c.epoch (commit_to x due table).0 ≡ true
  unfolding commit_to
  commit_to_self due table c h =
      let (w, same, at) = commit_to-some x due table c h in
      rw (same, at)
        (commit_refreshed_self due.agreement due.current_epoch table (refresh x due.agreement table)
          c refl h)
