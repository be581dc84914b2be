-- ===== src/Epoch/Justified.antt =====
-- What is true of each commit that is scheduled.
use trex_dkg.Prelude.{
  ℕ, ◌<◌, ◌≡◌, ◌≢◌, ◌⊎◌, inl, inr, refl, ap, ◌∙◌, Bool, true, false, not, Option, none, some, List,
  [], ◌∷◌, leb, ◌==◌, arith, dec_le, Bool-cases,
}
use trex_dkg.Sharding.Data.{Found}
use trex_dkg.Epoch.Data.{Agreement, Due}
use trex_dkg.Epoch.Ranks.{Edges, get_neighboorhood_edge_nodes}
use trex_dkg.Epoch.Commits.{
  left_of, right_of, ChainAgreement, refreshed, commit_with_edges, commit_refreshed, CommitCommand,
  Sources, refresh, neighbourhood_of, edges_of, rank_of, is_asset_synced, bid_is_enough,
  commit_command, commit_if_paid, commit_if_near, commit_of, commit_ranked, commit_to,
}

-- Score function 2 ranks by the edges of the neighbourhood, which are then sent with the commit;
-- the others rank without edges, and none are sent.
abbrev pub AreEdges : Sources → CommitCommand → Option Edges → Type 0
AreEdges x c edges =
    ((c.agreement.score_function_id ≡ 2)
      × ((e : Edges) × (get_neighboorhood_edge_nodes (x.call_proximity_function c.agreement)
              (x.position_of c.agreement) (neighbourhood_of x c.agreement)
            ≡ some e)
          × (edges ≡ some e)
          × (c.left_neighborhood_edge ≡ some e.left_edge.entry.index)
          × (c.right_neighborhood_edge ≡ some e.right_edge.entry.index)))
    ⊎ ((c.agreement.score_function_id ≢ 2)
        × (edges ≡ none)
        × (c.left_neighborhood_edge ≡ none)
        × (c.right_neighborhood_edge ≡ none))

-- The node is among the first `r0` of the neighbourhood, and has the asset or is paid for it.
pub record IsWorthwhile (x : Sources) (c : CommitCommand) : Type 0 where
  pub edges : Option Edges
  pub edged : AreEdges x c edges
  pub rank : ℕ
  pub ranked : rank_of x c.agreement edges ≡ some (some rank)
  pub near : rank < x.r0
  pub paid :
      ((c.syncs_first ≡ false) × (is_asset_synced x c.agreement ≡ some true))
      ⊎ ((c.syncs_first ≡ true) × (bid_is_enough x c.agreement ≡ some true))

module _ (x : Sources) where
  -- The edges that go with the command.
  abbrev Sent : Option Edges → CommitCommand → Type 0
  Sent edges c =
      (c.left_neighborhood_edge ≡ left_of x edges) × (c.right_neighborhood_edge ≡ right_of x edges)

  found_edges :
      (edges found : Option Edges) (c : CommitCommand)
      → (c.agreement.score_function_id == 2) ≡ true
      → get_neighboorhood_edge_nodes
          (x.call_proximity_function c.agreement)
          (x.position_of c.agreement)
          (neighbourhood_of x c.agreement)
        ≡ found
      → edges_of x c.agreement ≡ some edges
      → Sent edges c
      → AreEdges x c edges
  found_edges edges none c two f e sent = absurd (cc (rw (two, f) at e))
  found_edges edges (some es) c two f e sent =
      let made : some (some es) ≡ some edges = rw (two, f) at e in
      let same : edges ≡ some es = ground arith in
      let (left, right) : Sent (some es) c = rw same at sent in
      inl (ground arith, (es, f, same, left, right))

  edges_of-AreEdges :
      (edges : Option Edges) (c : CommitCommand)
      → edges_of x c.agreement ≡ some edges
      → Sent edges c
      → AreEdges x c edges
  edges_of-AreEdges edges c e sent = elim (Bool-cases (c.agreement.score_function_id == 2)) [
    | inl two ↦ found_edges edges _ c two refl e sent
    | inr other ↦
        let made : some none ≡ some edges = rw other at e in
        let same : edges ≡ none = ground arith in
        let (left, right) : Sent none c = rw same at sent in inr (ground arith, same, left, right)
  ]

  commit_command-some :
      (a : Agreement) (epoch : ℕ) (edges : Option Edges) (synced : Bool) (fs : List Found)
      (c : CommitCommand)
      → commit_command x a epoch edges synced fs ≡ some c
      → (c.agreement ≡ a) × (c.epoch ≡ epoch) × (c.syncs_first ≡ not synced) × Sent edges c
  commit_command-some a epoch edges synced [] c e = absurd (ground (arith, e))
  commit_command-some a epoch edges synced (f ∷ fs) c e =
      (grind (arith, e), grind (arith, e), grind (arith, e), (grind (arith, e), grind (arith, e)))

  -- The reason to commit.
  Paid : Agreement → CommitCommand → Type 0
  Paid a c =
      ((c.syncs_first ≡ false) × (is_asset_synced x a ≡ some true))
      ⊎ ((c.syncs_first ≡ true) × (bid_is_enough x a ≡ some true))

  commit_if_paid-some :
      (a : Agreement) (epoch : ℕ) (edges : Option Edges) (enough : Option Bool) (c : CommitCommand)
      → bid_is_enough x a ≡ enough
      → commit_if_paid x a epoch edges enough ≡ some c
      → Paid a c × (c.agreement ≡ a) × (c.epoch ≡ epoch) × Sent edges c
  unfolding Paid
  commit_if_paid-some a epoch edges none c h e = absurd (ground (arith, e))
  commit_if_paid-some a epoch edges (some false) c h e = absurd (ground (arith, e))
  commit_if_paid-some a epoch edges (some true) c h e =
      let (same, at, syncs, sent) =
        commit_command-some a epoch edges false (neighbourhood_of x a) c e in
      (inr (syncs, h), same, at, sent)

  commit_if_near-some :
      (a : Agreement) (epoch : ℕ) (edges : Option Edges) (synced : Option Bool) (c : CommitCommand)
      → is_asset_synced x a ≡ synced
      → commit_if_near x a epoch edges synced ≡ some c
      → Paid a c × (c.agreement ≡ a) × (c.epoch ≡ epoch) × Sent edges c
  unfolding Paid
  commit_if_near-some a epoch edges none c h e = absurd (ground (arith, e))
  commit_if_near-some a epoch edges (some true) c h e =
      let (same, at, syncs, sent) =
        commit_command-some a epoch edges true (neighbourhood_of x a) c e in
      (inl (syncs, h), same, at, sent)
  commit_if_near-some a epoch edges (some false) c h e =
      commit_if_paid-some a epoch edges (bid_is_enough x a) c refl e

  commit_of-some :
      (a : Agreement) (epoch : ℕ) (edges : Option Edges) (rank : Option ℕ) (c : CommitCommand)
      → edges_of x a ≡ some edges
      → rank_of x a edges ≡ some rank
      → commit_of x a epoch edges rank ≡ some c
      → IsWorthwhile x c × (c.agreement ≡ a) × (c.epoch ≡ epoch)
  unfolding Paid
  commit_of-some a epoch edges none c d r e = absurd (ground (arith, e))
  commit_of-some a epoch edges (some rank) c d r e = elim (dec_le x.r0 rank) [
    | yes far ↦ absurd (ground (arith, e))
    | no near ↦
        let low : leb x.r0 rank ≡ false = ground arith in
        let made : commit_if_near x a epoch edges (is_asset_synced x a) ≡ some c = rw low at e in
        let (paid, same, at, sent) =
          commit_if_near-some a epoch edges (is_asset_synced x a) c refl made in
        (
          record {
            edges = edges;
            edged = edges_of-AreEdges edges c (rw same d) sent;
            rank = rank;
            ranked = rw same r;
            near = omega arith;
            paid = rw same paid;
          },
          same,
          at,
        )
  ]

  refreshed-some :
      (a a' : Agreement) (table table' : List Agreement) (d : Option (Option ChainAgreement))
      → refreshed x a table d ≡ some (a', table')
      → a'.agreement_id ≡ a.agreement_id
  refreshed-some a a' table table' none e = absurd (ground (arith, e))
  refreshed-some a a' table table' (some none) e = absurd (ground (arith, e))
  refreshed-some a a' table table' (some (some d)) e = grind (arith, e)

  -- What refreshing keeps.
  pub refresh-some :
      (a a' : Agreement) (table table' : List Agreement)
      → refresh x a table ≡ some (a', table')
      → a'.agreement_id ≡ a.agreement_id
  refresh-some a a' table table' e = elim (Bool-cases (a.score_function_id == 0)) [
    | inl new ↦ refreshed-some a a' table table' (x.get_agreement_data a.agreement_id) (rw new at e)
    | inr old ↦ let same : some (a, table) ≡ some (a', table') = rw old at e in grind (arith, same)
  ]

  commit_ranked-some :
      (a : Agreement) (epoch : ℕ) (table : List Agreement) (edges : Option Edges)
      (rank : Option (Option ℕ)) (c : CommitCommand)
      → edges_of x a ≡ some edges
      → rank_of x a edges ≡ rank
      → (commit_ranked x a epoch table edges rank).1 ≡ some c
      → IsWorthwhile x c × (c.agreement ≡ a) × (c.epoch ≡ epoch)
  commit_ranked-some a epoch table edges none c d r e = absurd (ground (arith, e))
  commit_ranked-some a epoch table edges (some rank) c d r e =
      commit_of-some a epoch edges rank c d r e

  commit_with_edges-some :
      (a : Agreement) (epoch : ℕ) (table : List Agreement) (edges : Option (Option Edges))
      (c : CommitCommand)
      → edges_of x a ≡ edges
      → (commit_with_edges x a epoch table edges).1 ≡ some c
      → IsWorthwhile x c × (c.agreement ≡ a) × (c.epoch ≡ epoch)
  commit_with_edges-some a epoch table none c d e = absurd (ground (arith, e))
  commit_with_edges-some a epoch table (some edges) c d e =
      commit_ranked-some a epoch table edges (rank_of x a edges) c d refl e

  commit_refreshed-some :
      (a : Agreement) (epoch : ℕ) (table : List Agreement) (r : Option (Agreement × List Agreement))
      (c : CommitCommand)
      → refresh x a table ≡ r
      → (commit_refreshed x epoch table r).1 ≡ some c
      → IsWorthwhile x c × (c.agreement.agreement_id ≡ a.agreement_id) × (c.epoch ≡ epoch)
  commit_refreshed-some a epoch table none c r e = absurd (ground (arith, e))
  commit_refreshed-some a epoch table (some (a', table')) c r e =
      let (w, same, at) = commit_with_edges-some a' epoch table' (edges_of x a') c refl e in
      (w, ap (λ (b : Agreement). b.agreement_id) same ∙ refresh-some a a' table table' r, at)

  pub commit_to-some :
      (due : Due) (table : List Agreement) (c : CommitCommand)
      → (commit_to x due table).1 ≡ some c
      → IsWorthwhile x c
        × (c.agreement.agreement_id ≡ due.agreement.agreement_id)
        × (c.epoch ≡ due.current_epoch)
  unfolding commit_to
  commit_to-some due table c e =
      commit_refreshed-some due.agreement due.current_epoch table (refresh x due.agreement table) c
        refl e
