-- ===== src/Epoch/Commits.antt =====
-- `scheduleSubmitCommitCommands` of ot-node-docker/src/commands/protocols/common/epoch-check/
-- blockchain-epoch-check-command.js.
use trex_dkg.Prelude.{
  ℕ, zero, suc, Bool, true, false, Option, none, some, List, [], ◌∷◌, leb, not, ◌==◌, if◌then◌else◌,
}
use trex_dkg.Sharding.Data.{Peer, Found}
use trex_dkg.Sharding.Neighbourhood.{find_neighbourhood}
use trex_dkg.Sharding.Agreements.{AgreementData, calculate_bid}
use trex_dkg.Operation.Publishing.{satisfies}
use trex_dkg.Epoch.Data.{Agreement, Due, update_last_commit_epoch, update_service_agreement_record}
use trex_dkg.Epoch.Queries.{get_eligible_agreements_for_submit_commit}
use trex_dkg.Epoch.Loop.{schedule}
use trex_dkg.Epoch.Ranks.{Edges, calculate_rank, get_neighboorhood_edge_nodes}

-- `submitCommitCommand`, which comes after a `simpleAssetSyncCommand` where the asset is not synced.
pub record CommitCommand : Type 0 where
  pub agreement : Agreement
  pub epoch : ℕ
  pub closest_node : ℕ
  pub left_neighborhood_edge : Option ℕ
  pub right_neighborhood_edge : Option ℕ
  pub syncs_first : Bool

-- What `getAgreementData` returns.
pub record ChainAgreement : Type 0 where
  pub bid_data : AgreementData
  pub score_function_id : ℕ
  pub proof_window_offset_perc : ℕ

-- What the check asks other parts for; `none` is an exception, and `some none` no agreement.
pub record Sources : Type 0 where
  pub peer_id : ℕ
  pub timestamp : ℕ
  pub r0 : ℕ
  pub r2 : ℕ
  pub ask : ℕ
  pub peers : List Peer
  pub get_agreement_data : ℕ → Option (Option ChainAgreement)
  pub get_assertion_size : ℕ → Option ℕ
  pub assertion_exists : ℕ → Option Bool
  pub position_of : Agreement → ℕ
  pub call_proximity_function : Agreement → ℕ → ℕ
  pub calculate_score : Agreement → Option Edges → Found → Option ℕ

module _ (x : Sources) where
  -- The row with what the blockchain has.
  abbrev pub refreshed :
      Agreement
      → List Agreement
      → Option (Option ChainAgreement)
      → Option (Agreement × List Agreement)
  refreshed a table (some (some d)) =
      let a' : Agreement = record a {
        start_time = d.bid_data.start_time;
        score_function_id = d.score_function_id;
        proof_window_offset_perc = d.proof_window_offset_perc;
      } in
      some (a', update_service_agreement_record a' table)
  refreshed a table _ = none

  -- A row that was written before the blockchain was read is refreshed; `none` where the loop goes on
  -- with the next row.
  abbrev pub refresh : Agreement → List Agreement → Option (Agreement × List Agreement)
  refresh a table =
      if a.score_function_id == 0
      then refreshed a table (x.get_agreement_data a.agreement_id)
      else some (a, table)

  abbrev pub neighbourhood_of : Agreement → List Found
  neighbourhood_of a = find_neighbourhood (x.call_proximity_function a) a.blockchain_id x.r2 x.peers

  -- Score function 2 needs the edges of the neighbourhood.
  abbrev pub edges_of : Agreement → Option (Option Edges)
  edges_of a =
      if a.score_function_id == 2
      then elim (get_neighboorhood_edge_nodes (x.call_proximity_function a) (x.position_of a)
          (neighbourhood_of a)) [ none ↦ none | some e ↦ some (some e) ]
      else some none

  abbrev pub rank_of : Agreement → Option Edges → Option (Option ℕ)
  rank_of a edges = calculate_rank (x.calculate_score a) x.peer_id (neighbourhood_of a) edges

  -- `Boolean(serviceAgreement.lastProofEpoch)`
  abbrev pub has_proved : Option ℕ → Bool
  has_proved none = false
  has_proved (some zero) = false
  has_proved (some (suc n)) = true

  abbrev pub is_asset_synced : Agreement → Option Bool
  is_asset_synced a =
      if has_proved a.last_proof_epoch then some true else x.assertion_exists a.assertion_id

  -- `!serviceAgreementBid.lt(ask)`
  abbrev pub bid_is_enough : Agreement → Option Bool
  bid_is_enough a = elim (x.get_agreement_data a.agreement_id) [
    | none ↦ none
    | some none ↦ none
    | some (some d) ↦ elim (x.get_assertion_size a.assertion_id) [
      | none ↦ none
      | some size ↦ elim (calculate_bid x.timestamp size d.bid_data x.r0) [
        | none ↦ none
        | some bid ↦ some (satisfies bid x.ask)
      ]
    ]
  ]

  abbrev pub left_of : Option Edges → Option ℕ
  left_of none = none
  left_of (some e) = some e.left_edge.entry.index

  abbrev pub right_of : Option Edges → Option ℕ
  right_of none = none
  right_of (some e) = some e.right_edge.entry.index

  -- `neighbourhood[0].index`; `none` is the TypeError of an empty neighbourhood.
  abbrev pub commit_command :
      Agreement → ℕ → Option Edges → Bool → List Found → Option CommitCommand
  commit_command a epoch edges synced [] = none
  commit_command a epoch edges synced (f ∷ fs) = some (record {
    agreement = a;
    epoch = epoch;
    closest_node = f.entry.index;
    left_neighborhood_edge = left_of edges;
    right_neighborhood_edge = right_of edges;
    syncs_first = not synced;
  })

  -- Where the asset is not synced, by whether the bid is enough.
  abbrev pub commit_if_paid : Agreement → ℕ → Option Edges → Option Bool → Option CommitCommand
  commit_if_paid a epoch edges (some true) = commit_command a epoch edges false (neighbourhood_of a)
  commit_if_paid a epoch edges _ = none

  -- By whether the asset is synced.
  abbrev pub commit_if_near : Agreement → ℕ → Option Edges → Option Bool → Option CommitCommand
  commit_if_near a epoch edges (some true) = commit_command a epoch edges true (neighbourhood_of a)
  commit_if_near a epoch edges (some false) = commit_if_paid a epoch edges (bid_is_enough a)
  commit_if_near a epoch edges none = none

  -- The command of a node whose rank is known.
  abbrev pub commit_of : Agreement → ℕ → Option Edges → Option ℕ → Option CommitCommand
  commit_of a epoch edges none = none
  commit_of a epoch edges (some rank) =
      if leb x.r0 rank then none else commit_if_near a epoch edges (is_asset_synced a)

  -- The epoch counts as committed from when the rank is known, whatever comes of it.
  abbrev pub commit_ranked :
      Agreement
      → ℕ
      → List Agreement
      → Option Edges
      → Option (Option ℕ)
      → List Agreement × Option CommitCommand
  commit_ranked a epoch table edges none = (table, none)
  commit_ranked a epoch table edges (some rank) =
      (update_last_commit_epoch a.agreement_id epoch table, commit_of a epoch edges rank)

  abbrev pub commit_with_edges :
      Agreement → ℕ → List Agreement → Option (Option Edges) → List Agreement × Option CommitCommand
  commit_with_edges a epoch table none = (table, none)
  commit_with_edges a epoch table (some edges) = commit_ranked a epoch table edges (rank_of a edges)

  abbrev pub commit_refreshed :
      ℕ
      → List Agreement
      → Option (Agreement × List Agreement)
      → List Agreement × Option CommitCommand
  commit_refreshed epoch table none = (table, none)
  commit_refreshed epoch table (some (a, table')) = commit_with_edges a epoch table' (edges_of a)

  -- The body of the loop.
  unfoldable pub commit_to : Due → List Agreement → List Agreement × Option CommitCommand
  commit_to due table = commit_refreshed due.current_epoch table (refresh due.agreement table)

  -- `scheduleSubmitCommitCommands` of a node that is in the sharding table.
  unfoldable pub schedule_submit_commit_commands :
      (List Agreement → List Agreement)
      → ℕ
      → ℕ
      → ℕ
      → ℕ
      → List Agreement
      → List Agreement × List CommitCommand
  schedule_submit_commit_commands order_by blockchain max_transactions perc delay table =
      schedule commit_to max_transactions
        (get_eligible_agreements_for_submit_commit order_by x.timestamp blockchain perc delay table)
        table []
