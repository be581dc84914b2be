-- ===== src/Epoch/Tests.antt =====
-- Three agreements: one to commit to, one that is committed to and to be proved, one whose commit
-- window is over.
use trex_dkg.Prelude.{
  ℕ, ◌≤◌, ◌≡◌, ◌&&◌, refl, true, false, none, some, List, [], ◌∷◌, length, arith,
}
use mathlib.Core.List.{Memᴰ}
use trex_dkg.Sharding.Data.{Peer, Found}
use trex_dkg.Sharding.Order.{sort_by}
use trex_dkg.Sharding.Neighbourhood.{peers_of, get_all_peer_records, sort_peers, find_neighbourhood}
use trex_dkg.Epoch.Data.{Agreement, update_last_commit_epoch, update_last_proof_epoch}
use trex_dkg.Epoch.Queries.{
  is_eligible_for_commit, is_eligible_for_proof, get_eligible_agreements_for_submit_commit,
  get_eligible_agreements_for_submit_proof,
}
use trex_dkg.Epoch.Loop.{schedule, All}
use trex_dkg.Epoch.Ranks.{calculate_rank}
use trex_dkg.Epoch.Windows.{commit_or_proof}
use trex_dkg.Epoch.ProvedOnce.{proved_once}
use trex_dkg.Epoch.Rank.{calculate_rank_lem}
use trex_dkg.Epoch.Commits.{CommitCommand, Sources, commit_to, schedule_submit_commit_commands}
use trex_dkg.Epoch.Punctual.{IsDue, schedule_submit_commit_commands-IsDue}
use trex_dkg.Epoch.Once.{committed_once}
use trex_dkg.Epoch.Proofs.{
  ProofCommand, prove, ProofSources, schedule_calculate_proofs_commands, IsRewarding,
  schedule_calculate_proofs_commands-IsRewarding,
}

abbrev agreement : ℕ → ℕ → Agreement
agreement id start_time = record {
  blockchain_id = 1;
  contract = 0;
  token_id = id;
  agreement_id = id;
  start_time = start_time;
  epochs_number = 5;
  epoch_length = 100;
  score_function_id = 1;
  state_index = 0;
  assertion_id = id;
  hash_function_id = 1;
  keyword = id;
  proof_window_offset_perc = 5;
  last_commit_epoch = none;
  last_proof_epoch = none;
}

abbrev to_commit : Agreement
to_commit = agreement 1 100

abbrev table : List Agreement
table = to_commit ∷ record (agreement 2 200) { last_commit_epoch = some 1 } ∷ agreement 3 150 ∷ []

abbrev peer : ℕ → ℕ → Peer
peer id stake = record {
  peer_id = id;
  blockchain_id = 1;
  ask = 10;
  stake = stake;
  last_seen = 0;
  last_dialed = 0;
  sha256 = id;
}

-- The node is the second of two, and has the asset.
abbrev sources : Sources
sources = record {
  peer_id = 7;
  timestamp = 310;
  r0 = 2;
  r2 = 20;
  ask = 10;
  peers = peer 6 50 ∷ peer 7 40 ∷ [];
  get_agreement_data = λ id. none;
  get_assertion_size = λ id. none;
  assertion_exists = λ id. some true;
  position_of = λ a. 0;
  call_proximity_function = λ a h. h;
  calculate_score = λ a e f. some f.entry.peer.stake;
}

abbrev commit : CommitCommand
commit = record {
  agreement = to_commit;
  epoch = 2;
  closest_node = 0;
  left_neighborhood_edge = none;
  right_neighborhood_edge = none;
  syncs_first = false;
}

-- One commit is scheduled.
one_commit : schedule_submit_commit_commands sources (λ l. l) 1 5 25 0 table ≡ (
  record to_commit { last_commit_epoch = some 2 }
      ∷ record (agreement 2 200) { last_commit_epoch = some 1 }
      ∷ agreement 3 150
      ∷ [],
  commit ∷ [],
)
unfolding schedule_submit_commit_commands schedule commit_to
    get_eligible_agreements_for_submit_commit is_eligible_for_commit calculate_rank
    find_neighbourhood sort_peers sort_by get_all_peer_records peers_of update_last_commit_epoch
one_commit = refl

schedule_submit_commit_commands-IsDue_example :
    let commands = (schedule_submit_commit_commands sources (λ l. l) 1 5 25 0 table).1 in
    (length commands ≤ 5) × All (IsDue sources (is_eligible_for_commit 310 1 25 0) table) commands
schedule_submit_commit_commands-IsDue_example =
    schedule_submit_commit_commands-IsDue sources (λ l. l) (λ l a i. i) 1 25 0 table 5

-- Ten seconds later the agreement is not committed to again.
committed_once_example :
    is_eligible_for_commit 320 1 25 0 (record to_commit { last_commit_epoch = some 2 }) ≡ false
unfolding schedule_submit_commit_commands schedule commit_to
    get_eligible_agreements_for_submit_commit is_eligible_for_commit calculate_rank
    find_neighbourhood sort_peers sort_by get_all_peer_records peers_of update_last_commit_epoch
committed_once_example =
    committed_once sources (λ l. l) 1 5 25 0 table commit
      (record to_commit { last_commit_epoch = some 2 }) 320 refl (Memᴰ.head refl) (Memᴰ.head refl)
      refl (omega arith)

abbrev proof_sources : ProofSources
proof_sources = record {
  timestamp = 310;
  r0 = 3;
  own_identity = 40;
  get_top_commit_submissions = λ id epoch state.
      some
        (record { identity_id = 30; score = 900 } ∷ record { identity_id = 40; score = 800 } ∷ []);
}

schedule_calculate_proofs_commands-IsRewarding_example :
    let commands = (schedule_calculate_proofs_commands proof_sources (λ l. l) 1 5 25 table).1 in
    (length commands ≤ 5)
    × All (IsRewarding proof_sources (is_eligible_for_proof 310 1 25) table) commands
schedule_calculate_proofs_commands-IsRewarding_example =
    schedule_calculate_proofs_commands-IsRewarding proof_sources (λ l. l) (λ l a i. i) 1 25 table 5

-- Of four nodes, one has a higher score and one before it the same.
abbrev neighbours : List Found
neighbours =
    record { entry = record { peer = peer 5 40; index = 0 }; distance = 1 }
    ∷ record { entry = record { peer = peer 7 40; index = 1 }; distance = 2 }
    ∷ record { entry = record { peer = peer 6 50; index = 2 }; distance = 3 }
    ∷ record { entry = record { peer = peer 8 40; index = 3 }; distance = 4 }
    ∷ []

calculate_rank_lem_example :
    calculate_rank (λ e f. some f.entry.peer.stake) 7 neighbours none ≡ some (some 2)
calculate_rank_lem_example =
    calculate_rank_lem (λ e f. some f.entry.peer.stake) none neighbours
      (record { score = 40; peer_id = 5 } ∷ [])
      (record { score = 50; peer_id = 6 } ∷ record { score = 40; peer_id = 8 } ∷ [])
      (record { score = 40; peer_id = 7 }) refl refl refl

commit_or_proof_example :
    (is_eligible_for_commit 310 1 25 0 to_commit && is_eligible_for_proof 310 1 25 to_commit)
    ≡ false
commit_or_proof_example = commit_or_proof 310 1 25 0 25 to_commit

abbrev proof_command : ProofCommand
proof_command = record {
  agreement = record (agreement 2 200) { last_commit_epoch = some 1 };
  epoch = 1;
}

-- Ten seconds later the agreement is not proved again.
proved_once_example :
    is_eligible_for_proof 320 1 25
      (record (agreement 2 200) { last_commit_epoch = some 1; last_proof_epoch = some 1 })
    ≡ false
unfolding schedule_calculate_proofs_commands schedule prove get_eligible_agreements_for_submit_proof
    is_eligible_for_proof update_last_proof_epoch
proved_once_example =
    proved_once proof_sources (λ l. l) 1 5 25 table proof_command
      (record (agreement 2 200) { last_commit_epoch = some 1; last_proof_epoch = some 1 }) 320 refl
      (Memᴰ.head refl) (Memᴰ.tail (Memᴰ.head refl)) refl (omega arith)
