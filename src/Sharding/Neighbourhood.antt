-- ===== src/Sharding/Neighbourhood.antt =====
-- `findNeighbourhood` and `sortPeers` of ot-node-docker/src/service/sharding-table-service.js, with
-- the query of shard-repository.js that they start from, and the two commands that use the
-- neighbourhood: find-nodes-command.js and `validateNeighborhood`.
use trex_dkg.Prelude.{
  ℕ, suc, Bool, false, Option, none, some, List, [], ◌∷◌, map, length, take, ltb, leb, ◌==◌, ◌||◌,
  if◌then◌else◌,
}
use trex_dkg.Sharding.Data.{Peer, Indexed, Found}
use trex_dkg.Sharding.Order.{sort_by}

unfoldable pub peers_of : ℕ → List Peer → List Peer
peers_of blockchain [] = []
peers_of blockchain (p ∷ ps) =
    let rest = peers_of blockchain ps in if p.blockchain_id == blockchain then p ∷ rest else rest

-- `getAllPeerRecords`: in the order of `sha256`.
unfoldable pub get_all_peer_records : ℕ → List Peer → List Peer
get_all_peer_records blockchain table = sort_by (λ p. p.sha256) (peers_of blockchain table)

abbrev pub indexed : ℕ → List Peer → List Indexed
indexed i [] = []
indexed i (p ∷ ps) = record { peer = p; index = i } ∷ indexed (suc i) ps

-- The proximity function, the chosen pair and the key's hash applied: the distance of a peer's hash.
module _ (distance_of : ℕ → ℕ) where
  abbrev pub with_distance : Indexed → Found
  with_distance e = record { entry = e; distance = distance_of e.peer.sha256 }

  -- `sortPeers`
  unfoldable pub sort_peers : List Indexed → ℕ → List Found
  sort_peers peers count = take count (sort_by (λ f. f.distance) (map with_distance peers))

  -- `findNeighbourhood`
  unfoldable pub find_neighbourhood : ℕ → ℕ → List Peer → List Found
  find_neighbourhood blockchain r2 table =
      sort_peers (indexed 0 (get_all_peer_records blockchain table)) r2

  abbrev pub peer_of : Found → Peer
  peer_of f = f.entry.peer

  -- `closestNodes.filter((node) => node.lastSeen >= node.lastDialed)`, and the identifiers.
  unfoldable pub available : List Found → List ℕ
  available [] = []
  available (f ∷ fs) =
      let rest = available fs in
      if leb f.entry.peer.last_dialed f.entry.peer.last_seen
      then f.entry.peer.peer_id ∷ rest
      else rest

  -- `findNodes`, without the two updates of the operation's status.
  unfoldable pub find_nodes : ℕ → ℕ → List Peer → List ℕ
  find_nodes blockchain r2 table = available (find_neighbourhood blockchain r2 table)

  -- The loop of `FindNodesCommand.execute`: the node itself is left out.
  unfoldable pub others : ℕ → List ℕ → List ℕ
  others me [] = []
  others me (n ∷ ns) = let rest = others me ns in if n == me then rest else n ∷ rest

  -- `execute`: the nodes that the sequence goes on with, or `none` where the operation is failed.
  unfoldable pub leftover_of : ℕ → ℕ → ℕ → ℕ → List Peer → Option (List ℕ)
  leftover_of me min_ack_responses blockchain r2 table =
      let closest_nodes = others me (find_nodes blockchain r2 table) in
      if ltb (length closest_nodes) min_ack_responses then none else some closest_nodes

  abbrev pub includes_peer : ℕ → List Found → Bool
  includes_peer me [] = false
  includes_peer me (f ∷ fs) = f.entry.peer.peer_id == me || includes_peer me fs

  -- `validateNeighborhood`
  unfoldable pub validate_neighborhood : ℕ → ℕ → ℕ → List Peer → Bool
  validate_neighborhood me blockchain r2 table =
      includes_peer me (find_neighbourhood blockchain r2 table)
