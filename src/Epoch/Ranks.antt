-- ===== src/Epoch/Ranks.antt =====
-- `calculateRank` of ot-node-docker/src/service/service-agreement-service.js, and
-- `getNeighboorhoodEdgeNodes` of sharding-table-service.js.
use trex_dkg.Prelude.{
  ℕ, suc, ◌-◌, Bool, false, Option, none, some, List, [], ◌∷◌, ◌++◌, leb, ◌==◌, ◌||◌, if◌then◌else◌,
}
use trex_dkg.Sharding.Data.{Found}

-- `{ score, peerId }`
pub record Score : Type 0 where
  pub score : ℕ
  pub peer_id : ℕ

-- `scores.sort((a, b) => b.score - a.score)`, which is stable.
abbrev pub insert_score : Score → List Score → List Score
insert_score x [] = x ∷ []
insert_score x (y ∷ ys) =
    let rest = insert_score x ys in if leb y.score x.score then x ∷ y ∷ ys else y ∷ rest

abbrev pub sort_scores : List Score → List Score
sort_scores [] = []
sort_scores (x ∷ xs) = insert_score x (sort_scores xs)

-- `scores.findIndex((node) => node.peerId === peerId)`; `none` is -1.
abbrev pub find_index : ℕ → List Score → Option ℕ
find_index peer_id [] = none
find_index peer_id (x ∷ xs) =
    let rest = find_index peer_id xs in
    if x.peer_id == peer_id then some 0 else elim rest [ none ↦ none | some i ↦ some (suc i) ]

-- `{ leftEdge, rightEdge }`
pub record Edges : Type 0 where
  pub left_edge : Found
  pub right_edge : Found

-- `neighbourhood.some((node) => node.peerId === peerId)`
abbrev pub is_among : ℕ → List Found → Bool
is_among peer_id [] = false
is_among peer_id (f ∷ fs) = f.entry.peer.peer_id == peer_id || is_among peer_id fs

-- The score function with its parameters; `none` is an exception.
module _ (calculate_score : Option Edges → Found → Option ℕ) where
  -- `Promise.all` of the scores.
  abbrev pub scores_of : Option Edges → List Found → Option (List Score)
  scores_of edges [] = some []
  scores_of edges (f ∷ fs) =
      let rest = scores_of edges fs in
      elim (calculate_score edges f) [
        | none ↦ none
        | some s ↦ elim rest [
          | none ↦ none
          | some ss ↦ some (record { score = s; peer_id = f.entry.peer.peer_id } ∷ ss)
        ]
      ]

  -- `calculateRank`: `some none` where the node is not in the neighbourhood, `none` if it throws.
  unfoldable pub calculate_rank : ℕ → List Found → Option Edges → Option (Option ℕ)
  calculate_rank me neighbourhood edges =
      if is_among me neighbourhood
      then elim (scores_of edges neighbourhood) [
        | none ↦ none
        | some scores ↦ some (find_index me (sort_scores scores))
      ]
      else some none

abbrev pub last_found : List Found → Option Found
last_found [] = none
last_found (f ∷ []) = some f
last_found (f ∷ g ∷ fs) = last_found (g ∷ fs)

-- The loop over the neighbourhood: each neighbour goes to the right or to the left end of the ring.
abbrev pub hash_ring : ℕ → ℕ → List Found → List Found → List Found
hash_ring asset_position max_distance [] ring = ring
hash_ring asset_position max_distance (f ∷ fs) ring =
    let position = f.entry.peer.sha256 in
    let right = hash_ring asset_position max_distance fs (ring ++ f ∷ []) in
    let left = hash_ring asset_position max_distance fs (f ∷ ring) in
    if leb asset_position position
    then (if leb (position - asset_position) max_distance then right else left)
    else if leb (asset_position - position) max_distance
    then left
    else right

abbrev pub ends_of : List Found → Option Edges
ends_of [] = none
ends_of (f ∷ fs) = elim (last_found (f ∷ fs)) [
  | none ↦ none
  | some g ↦ some (record { left_edge = f; right_edge = g })
]

-- `getNeighboorhoodEdgeNodes`, with the position of the asset's hash and the proximity function
-- applied to it; `none` is the TypeError of an empty neighbourhood.
module _ (distance_of : ℕ → ℕ) where
  unfoldable pub get_neighboorhood_edge_nodes : ℕ → List Found → Option Edges
  get_neighboorhood_edge_nodes asset_position neighbourhood = elim (last_found neighbourhood) [
    | none ↦ none
    | some last ↦
        ends_of (hash_ring asset_position (distance_of last.entry.peer.sha256) neighbourhood [])
  ]
