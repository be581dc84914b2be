-- ===== src/Sharding/Tests.antt =====
-- A table of four peers of one blockchain, and one of another.
use trex_dkg.Prelude.{
  ◌∙◌, ◌<◌, ◌↔◌, ℕ, ◌+◌, ◌*◌, ◌≤◌, ◌≡◌, ◌⊎◌, refl, sym, ap, true, none, some, List, [], ◌∷◌, map,
  length, arith,
}
use mathlib.Core.List.{Permᴰ, Memᴰ}
use trex_dkg.Sharding.Data.{Peer, Indexed}
use trex_dkg.Sharding.Order.{sort_by}
use trex_dkg.Sharding.Neighbourhood.{
  peers_of, with_distance, sort_peers, find_neighbourhood, others, find_nodes, leftover_of,
}
use trex_dkg.Sharding.Closest.{IsClosest, sort_peers-IsClosest}
use trex_dkg.Sharding.Stable.{HasDistinctKeys}
use trex_dkg.Sharding.Agreement.{
  Identity, identity, identities, identity_distance, find_neighbourhood_agrees,
}
use trex_dkg.Sharding.Found.{IsReachable, leftover_lem}
use trex_dkg.Sharding.Dial.{
  World, Network, dial, find_peer_address_and_protocols,
  update_peer_record_last_seen_and_last_dialed,
}
use trex_dkg.Sharding.Seen.{IsConsistent, dial-IsConsistent, dialed_is_available}
use trex_dkg.Sharding.Bids.{price, peer_at, calculate_bid_suggestion}
use trex_dkg.Sharding.Agreements.{AgreementData, BidVerdict, validate_bid}
use trex_dkg.Sharding.Precision.{suggestion_is_accepted}
use trex_dkg.Sharding.Proximity.{
  hash_ring_size, calculate_bidirectional_proximity_on_hash_ring, distance, distance-IsMetric,
}

abbrev peer : ℕ → ℕ → ℕ → Peer
peer id ask sha256 = record {
  peer_id = id;
  blockchain_id = 1;
  ask = ask;
  stake = 50000;
  last_seen = 20;
  last_dialed = 10;
  sha256 = sha256;
}

abbrev table : List Peer
table =
    peer 1 30 700
    ∷ record (peer 9 5 100) { blockchain_id = 2 }
    ∷ peer 2 10 400
    ∷ record (peer 3 20 900) { last_seen = 0 }
    ∷ peer 4 40 600
    ∷ []

-- The key's hash is 650.
abbrev distance_to_key : ℕ → ℕ
distance_to_key sha256 = distance sha256 650

abbrev entries : List Indexed
entries =
    record { peer = peer 1 30 700; index = 0 } ∷ record { peer = peer 2 10 400; index = 1 } ∷ []

sort_peers-IsClosest_example :
    IsClosest (map (with_distance distance_to_key) entries) 1 (sort_peers distance_to_key entries 1)
sort_peers-IsClosest_example = sort_peers-IsClosest distance_to_key entries 1

distance-IsMetric_example :
    (distance 1 5 ≡ distance 5 1)
    × (distance 1 5 * 2 ≤ hash_ring_size)
    × (distance 1 9 ≤ distance 1 5 + distance 5 9)
    × ((distance 1 5 ≡ 0) ↔ (◌≡◌ {A = ℕ} 1 5))
distance-IsMetric_example = distance-IsMetric 1 5 9 (omega arith) (omega arith) (omega arith)

leftover_lem_example :
    ((nodes : List ℕ) × (leftover_of distance_to_key 4 2 1 3 table ≡ some nodes)
      × (2 ≤ length nodes)
      × ((n : ℕ) → Memᴰ n nodes ↔ IsReachable 4 (find_neighbourhood distance_to_key 1 3 table) n))
    ⊎ ((leftover_of distance_to_key 4 2 1 3 table ≡ none)
        × (length (others distance_to_key 4 (find_nodes distance_to_key 1 3 table)) < 2))
leftover_lem_example = leftover_lem distance_to_key 4 2 1 3 table

abbrev agreement : AgreementData
agreement = record {
  start_time = 1000;
  epochs_number = 5;
  epoch_length = 100;
  token_amount = 400_000_000;
  update_token_amount = 0;
}

abbrev to_wei : ℕ → ℕ
to_wei ask = ask * 1_000_000

to_wei_mono : (a b : ℕ) → a ≤ b → to_wei a ≤ to_wei b
to_wei_mono a b h = omega arith

suggestion_is_accepted_example :
    validate_bid 1050 2500 (some agreement) 2048 2 (to_wei 10) ≡ BidVerdict.accepted
unfolding sort_by calculate_bid_suggestion peer_at price
suggestion_is_accepted_example =
    suggestion_is_accepted to_wei to_wei_mono (peer 1 30 700 ∷ peer 2 10 400 ∷ peer 3 20 900 ∷ []) 1
      400_000_000 1050 2500 agreement 2048 2 (omega arith) (omega arith) (omega arith) (omega arith)
      (omega arith) (omega arith) refl (omega arith) (peer 2 10 400) (Memᴰ.head refl)

-- Nothing is cached yet.
abbrev world : World
world = record { now = 5_000_000; table = table; cache = []; dialed = [] }

abbrev network : Network
network = record {
  own_id = 4;
  peer_info = λ peer. some (record { addresses = 77 ∷ []; protocols = [] });
  find_peer = λ peer. none;
  dial = λ peer. true;
}

world-IsConsistent : IsConsistent world
world-IsConsistent peer c e = cc

dial-IsConsistent_example : IsConsistent (dial network 3 world)
dial-IsConsistent_example = dial-IsConsistent network 3 world world-IsConsistent

-- The peer that had not been seen when it was last dialled.
abbrev reached : Peer
reached = record (peer 3 20 900) { last_seen = 5_000_000; last_dialed = 5_000_000 }

dialed_is_available_example : reached.last_dialed ≤ reached.last_seen
unfolding find_peer_address_and_protocols dial update_peer_record_last_seen_and_last_dialed
dialed_is_available_example =
    dialed_is_available network 3 world world-IsConsistent (omega arith) refl refl reached
      (Memᴰ.tail (Memᴰ.tail (Memᴰ.tail (Memᴰ.head refl)))) refl

-- Two nodes that list two peers in another order, with other asks and times.
abbrev one_table : List Peer
one_table = peer 1 30 700 ∷ peer 2 10 400 ∷ []

abbrev other_table : List Peer
other_table = record (peer 2 15 400) { last_seen = 0 } ∷ peer 1 30 700 ∷ []

abbrev position : Identity → ℕ
position = identity_distance distance_to_key

one_table-HasDistinctKeys :
    HasDistinctKeys position (identity (peer 1 30 700) ∷ identity (peer 2 10 400) ∷ [])
unfolding calculate_bidirectional_proximity_on_hash_ring
one_table-HasDistinctKeys x y (Memᴰ.head e) (Memᴰ.head f) d = e ∙ sym f
one_table-HasDistinctKeys x y (Memᴰ.head e) (Memᴰ.tail (Memᴰ.head f)) d =
    absurd (omega (arith, sym (ap position e) ∙ d ∙ ap position f))
one_table-HasDistinctKeys x y (Memᴰ.tail (Memᴰ.head e)) (Memᴰ.head f) d =
    absurd (omega (arith, sym (ap position e) ∙ d ∙ ap position f))
one_table-HasDistinctKeys x y (Memᴰ.tail (Memᴰ.head e)) (Memᴰ.tail (Memᴰ.head f)) d = e ∙ sym f
one_table-HasDistinctKeys x y (Memᴰ.tail (Memᴰ.tail e)) j d = elim e [ ]
one_table-HasDistinctKeys x y (Memᴰ.head e) (Memᴰ.tail (Memᴰ.tail j)) d = elim j [ ]
one_table-HasDistinctKeys x y (Memᴰ.tail (Memᴰ.head e)) (Memᴰ.tail (Memᴰ.tail j)) d = elim j [ ]

find_neighbourhood_agrees_example :
    identities (find_neighbourhood distance_to_key 1 2 one_table)
    ≡ identities (find_neighbourhood distance_to_key 1 2 other_table)
unfolding peers_of
find_neighbourhood_agrees_example =
    find_neighbourhood_agrees distance_to_key 1 2 one_table other_table (Permᴰ.swap refl refl)
      one_table-HasDistinctKeys
