-- ===== src/Sharding/Dial.antt =====
-- `dial`, `findPeerAddressAndProtocols`, `updatePeerRecordLastSeenAndLastDialed` and
-- `updatePeerRecordLastDialed` of ot-node-docker/src/service/sharding-table-service.js.
use trex_dkg.Prelude.{
  ℕ, ◌+◌, Bool, true, false, Option, none, some, List, [], ◌∷◌, map, Dict, lookup, insert, ltb,
  ◌==◌, ◌||◌, ◌&&◌, not, if◌then◌else◌,
}
use trex_dkg.Sharding.Data.{Peer}

-- PEER_RECORD_UPDATE_DELAY
abbrev pub peer_record_update_delay : ℕ
peer_record_update_delay = 1800000

-- An entry of `memoryCachedPeerIds`.
pub record Cached : Type 0 where
  pub last_dialed : ℕ
  pub last_seen : ℕ

-- The `shard` table, `memoryCachedPeerIds`, and the peers that were dialled. `now` is the clock.
pub record World : Type 0 where
  pub now : ℕ
  pub table : List Peer
  pub cache : Dict Cached
  pub dialed : List ℕ

abbrev pub cached_or_zero : Option Cached → Cached
cached_or_zero none = record { last_dialed = 0; last_seen = 0 }
cached_or_zero (some c) = c

abbrev pub has_peer : ℕ → List Peer → Bool
has_peer peer [] = false
has_peer peer (p ∷ ps) = p.peer_id == peer || has_peer peer ps

abbrev pub when_peer : ℕ → (Peer → Peer) → Peer → Peer
when_peer peer f p = if p.peer_id == peer then f p else p

abbrev pub is_old : ℕ → ℕ → Bool
is_old now time = ltb (time + peer_record_update_delay) now

-- The entry is there before the test of its times, which writes it only when a row was updated.
unfoldable pub update_peer_record_last_seen_and_last_dialed : ℕ → World → World
update_peer_record_last_seen_and_last_dialed peer w =
    let c = cached_or_zero (lookup peer w.cache) in
    if is_old w.now c.last_seen || is_old w.now c.last_dialed
    then record w {
      table =
          map (when_peer peer (λ p. record p { last_dialed = w.now; last_seen = w.now })) w.table;
      cache =
          insert peer
            (if has_peer peer w.table then record { last_dialed = w.now; last_seen = w.now } else c)
            w.cache;
    }
    else record w { cache = insert peer c w.cache }

unfoldable pub update_peer_record_last_dialed : ℕ → World → World
update_peer_record_last_dialed peer w =
    let c = cached_or_zero (lookup peer w.cache) in
    if is_old w.now c.last_dialed
    then record w {
      table = map (when_peer peer (λ p. record p { last_dialed = w.now })) w.table;
      cache =
          insert peer (if has_peer peer w.table then record c { last_dialed = w.now } else c)
            w.cache;
    }
    else record w { cache = insert peer c w.cache }

pub record PeerInfo : Type 0 where
  pub addresses : List ℕ
  pub protocols : List ℕ

-- The network module: its own identifier, the peer store before and after `findPeer`, which may
-- throw (`none`), and whether `dial` goes through.
pub record Network : Type 0 where
  pub own_id : ℕ
  pub peer_info : ℕ → Option PeerInfo
  pub find_peer : ℕ → Option (Option PeerInfo)
  pub dial : ℕ → Bool

abbrev pub addresses_of : Option PeerInfo → List ℕ
addresses_of none = []
addresses_of (some i) = i.addresses

abbrev pub protocols_of : Option PeerInfo → List ℕ
protocols_of none = []
protocols_of (some i) = i.protocols

abbrev pub is_empty : List ℕ → Bool
is_empty [] = true
is_empty (x ∷ xs) = false

abbrev pub found_or : Option PeerInfo → Option (Option PeerInfo) → Option PeerInfo
found_or info none = info
found_or info (some found) = found

-- `findPeerAddressAndProtocols`, without the `id` that it passes on.
unfoldable pub find_peer_address_and_protocols : Network → ℕ → PeerInfo
find_peer_address_and_protocols network peer =
    let info = network.peer_info peer in
    let found =
      if is_empty (addresses_of info) && not (peer == network.own_id)
      then found_or info (network.find_peer peer)
      else info in
    record { addresses = addresses_of found; protocols = protocols_of found }

-- `dial`. The node itself is not dialled, and counts as seen.
unfoldable pub dial : Network → ℕ → World → World
dial network peer w =
    if is_empty (find_peer_address_and_protocols network peer).addresses
    then update_peer_record_last_dialed peer w
    else if peer == network.own_id
    then update_peer_record_last_seen_and_last_dialed peer w
    else (let w' = record w { dialed = peer ∷ w.dialed } in
        if network.dial peer
        then update_peer_record_last_seen_and_last_dialed peer w'
        else update_peer_record_last_dialed peer w')
