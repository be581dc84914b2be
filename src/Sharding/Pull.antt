-- ===== src/Sharding/Pull.antt =====
-- `pullBlockchainShardingTable` of ot-node-docker/src/service/sharding-table-service.js: the table
-- of a blockchain is read from its contracts page by page, and written in place of the rows kept so
-- far.
use trex_dkg.Prelude.{
  ℕ, zero, suc, ◌-◌, Bool, false, Option, none, some, List, [], ◌∷◌, ◌++◌, map, length, drop, ltb,
  leb, ◌==◌, ◌&&◌, ◌||◌, if◌then◌else◌,
}
use trex_dkg.Sharding.Data.{Peer}

-- A node as the contract returns it. Its id is a string of bytes, of which 0 is the empty one, '0x'.
pub record ChainNode : Type 0 where
  pub node_id : ℕ
  pub identity_id : ℕ
  pub ask : ℕ
  pub stake : ℕ

-- DEFAULT_BLOCKCHAIN_EVENT_SYNC_PERIOD_IN_MILLS, 15 days.
abbrev pub sync_period : ℕ
sync_period = 1296000000

abbrev pub page_size : ℕ
page_size = 10

-- `.filter((node) => node.nodeId !== '0x')`
abbrev pub named : List ChainNode → List ChainNode
named [] = []
named (n ∷ ns) = let rest = named ns in if n.node_id == 0 then rest else n ∷ rest

-- `nodes[nodes.length - 1]`, which is `undefined` of an empty page.
abbrev pub last_of : List ChainNode → Option ChainNode
last_of [] = none
last_of (n ∷ []) = some n
last_of (n ∷ n' ∷ ns) = last_of (n' ∷ ns)

-- How the loop ends: with the table, with an exception, or not within its fuel.
pub data Pulling : Type 0 where
  pulled : List ChainNode → Pulling
  thrown running : Pulling

-- The contract's `getShardingTable`.
module _ (get_sharding_table_page : ℕ → ℕ → List ChainNode) where
  -- The loop, by the length of the table, the identity that a page starts at, and `sliceIndex`.
  unfoldable pub pull : ℕ → ℕ → ℕ → ℕ → List ChainNode → Pulling
  pull zero total start slice table = if leb total (length table) then pulled table else running
  pull (suc fuel) total start slice table =
      if leb total (length table)
      then pulled table
      else (let nodes = get_sharding_table_page start page_size in
          elim (last_of nodes) [
            | none ↦ thrown
            | some last ↦ pull fuel total last.identity_id 1 (table ++ named (drop slice nodes))
          ])

-- `removeShardingTablePeerRecords`
abbrev pub remove_rows : ℕ → List Peer → List Peer
remove_rows blockchain [] = []
remove_rows blockchain (p ∷ ps) =
    let rest = remove_rows blockchain ps in if p.blockchain_id == blockchain then rest else p ∷ rest

-- One row of `createManyPeerRecords`: a row of the same peer gets the new ask, stake and hash.
abbrev pub create_peer_record : Peer → List Peer → List Peer
create_peer_record x [] = x ∷ []
create_peer_record x (p ∷ ps) =
    let rest = create_peer_record x ps in
    if p.blockchain_id == x.blockchain_id && p.peer_id == x.peer_id
    then record p { ask = x.ask; stake = x.stake; sha256 = x.sha256 } ∷ ps
    else p ∷ rest

abbrev pub create_many_peer_records : List Peer → List Peer → List Peer
create_many_peer_records [] table = table
create_many_peer_records (x ∷ xs) table = create_many_peer_records xs (create_peer_record x table)

abbrev pub is_recent : Option ℕ → ℕ → Bool
is_recent none now = false
is_recent (some zero) now = false
is_recent (some (suc t)) now = ltb (now - suc t) sync_period

-- Of the packages: the text of a hexadecimal string, the conversion from wei, and SHA-256.
module _ (convert_hex_to_ascii convert_from_wei sha256 : ℕ → ℕ) where
  abbrev pub peer_of_node : ℕ → ChainNode → Peer
  peer_of_node blockchain n =
      let node_id = convert_hex_to_ascii n.node_id in
      record {
        peer_id = node_id;
        blockchain_id = blockchain;
        ask = convert_from_wei n.ask;
        stake = convert_from_wei n.stake;
        last_seen = 0;
        last_dialed = 0;
        sha256 = sha256 node_id;
      }

  -- `pullBlockchainShardingTable`, with the time of the last check, what the contracts return, and the
  -- fuel of the loop; `none` where the function throws or the loop needs more.
  unfoldable pub pull_blockchain_sharding_table :
      ℕ
      → (ℕ → ℕ → List ChainNode)
      → ℕ
      → ℕ
      → ℕ
      → Bool
      → Option ℕ
      → ℕ
      → List Peer
      → Option (List Peer)
  pull_blockchain_sharding_table fuel page total head blockchain force last_checked now table =
      if force || is_recent last_checked now
      then some table
      else elim (pull page fuel total head 0 []) [
        | pulled nodes ↦ some (
            create_many_peer_records (map (peer_of_node blockchain) nodes)
              (remove_rows blockchain table))
        | thrown ↦ none
        | running ↦ none
      ]
