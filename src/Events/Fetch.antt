-- ===== src/Events/Fetch.antt =====
-- Fetching the events of a contract: getAllPastEvents of
-- ot-node-docker/src/modules/blockchain/implementation/web3-service.js, and getContractEvents of
-- ot-node-docker/src/service/blockchain-event-listener-service.js.
use trex_dkg.Prelude.{
  ℕ, zero, suc, ◌+◌, ◌-◌, min, Bool, true, false, ◌&&◌, List, [], ◌∷◌, ◌++◌, map, Option, none,
  some, ltb, leb, ◌==◌, if◌then◌else◌,
}
use trex_dkg.Events.Data.{EventName, same_name, ChainEvent, Event, Row, Mark}

abbrev pub maximum_blocks_to_fetch : ℕ
maximum_blocks_to_fetch = 50

-- A contract's `queryFilter` of the package ethers, by topic, first and last block; `none` is an
-- exception.
abbrev pub Query : Type 0
Query = ℕ → ℕ → ℕ → Option (List ChainEvent)

-- `events.push(...e)` for the answer of each topic.
abbrev pub gather : Option (List ChainEvent) → Option (List ChainEvent) → Option (List ChainEvent)
gather none rest = none
gather (some events) none = none
gather (some events) (some more) = some (events ++ more)

unfoldable pub process_block_range : Query → ℕ → ℕ → List ℕ → Option (List ChainEvent)
process_block_range query from_block to_block [] = some []
process_block_range query from_block to_block (topic ∷ topics) =
    gather (query topic from_block to_block) (process_block_range query from_block to_block topics)

abbrev pub page_end : ℕ → ℕ → ℕ
page_end from_block current_block = min (from_block + maximum_blocks_to_fetch - 1) current_block

abbrev pub continue : Option (List ChainEvent) → ℕ → List ChainEvent × ℕ → List ChainEvent × ℕ
continue none to_block rest = ([], to_block)
continue (some events) to_block (more, last) = (events ++ more, last)

-- The loop over the pages of blocks, with the last block of the page that was asked for last. Each
-- page has a block, so that the number of blocks is enough fuel.
unfoldable pub pages : Query → List ℕ → ℕ → ℕ → ℕ → ℕ → List ChainEvent × ℕ
pages query topics current_block zero from_block to_block = ([], to_block)
pages query topics current_block (suc fuel) from_block to_block =
    elim (leb from_block current_block) [
      | true ↦
          let last = page_end from_block current_block in
          continue (process_block_range query from_block last topics) last
            (pages query topics current_block fuel (last + 1) last)
      | false ↦ ([], to_block)
    ]

-- The filters of a contract by the name of their events.
abbrev pub Filters : Type 0
Filters = List (EventName × ℕ)

abbrev pub has_name : EventName → List EventName → Bool
has_name name [] = false
has_name name (n ∷ names) = if same_name n name then true else has_name name names

abbrev pub topics_of : List EventName → Filters → List ℕ
topics_of events_to_filter [] = []
topics_of events_to_filter ((name, topic) ∷ filters) =
    let rest = topics_of events_to_filter filters in
    if has_name name events_to_filter then topic ∷ rest else rest

abbrev pub to_event : ℕ → ℕ → ChainEvent → Event
to_event contract blockchain e = record {
  contract = contract;
  event = e.event;
  args = e.args;
  block = e.block_number;
  blockchain_id = blockchain;
}

pub record Fetched : Type 0 where
  pub events : List Event
  pub last_checked_block : ℕ
  pub events_missed : Bool

-- The block of the service's start, and the number of past blocks that it looks at.
pub record Service : Type 0 where
  pub start_block : ℕ
  pub max_historical_blocks : ℕ
  pub blockchain_id : ℕ

-- `startBlock - lastCheckedBlock > getMaxNumberOfHistoricalBlocksForSync()`
abbrev pub is_missed : Service → ℕ → Bool
is_missed service last_checked_block =
    ltb service.max_historical_blocks (service.start_block - last_checked_block)

abbrev pub first_block : Service → ℕ → ℕ
first_block service last_checked_block =
    if is_missed service last_checked_block then service.start_block else last_checked_block + 1

-- A contract that the blockchain does not have is `none`.
unfoldable pub get_all_past_events :
    Service → Query → ℕ → Option Filters → List EventName → ℕ → ℕ → Fetched
get_all_past_events service query contract none events_to_filter last_checked_block current_block =
    record { events = []; last_checked_block = current_block; events_missed = false }
get_all_past_events service query contract (some filters) events_to_filter last_checked_block
      current_block =
    let from_block = first_block service last_checked_block in
    let (events, last) =
      pages query (topics_of events_to_filter filters) current_block
        (current_block + 1 - from_block) from_block current_block in
    record {
      events = map (to_event contract service.blockchain_id) events;
      last_checked_block = last;
      events_missed = is_missed service last_checked_block;
    }

-- The tables, the number that the next row gets, and how often the sharding table was to be pulled.
pub record World : Type 0 where
  pub rows : List Row
  pub next_id : ℕ
  pub marks : List Mark
  pub pulls : ℕ

abbrev pub is_mark : ℕ → ℕ → Mark → Bool
is_mark blockchain contract m = (m.blockchain_id == blockchain) && (m.contract == contract)

-- `lastCheckedBlockObject?.lastCheckedBlock ?? 0`
unfoldable pub get_last_checked_block : ℕ → ℕ → List Mark → ℕ
get_last_checked_block blockchain contract [] = 0
get_last_checked_block blockchain contract (m ∷ marks) =
    if is_mark blockchain contract m
    then m.last_checked_block
    else get_last_checked_block blockchain contract marks

unfoldable pub update_last_checked_block : ℕ → ℕ → ℕ → List Mark → List Mark
update_last_checked_block blockchain block contract [] =
    record { blockchain_id = blockchain; contract = contract; last_checked_block = block } ∷ []
update_last_checked_block blockchain block contract (m ∷ marks) =
    if is_mark blockchain contract m
    then record m { last_checked_block = block } ∷ marks
    else m ∷ update_last_checked_block blockchain block contract marks

unfoldable pub get_contract_events :
    Service → Query → ℕ → Option Filters → List EventName → ℕ → World → World × List Event
get_contract_events service query contract filters events_to_filter current_block w =
    let blockchain = service.blockchain_id in
    let result =
      get_all_past_events service query contract filters events_to_filter
        (get_last_checked_block blockchain contract w.marks) current_block in
    (
      record w {
        marks = update_last_checked_block blockchain result.last_checked_block contract w.marks;
        pulls = if result.events_missed then w.pulls else w.pulls + 1;
      },
      result.events,
    )
