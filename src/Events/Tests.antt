-- ===== src/Events/Tests.antt =====
-- Tests and witnesses: a blockchain with an event in each block of one contract.
use trex_dkg.Prelude.{
  ℕ, suc, ◌+◌, ◌-◌, ◌≡◌, ◌≢◌, refl, Bool, true, false, List, [], ◌∷◌, map, Option, none, some,
  arith, leb, if◌then◌else◌, length, inl, inr, Bool-cases,
}
use trex_dkg.Sharding.Order.{sort_by}
use trex_dkg.Events.Data.{EventName, ChainEvent, Event, Row}
use trex_dkg.Events.Fetch.{
  Query, process_block_range, pages, Filters, topics_of, to_event, Service, get_all_past_events,
  World, get_last_checked_block, update_last_checked_block, get_contract_events,
}
use trex_dkg.Events.Chain.{Chain, between, IsQueryOf}
use trex_dkg.Events.Paged.{AreBetween, IsFetched, get_all_past_events-IsFetched}
use trex_dkg.Events.Skipped.{failed_page_skipped}
use trex_dkg.Events.Handle.{
  insert_blockchain_events, get_all_unprocessed_blockchain_events,
  mark_blockchain_events_as_processed, add_to_batch, Node, handle_block_events,
  handle_block_batched_events, batch_by_block, handle_blockchain_events,
}

abbrev asked : ℕ → ℕ → ChainEvent
asked topic block = record {
  event = EventName.ask_updated;
  args = (topic, block) ∷ [];
  block_number = block;
}

abbrev chain : Chain
chain topic block = asked topic block ∷ []

abbrev answer : ℕ → ℕ → ℕ → Option (List ChainEvent)
answer topic from_block n = some (between (chain topic) from_block n)

-- The query that always works, and one that does not from block 60 on.
abbrev working : Query
working topic from_block to_block = answer topic from_block (to_block + 1 - from_block)

abbrev failing : Query
failing topic from_block to_block =
    if leb 60 to_block then none else working topic from_block to_block

abbrev service : Service
service = record { start_block = 100; max_historical_blocks = 1000; blockchain_id = 1 }

abbrev filters : Filters
filters = (EventName.ask_updated, 7) ∷ (EventName.node_added, 8) ∷ []

abbrev names : List EventName
names = EventName.ask_updated ∷ []

abbrev world : World
world = record { rows = []; next_id = 1; marks = []; pulls = 0 }

-- The page from block 51 on fails: 50 events, and the mark is at the end of that page.
two_pages :
    let (w, events) = get_contract_events service failing 3 (some filters) names 100 world in
    (length events ≡ 50)
    × (w.marks ≡ record { blockchain_id = 1; contract = 3; last_checked_block = 100 } ∷ [])
    × (w.pulls ≡ 1)
unfolding get_contract_events get_all_past_events pages process_block_range get_last_checked_block
    update_last_checked_block
two_pages = (refl, refl, refl)

-- The block number of another provider is behind: the mark goes back.
mark_back :
    (get_all_past_events service working 3 (some filters) names 90 80).last_checked_block ≡ 80
unfolding get_all_past_events pages
mark_back = refl

working-IsQueryOf : IsQueryOf chain working
working-IsQueryOf t from_block n events h =
    let blocks : from_block + n + 1 - from_block ≡ suc n = omega arith in
    let found : some (between (chain t) from_block (suc n)) ≡ some events = rw blocks at h in
    cc found

failing-IsQueryOf : IsQueryOf chain failing
failing-IsQueryOf t from_block n events h = elim (Bool-cases (leb 60 (from_block + n))) [
  | inl late ↦ let stops : none ≡ some events = rw late at h in cc stops
  | inr early ↦
      let found : working t from_block (from_block + n) ≡ some events = rw early at h in
      working-IsQueryOf t from_block n events found
]

get_all_past_events-IsFetched_example :
    IsFetched chain failing
      (topics_of names filters)
      3
      1
      1
      100
      (get_all_past_events service failing 3 (some filters) names 0 100)
get_all_past_events-IsFetched_example =
    get_all_past_events-IsFetched service chain failing 3 filters names 0 100 failing-IsQueryOf
      (omega arith)

abbrev marked : World
marked = record world {
  marks = record { blockchain_id = 1; contract = 3; last_checked_block = 60 } ∷ [];
}

working-ne-none : (t a b : ℕ) → working t a b ≢ none
working-ne-none t a b = cc

failed_page_skipped_example :
    let (w1, first) = get_contract_events service failing 3 (some filters) names 100 marked in
    let (w2, second) = get_contract_events service working 3 (some filters) names 150 w1 in
    (first ≡ [])
    × (get_last_checked_block 1 3 w1.marks ≡ 100)
    × (get_last_checked_block 1 3 w2.marks ≡ 150)
    × (events : List ChainEvent) × (second ≡ map (to_event 3 1) events)
    × AreBetween chain (topics_of names filters) 101 151 events
unfolding get_last_checked_block process_block_range
failed_page_skipped_example =
    failed_page_skipped service chain failing working 3 filters names 100 150 marked
      working-IsQueryOf working-ne-none (omega arith) refl refl (omega arith)

abbrev event : EventName → ℕ → ℕ → Event
event name subject block = record {
  contract = 3;
  event = name;
  args = (0, subject) ∷ [];
  block = block;
  blockchain_id = 1;
}

-- The handler of AskUpdated throws, the other counts its events.
abbrev handler : EventName → Option (List Row → ℕ → ℕ × Bool)
handler EventName.ask_updated = some (λ rows n. (n, false))
handler EventName.node_added = some (λ rows n. (n + length rows, true))
handler _ = none

abbrev node : Node handler
node = record { world = world; state = 0; calls = [] }

abbrev caught : List Event
caught =
    event EventName.node_added 5 12
    ∷ event EventName.ask_updated 5 11
    ∷ event (EventName.other 9) 1 11
    ∷ event EventName.node_added 4 11
    ∷ event EventName.node_added 6 11
    ∷ []

handled :
    let after = handle_blockchain_events handler caught 1 node in
    (after.state ≡ 3)
    × (map (λ r. r.processed) after.world.rows ≡ true ∷ false ∷ true ∷ true ∷ [])
    × (map (λ c. length c.rows) after.calls ≡ 1 ∷ 2 ∷ 1 ∷ [])
unfolding handle_blockchain_events get_all_unprocessed_blockchain_events insert_blockchain_events
    sort_by batch_by_block handle_block_batched_events handle_block_events
    mark_blockchain_events_as_processed add_to_batch
handled = (refl, refl, refl)
