-- ===== src/Events/Handle.antt =====
-- handleBlockchainEvents of ot-node-docker/src/service/blockchain-event-listener-service.js. The
-- handlers of the events, with the part of the node that they change, are a parameter.
-- GROUPED_CONTRACT_EVENTS has no group, so that no event is buffered. The handlers of one block,
-- which are started together, follow one another.
use trex_dkg.Prelude.{
  ℕ, suc, ◌+◌, Bool, true, false, not, ◌&&◌, ◌||◌, List, [], ◌∷◌, ◌++◌, map, Option, none, some,
  ◌==◌, if◌then◌else◌,
}
use trex_dkg.Events.Data.{EventName, same_name, Event, Row}
use trex_dkg.Events.Fetch.{has_name, World}
use trex_dkg.Sharding.Order.{sort_by}

-- Object.values(CONTRACT_EVENTS).flatMap((e) => e)
abbrev pub event_names : List EventName
event_names =
    EventName.new_contract ∷ EventName.contract_changed ∷ EventName.new_asset_storage
    ∷ EventName.asset_storage_changed ∷ EventName.node_added ∷ EventName.node_removed
    ∷ EventName.stake_increased ∷ EventName.stake_withdrawal_started ∷ EventName.ask_updated
    ∷ EventName.state_finalized ∷ EventName.agreement_extended ∷ EventName.agreement_terminated
    ∷ EventName.parameter_changed ∷ EventName.parameter_changed ∷ EventName.parameter_changed ∷ []

abbrev pub keep {ℓ} : {A : Type ℓ} → (A → Bool) → List A → List A
keep p [] = []
keep p (x ∷ xs) = let rest = keep p xs in if p x then x ∷ rest else rest

-- Rows get the next numbers as their ids.
abbrev pub new_rows : ℕ → List Event → List Row
new_rows id [] = []
new_rows id (e ∷ events) =
    record { id = id; event = e; processed = false } ∷ new_rows (id + 1) events

abbrev pub count_events : List Event → ℕ
count_events [] = 0
count_events (e ∷ events) = suc (count_events events)

unfoldable pub insert_blockchain_events : List Event → World → World
insert_blockchain_events events w = record w {
  rows = w.rows ++ new_rows w.next_id events;
  next_id = w.next_id + count_events events;
}

abbrev pub is_unprocessed : ℕ → Row → Bool
is_unprocessed blockchain r =
    (r.event.blockchain_id == blockchain) && not r.processed && has_name r.event.event event_names

abbrev pub block_of : Row → ℕ
block_of r = r.event.block

-- In the order of the blocks; SQL leaves the order within a block open, and it is that of the table
-- here.
unfoldable pub get_all_unprocessed_blockchain_events : ℕ → List Row → List Row
get_all_unprocessed_blockchain_events blockchain rows =
    sort_by block_of (keep (is_unprocessed blockchain) rows)

abbrev pub has_id : ℕ → List Row → Bool
has_id id [] = false
has_id id (r ∷ rows) = (r.id == id) || has_id id rows

abbrev pub mark_if : List Row → Row → Row
mark_if batch r = record r { processed = r.processed || has_id r.id batch }

unfoldable pub mark_blockchain_events_as_processed : List Row → List Row → List Row
mark_blockchain_events_as_processed batch = map (mark_if batch)

-- `batchedEvents`: the events of a block by name, in the order of the first of each name.
abbrev pub Batches : Type 0
Batches = List (EventName × List Row)

unfoldable pub add_to_batch : Row → Batches → Batches
add_to_batch r [] = (r.event.event, r ∷ []) ∷ []
add_to_batch r ((name, rows) ∷ batches) =
    let rest = add_to_batch r batches in
    if same_name name r.event.event then (name, rows ++ r ∷ []) ∷ batches else (name, rows) ∷ rest

-- A call of handleBlockEvents, and whether the handler returned; `none` if there is no handler.
pub record Call : Type 0 where
  pub name : EventName
  pub rows : List Row
  pub returned : Option Bool

module _ {S : Type 0} (handler : EventName → Option (List Row → S → S × Bool)) where
  -- The tables, the rest of the node, and the calls that were made.
  pub record Node : Type 0 where
    pub world : World
    pub state : S
    pub calls : List Call

  abbrev pub log : EventName → List Row → Option Bool → Node → Node
  log name rows returned n = record n {
    calls = n.calls ++ record { name = name; rows = rows; returned = returned } ∷ [];
  }

  abbrev pub after_handler : EventName → List Row → S × Bool → Node → Node
  after_handler name rows (s, true) n = log name rows (some true) (record n {
    world = record n.world { rows = mark_blockchain_events_as_processed rows n.world.rows };
    state = s;
  })
  after_handler name rows (s, false) n = log name rows (some false) (record n { state = s })

  abbrev pub handle_with : EventName → List Row → Option (List Row → S → S × Bool) → Node → Node
  handle_with name rows none n = log name rows none n
  handle_with name rows (some handle) n = after_handler name rows (handle rows n.state) n

  unfoldable pub handle_block_events : EventName → List Row → Node → Node
  handle_block_events name rows n = handle_with name rows (handler name) n

  unfoldable pub handle_block_batched_events : Batches → Node → Node
  handle_block_batched_events [] n = n
  handle_block_batched_events ((name, rows) ∷ batches) n =
      handle_block_batched_events batches (handle_block_events name rows n)

  -- The loop over the events: a new block first handles the events of the block before it.
  unfoldable pub batch_by_block : List Row → Batches → ℕ → Node → Node
  batch_by_block [] batched current_block n = handle_block_batched_events batched n
  batch_by_block (r ∷ rows) batched current_block n = elim (block_of r == current_block) [
    | true ↦ batch_by_block rows (add_to_batch r batched) current_block n
    | false ↦
        batch_by_block rows (add_to_batch r []) (block_of r) (handle_block_batched_events batched n)
  ]

  unfoldable pub handle_blockchain_events : List Event → ℕ → Node → Node
  handle_blockchain_events events blockchain n =
      let w = insert_blockchain_events (keep (λ e. has_name e.event event_names) events) n.world in
      batch_by_block (get_all_unprocessed_blockchain_events blockchain w.rows) [] 0
        (record n { world = w })
