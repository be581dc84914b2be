-- ===== src/Events/Data.antt =====
-- The state of ot-node-docker/src/service/blockchain-event-listener-service.js: the tables
-- `blockchain_event` and `blockchain` of the repository. Names, addresses and identifiers are numbers.
use trex_dkg.Prelude.{ℕ, ◌+◌, Dict, Bool, ◌==◌}

-- CONTRACT_EVENTS, and an event of another name.
pub data EventName : Type 0 where
  new_contract contract_changed new_asset_storage asset_storage_changed : EventName
  node_added node_removed stake_increased stake_withdrawal_started ask_updated : EventName
  state_finalized agreement_extended agreement_terminated parameter_changed : EventName
  other : ℕ → EventName

abbrev pub name_code : EventName → ℕ
name_code EventName.new_contract = 0
name_code EventName.contract_changed = 1
name_code EventName.new_asset_storage = 2
name_code EventName.asset_storage_changed = 3
name_code EventName.node_added = 4
name_code EventName.node_removed = 5
name_code EventName.stake_increased = 6
name_code EventName.stake_withdrawal_started = 7
name_code EventName.ask_updated = 8
name_code EventName.state_finalized = 9
name_code EventName.agreement_extended = 10
name_code EventName.agreement_terminated = 11
name_code EventName.parameter_changed = 12
name_code (EventName.other n) = 13 + n

abbrev pub same_name : EventName → EventName → Bool
same_name a b = name_code a == name_code b

-- An event as the blockchain has it, with its arguments by name; the table keeps them as JSON.
pub record ChainEvent : Type 0 where
  pub event : EventName
  pub args : Dict ℕ
  pub block_number : ℕ

-- An event that has been fetched.
pub record Event : Type 0 where
  pub contract : ℕ
  pub event : EventName
  pub args : Dict ℕ
  pub block : ℕ
  pub blockchain_id : ℕ

-- A row of the table of events.
pub record Row : Type 0 where
  pub id : ℕ
  pub event : Event
  pub processed : Bool

-- A row of the table `blockchain`.
pub record Mark : Type 0 where
  pub blockchain_id : ℕ
  pub contract : ℕ
  pub last_checked_block : ℕ
