-- ===== src/Executor/Data.antt =====
-- Commands, their handlers, and the state of the executor.
use trex_dkg.Prelude.{ℕ, zero, suc, String, Bool, Option, none, some, List, Dict}

-- COMMAND_STATUS
pub data CommandStatus : Type 0 where
  failed expired unknown started pending completed repeating : CommandStatus

-- The fields of a command. `undefined` and `null` are `none`; without `retries` there are none.
pub record Command (D : Type 0) : Type 0 where
  pub id : ℕ
  pub name : Option ℕ
  pub contents : Option D  -- `data`
  pub ready_at : Option ℕ
  pub delay : Option ℕ
  pub started_at : Option ℕ
  pub deadline_at : Option ℕ
  pub period : Option ℕ
  pub status : CommandStatus
  pub message : Option String
  pub parent_id : Option ℕ
  pub transactional : Bool
  pub retries : ℕ
  pub sequence : List ℕ

-- How `handler.execute` ends.
pub data Execution (D : Type 0) : Type 0 where
  repeat retry : Execution D
  commands : List (Command D) → Execution D
  throws : String → Execution D

-- A handler. `execute` may change the command; `recover` says whether to repeat; `none` stands for
-- an exception of `recover` and of `expired`, and `retry_finished` returns the message of its own.
pub record Handler (D : Type 0) : Type 0 where
  pub pack : Option D → Option D
  pub unpack : Option D → Option D
  pub execute : Command D → Command D × Execution D
  pub recover : Command D → Option Bool
  pub on_expired : Command D → Option (List (Command D))
  pub retry_finished : Command D → Option String
  pub default : Command D

-- What the executor calls on a handler, and for which command.
pub data Call : Type 0 where
  execute recover on_expired retry_finished : ℕ → Call

-- A command that a timer will push, and when.
pub record Timer (D : Type 0) : Type 0 where
  pub due : ℕ
  pub command : Command D

pub record World (D : Type 0) : Type 0 where
  pub now : ℕ
  pub next_id : ℕ
  pub rows : Dict (Command D)
  pub queue : List (Command D)
  pub timers : List (Timer D)
  pub calls : List Call

-- The constants, in milliseconds.
abbrev pub max_command_delay : ℕ
max_command_delay = 864_000_000  -- MAX_COMMAND_DELAY_IN_MILLS, 14400 * 60 * 1000

abbrev pub default_repeat_interval : ℕ
default_repeat_interval = 5000  -- DEFAULT_COMMAND_REPEAT_INTERVAL_IN_MILLS

abbrev pub default_command_delay : ℕ
default_command_delay = 60_000  -- DEFAULT_COMMAND_DELAY_IN_MILLS

-- `value ?? d`
abbrev pub value_or : ℕ → Option ℕ → ℕ
value_or d none = d
value_or d (some n) = n

-- `value ? value : d`, where 0 counts as missing.
abbrev pub nonzero_or : ℕ → Option ℕ → ℕ
nonzero_or d none = d
nonzero_or d (some zero) = d
nonzero_or d (some (suc n)) = suc n
