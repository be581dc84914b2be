-- ===== src/Executor/Tests.antt =====
-- Concrete commands for the executor.
use trex_dkg.Prelude.{ℕ, ◌+◌, ◌≡◌, ◌⊎◌, refl, false, Option, none, some, List, [], ◌∷◌, ◌++◌, arith}
use trex_dkg.Executor.Data.{
  CommandStatus, Command, Execution, retry, Handler, World, max_command_delay,
}
use trex_dkg.Executor.Queue.{
  update, add, add_new, insert_command, fill, postpone, push_after, clamp_delay,
}
use trex_dkg.Executor.Execute.{execute, dispatch, process, conclude, handle_retry}
use trex_dkg.Executor.Calls.{executions}
use trex_dkg.Executor.Swapped.{with_execute}
use trex_dkg.Executor.Timing.{MayRun, executions-execute, long_delay_doubled}
use trex_dkg.Executor.Bounded.{IsBounded, execute-IsBounded}
use trex_dkg.Executor.Retries.{next, drive}
use trex_dkg.Executor.Lifetime.{given_up, lifetime}
use trex_dkg.Executor.Replay.{
  commands_with_status, replayable, add_replayed, may_replay, replay_old_commands,
}
use trex_dkg.Executor.Replayed.{IsReplayed, AreSelected, queue-replay_old_commands}

abbrev command : Command ℕ
command = record {
  id = 4;
  name = some 1;
  contents = some 5;
  ready_at = some 100;
  delay = some 0;
  started_at = none;
  deadline_at = none;
  period = some 5000;
  status = CommandStatus.pending;
  message = none;
  parent_id = none;
  transactional = false;
  retries = 3;
  sequence = [];
}

-- It is never satisfied.
abbrev handler : Handler ℕ
handler = record {
  pack = λ contents. contents;
  unpack = λ contents. contents;
  execute = λ c. (c, retry);
  recover = λ c. some false;
  on_expired = λ c. none;
  retry_finished = λ c. none;
  default = command;
}

abbrev resolve : ℕ → Option (Handler ℕ)
resolve name = some handler

abbrev idle : World ℕ
idle = record {
  now = 1000;
  next_id = 5;
  rows = (4, command) ∷ [];
  queue = [];
  timers = [];
  calls = [];
}

lifetime_example :
    (w' : World ℕ) × (drive 5 resolve (record idle { queue = command ∷ [] }) ≡ some w')
    × (executions w'.calls ≡ 3)
    × (given_up w'.calls ≡ 1)
unfolding next executions given_up
lifetime_example =
    lifetime resolve handler 3 command (record idle { queue = command ∷ [] }) idle
      (record { again = λ c. refl; quiet = λ c. refl }) refl
      (record {
        handler = refl;
        on_time = refl;
        ready = refl;
        short = omega arith;
        queue = refl;
        timers = refl;
      })
      refl

execute-IsBounded_example : IsBounded 1000 (execute resolve command idle)
execute-IsBounded_example =
    execute-IsBounded resolve 1000 command idle (record { clock = refl; due = tt })

ran : executions (execute resolve command idle).calls ≡ 1
unfolding executions execute dispatch update process conclude handle_retry add push_after
    clamp_delay postpone
ran = refl

executions-execute_example :
    let after = execute resolve command idle in
    ((h : Handler ℕ) × MayRun resolve command 1000 h
      × (after ≡ (
          let (c, w) = update (λ r. record r { started_at = some 1000 }) command idle in
          process resolve h c w))
      × (executions after.calls ≡ executions idle.calls + 1))
    ⊎ ((¬ ((h : Handler ℕ) × MayRun resolve command 1000 h))
        × ((f : Command ℕ → Command ℕ × Execution ℕ)
            → execute (λ n. with_execute f (resolve n)) command idle ≡ after)
        × (executions after.calls ≡ executions idle.calls))
executions-execute_example = executions-execute resolve command idle

abbrev long_delay : ℕ
long_delay = 1_000_000_000

abbrev postponed : Command ℕ
postponed = record command { delay = some long_delay; ready_at = none }

-- At the time for which it was added, it is not run.
long_delay_doubled_example :
    ((add_new resolve postponed (some long_delay) idle).timers
      ≡ idle.timers
        ++ record {
          due = 1000 + max_command_delay;
          command = record postponed {
            id = 5;
            ready_at = some (1000 + long_delay);
            status = CommandStatus.pending;
          };
        }
          ∷ [])
    × (executions
          (execute resolve
            (record postponed {
              id = 5;
              ready_at = some (1000 + long_delay);
              status = CommandStatus.pending;
            })
            (record idle { now = 1000 + long_delay })).calls
        ≡ executions [])
unfolding insert_command fill postpone
long_delay_doubled_example =
    long_delay_doubled resolve postponed long_delay idle (record idle { now = 1000 + long_delay })
      (omega arith) refl refl (omega arith)

-- A child of a completed command, and a child of one that is still to be done.
abbrev rows : List (ℕ × Command ℕ)
rows =
    (1, record command { id = 1; status = CommandStatus.completed })
    ∷ (2, record command { id = 2; status = CommandStatus.started; parent_id = some 1 })
    ∷ (3, record command { id = 3; status = CommandStatus.pending; parent_id = some 2 })
    ∷ []

replayed :
    (replay_old_commands (8 ∷ []) [] (record idle { rows = rows })).queue
    ≡ record command { id = 2; status = CommandStatus.started; parent_id = some 1 } ∷ []
unfolding replay_old_commands commands_with_status replayable add_replayed may_replay add push_after
    clamp_delay postpone
replayed = refl

queue-replay_old_commands_example :
    (cs : List (Command ℕ)) × ((replay_old_commands (8 ∷ []) [] (record idle { rows = rows })).queue
      ≡ cs)
    × AreSelected (IsReplayed (8 ∷ []) [] rows) rows cs
queue-replay_old_commands_example =
    queue-replay_old_commands (8 ∷ []) [] (record idle { rows = rows })
