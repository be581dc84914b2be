-- ===== src/Executor/Replay.antt =====
-- `replayOldCommands` of command-executor.js, which runs when the node starts.
use trex_dkg.Prelude.{
  ℕ, zero, suc, Bool, true, false, not, Option, none, some, List, [], ◌∷◌, Dict, lookup, ◌==◌, ◌&&◌,
  ◌||◌, if◌then◌else◌,
}
use trex_dkg.Executor.Data.{CommandStatus, Command, World}
use trex_dkg.Executor.Queue.{add}

abbrev pub includes : ℕ → List ℕ → Bool
includes n [] = false
includes n (m ∷ ms) = n == m || includes n ms

abbrev pub is_unfinished : CommandStatus → Bool
is_unfinished CommandStatus.pending = true
is_unfinished CommandStatus.started = true
is_unfinished CommandStatus.repeating = true
is_unfinished _ = false

abbrev pub is_completed : CommandStatus → Bool
is_completed CommandStatus.completed = true
is_completed _ = false

-- SQL's `NOT IN`, which no row without a name satisfies.
abbrev pub not_in : Option ℕ → List ℕ → Bool
not_in none names = false
not_in (some n) names = not (includes n names)

module _ {D : Type 0} where
  -- `getCommandsWithStatus`: the rows with an unfinished status and none of the excluded names.
  unfoldable pub commands_with_status : List ℕ → Dict (Command D) → List (Command D)
  commands_with_status excluded [] = []
  commands_with_status excluded ((i, c) ∷ rows) =
      let rest = commands_with_status excluded rows in
      if is_unfinished c.status && not_in c.name excluded then c ∷ rest else rest

  -- `parent && parent.status !== 'COMPLETED'`
  abbrev pub blocks : Option (Command D) → Bool
  blocks none = false
  blocks (some p) = not (is_completed p.status)

  -- The body of the first loop: a command without a parent is passed over (so is one whose parent
  -- has id 0), and one whose parent has not completed.
  unfoldable pub may_replay : Dict (Command D) → Command D → Bool
  may_replay rows c = elim c.parent_id [
    | none ↦ false
    | some zero ↦ false
    | some (suc p) ↦ not (blocks (lookup (suc p) rows))
  ]

  unfoldable pub replayable : Dict (Command D) → List (Command D) → List (Command D)
  replayable rows [] = []
  replayable rows (c ∷ cs) =
      let rest = replayable rows cs in if may_replay rows c then c ∷ rest else rest

  -- The second loop: what no worker has is added, without delay.
  unfoldable pub add_replayed : List ℕ → List (Command D) → World D → World D
  add_replayed working [] w = w
  add_replayed working (c ∷ cs) w =
      let rest = add_replayed working cs in
      if includes c.id working then rest w else rest (add c (some 0) w)

  -- `replayOldCommands`, with the ids that the queue's workers have.
  unfoldable pub replay_old_commands : List ℕ → List ℕ → World D → World D
  replay_old_commands permanent working w =
      add_replayed working (replayable w.rows (commands_with_status permanent w.rows)) w
