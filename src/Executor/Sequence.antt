-- ===== src/Executor/Sequence.antt =====
-- ot-node-docker/src/commands/command.js: the helpers with which a handler goes on to the next
-- command, and its handling of errors.
use trex_dkg.Prelude.{ℕ, Option, none, some, List, [], ◌∷◌}
use trex_dkg.Executor.Data.{Command, Execution, commands, Handler}

module _ {D : Type 0} (assign : Option D → D → D) where
  -- `Command.empty()`
  abbrev pub empty : Execution D
  empty = commands []

  -- `continueSequence`, without options: the default command of the next handler, with the data
  -- assigned to its own and the rest of the sequence. `none` is the TypeError of a missing handler.
  unfoldable pub continue_sequence : (ℕ → Option (Handler D)) → D → List ℕ → Option (Execution D)
  continue_sequence resolve contents [] = some (commands [])
  continue_sequence resolve contents (name ∷ rest) = elim (resolve name) [
    | none ↦ none
    | some h ↦ some (
        commands (
          record (h.default) {
            contents = some (assign h.default.contents contents);
            sequence = rest;
          }
          ∷ []))
  ]

  -- `build`, without options.
  unfoldable pub build : (ℕ → Option (Handler D)) → ℕ → D → List ℕ → Option (Command D)
  build resolve name contents sequence = elim (resolve name) [
    | none ↦ none
    | some h ↦ some (record (h.default) {
      contents = some (assign h.default.contents contents);
      sequence = sequence;
    })
  ]
