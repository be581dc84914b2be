-- ===== src/Executor/Queue.antt =====
-- `_insert`, `_update`, `delete` and `add` of command-executor.js.
use trex_dkg.Prelude.{
  ℕ, zero, suc, ◌+◌, Option, none, some, List, [], ◌∷◌, ◌++◌, Dict, insert, modify, ltb, ◌==◌,
  if◌then◌else◌,
}
use trex_dkg.Executor.Data.{
  CommandStatus, Command, Handler, World, max_command_delay, default_command_delay, value_or,
  nonzero_or,
}

abbrev pub first_name : Option ℕ → List ℕ → Option ℕ
first_name (some n) seq = some n
first_name none [] = none
first_name none (n ∷ seq) = some n

abbrev pub rest_names : Option ℕ → List ℕ → List ℕ
rest_names (some n) seq = seq
rest_names none [] = []
rest_names none (n ∷ seq) = seq

unfoldable pub clamp_delay : ℕ → ℕ
clamp_delay d = if ltb max_command_delay d then max_command_delay else d

module _ {D : Type 0} where
  -- `_update`: the fields are set in the command at hand and in its row.
  unfoldable pub update : (Command D → Command D) → Command D → World D → Command D × World D
  update f c w = (f c, record w { rows = modify c.id f w.rows })

  abbrev pub packed : Option (Handler D) → Option D → Option D
  packed none contents = contents
  packed (some h) (some x) = some x
  packed (some h) none = h.pack none

  abbrev pub resolve_name : (ℕ → Option (Handler D)) → Option ℕ → Option (Handler D)
  resolve_name resolve none = none
  resolve_name resolve (some n) = resolve n

  -- The defaults that `_insert` fills in before the row is created.
  unfoldable pub fill : (ℕ → Option (Handler D)) → ℕ → Command D → Command D
  fill resolve now c =
      let name = first_name c.name c.sequence in
      record c {
        name = name;
        sequence = rest_names c.name c.sequence;
        ready_at = some (nonzero_or now c.ready_at);
        delay = some (value_or 0 c.delay);
        contents = packed (resolve_name resolve name) c.contents;
        status = CommandStatus.pending;
      }

  -- `_insert`
  unfoldable pub insert_command :
      (ℕ → Option (Handler D)) → Command D → World D → Command D × World D
  insert_command resolve c w =
      let c' : Command D = record (fill resolve w.now c) { id = w.next_id } in
      (c', record w { next_id = w.next_id + 1; rows = insert w.next_id c' w.rows })

  -- `delete`: by name.
  unfoldable pub delete : ℕ → Dict (Command D) → Dict (Command D)
  delete name [] = []
  delete name ((i, c) ∷ rows) =
      let rest = delete name rows in
      elim c.name [ none ↦ (i, c) ∷ rest | some n ↦ if n == name then rest else (i, c) ∷ rest ]

  -- `setTimeout` for a delay, and the queue at once without one.
  unfoldable pub push_after : ℕ → Command D → World D → World D
  push_after zero c w = record w { queue = w.queue ++ c ∷ [] }
  push_after (suc d) c w = record w {
    timers = w.timers ++ record { due = w.now + suc d; command = c } ∷ [];
  }

  -- A delay above the maximum moves `readyAt` on by the whole delay.
  unfoldable pub postpone : ℕ → ℕ → Command D → Command D
  postpone now d c =
      if ltb max_command_delay d
      then record c { ready_at = some (value_or now c.ready_at + d) }
      else c

  -- `add` without `insert`
  unfoldable pub add : Command D → Option ℕ → World D → World D
  add c delay w = let d = value_or 0 delay in push_after (clamp_delay d) (postpone w.now d c) w

  -- `add` with `insert`
  unfoldable pub add_new : (ℕ → Option (Handler D)) → Command D → Option ℕ → World D → World D
  add_new resolve c delay w =
      let d = value_or 0 delay in
      let (c', w') = insert_command resolve (postpone w.now d c) w in
      push_after (clamp_delay d) c' w'

  -- `_addDefaultCommand`
  unfoldable pub add_default_command : (ℕ → Option (Handler D)) → ℕ → World D → World D
  add_default_command resolve name w =
      let w' = record w { rows = delete name w.rows } in
      elim (resolve name) [
        | none ↦ w'
        | some h ↦ add_new resolve h.default (some default_command_delay) w'
      ]

  -- `addDefaultCommands`
  unfoldable pub add_default_commands : (ℕ → Option (Handler D)) → List ℕ → World D → World D
  add_default_commands resolve [] w = w
  add_default_commands resolve (name ∷ names) w =
      add_default_commands resolve names (add_default_command resolve name w)
