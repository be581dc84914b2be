-- ===== src/Executor/Execute.antt =====
-- `_execute`, `_handleRetry` and `_handleError` of command-executor.js.
use trex_dkg.Prelude.{
  ℕ, zero, suc, ◌+◌, ◌-◌, String, Bool, true, false, Option, none, some, List, [], ◌∷◌, ◌++◌, map,
  min, ltb, if◌then◌else◌,
}
use trex_dkg.Executor.Data.{
  CommandStatus, Command, Execution, repeat, retry, commands, throws, Handler, World, Call,
  max_command_delay, default_repeat_interval, value_or, nonzero_or,
}
use trex_dkg.Executor.Queue.{update, insert_command, add, add_new}

-- `deadlineAt && now > deadlineAt`
abbrev pub is_late : Option ℕ → ℕ → Bool
is_late none now = false
is_late (some zero) now = false
is_late (some (suc d)) now = ltb (suc d) now

-- `readyAt + delay - now`, where it is positive.
abbrev pub wait_ms : Option ℕ → Option ℕ → ℕ → ℕ
wait_ms (some r) (some d) now = r + d - now
wait_ms _ _ now = 0

-- `_handleRetry`, with the command and whether it is `Command.retry()` that it returns; or the
-- message of an exception.
pub data RetryResult : Type 0 where
  again finished : RetryResult
  raised : String → RetryResult

module _ {D : Type 0} where
  abbrev pub adopt : ℕ → Command D → Command D
  adopt parent c = record c { parent_id = some parent }

  abbrev pub set_status : CommandStatus → Command D → Command D
  set_status st c = record c { status = st }

  abbrev pub log : Call → World D → World D
  log call w = record w { calls = w.calls ++ call ∷ [] }

  unfoldable pub handle_retry : Handler D → Command D → World D → RetryResult × World D
  handle_retry h c w =
      if ltb 1 c.retries
      then (let c1 : Command D = record c { contents = h.pack c.contents } in
          let (c2, w2) =
            update
              (λ r. record r {
                status = CommandStatus.pending;
                contents = c1.contents;
                retries = c1.retries - 1;
                message = c1.message;
              })
              c1 w in
          (again, add c2 (some (value_or 0 c2.period + value_or 0 c2.delay)) w2))
      else elim (h.retry_finished c) [
        | none ↦ (finished, log (Call.retry_finished c.id) w)
        | some message ↦ (raised message, log (Call.retry_finished c.id) w)
      ]

  -- Each child is inserted, in order.
  unfoldable pub insert_all :
      (ℕ → Option (Handler D)) → List (Command D) → World D → List (Command D) × World D
  insert_all resolve [] w = ([], w)
  insert_all resolve (c ∷ cs) w =
      let (c', w1) = insert_command resolve c w in
      let (cs', w2) = insert_all resolve cs w1 in (c' ∷ cs', w2)

  unfoldable pub add_all : List (Command D) → World D → World D
  add_all [] w = w
  add_all (c ∷ cs) w = add_all cs (add c c.delay w)

  unfoldable pub add_all_new : (ℕ → Option (Handler D)) → List (Command D) → World D → World D
  add_all_new resolve [] w = w
  add_all_new resolve (c ∷ cs) w = add_all_new resolve cs (add_new resolve c c.delay w)

  -- The end of the transaction: the children are inserted, the command is completed, and then the
  -- children are added.
  unfoldable pub complete :
      (ℕ → Option (Handler D)) → Command D → List (Command D) → World D → World D
  complete resolve c cs w =
      let (children, w1) = insert_all resolve (map (adopt c.id) cs) w in
      add_all children (update (set_status CommandStatus.completed) c w1).1

  -- `Command.repeat()`, from `execute` or from `recover`, with the period chosen by either.
  unfoldable pub repeat_command : Handler D → ℕ → Command D → World D → World D
  repeat_command h period c w =
      let (c1, w1) = update (set_status CommandStatus.repeating) c w in
      add (record c1 { contents = h.pack c1.contents }) (some period) w1

  abbrev pub after_recover : Handler D → Command D → Option Bool → World D → World D
  after_recover h c none w = w
  after_recover h c (some false) w = w
  after_recover h c (some true) w =
      repeat_command h (nonzero_or default_repeat_interval c.period) c w

  -- `_handleError`, and the branch of `_execute` for its result.
  unfoldable pub handle_error : Handler D → Command D → String → World D → World D
  handle_error h c message w =
      if ltb 0 c.retries
      then (let (c1, w1) = update (λ r. record r { retries = c.retries - 1 }) c w in
          add c1 (some (value_or 0 c1.period + value_or 0 c1.delay)) w1)
      else (let (c1, w1) =
            update (λ r. record r { status = CommandStatus.failed; message = some message }) c w in
          after_recover h c1 (h.recover c1) (log (Call.recover c1.id) w1))

  -- An exception rolls the rows back if the command is transactional.
  abbrev pub rolled_back : Command D → World D → World D → World D
  rolled_back c before w = if c.transactional then record w { rows = before.rows } else w

  abbrev pub after_retry :
      (ℕ → Option (Handler D)) → Handler D → Command D → World D → RetryResult × World D → World D
  after_retry resolve h c before (again, w) = w
  after_retry resolve h c before (finished, w) = complete resolve c [] w
  after_retry resolve h c before (raised message, w) =
      handle_error h c message (rolled_back c before w)

  -- What follows `handler.execute`. `before` is the world in which the transaction began.
  unfoldable pub conclude :
      (ℕ → Option (Handler D)) → Handler D → World D → Command D → Execution D → World D → World D
  conclude resolve h before c repeat w =
      repeat_command h (value_or default_repeat_interval c.period) c w
  conclude resolve h before c retry w = after_retry resolve h c before (handle_retry h c w)
  conclude resolve h before c (commands cs) w = complete resolve c cs w
  conclude resolve h before c (throws message) w = handle_error h c message (rolled_back c before w)

  -- The body of `_process`.
  unfoldable pub process : (ℕ → Option (Handler D)) → Handler D → Command D → World D → World D
  process resolve h c w =
      let (c1, w1) = update (set_status CommandStatus.started) c w in
      let (c2, result) = h.execute (record c1 { contents = h.unpack c1.contents }) in
      conclude resolve h w c2 result (log (Call.execute c1.id) w1)

  abbrev pub resolved : (ℕ → Option (Handler D)) → Command D → Option (Handler D)
  resolved resolve c = elim c.name [ none ↦ none | some n ↦ resolve n ]

  abbrev pub after_expired :
      (ℕ → Option (Handler D)) → Option (List (Command D)) → World D → World D
  after_expired resolve none w = w
  after_expired resolve (some cs) w = add_all_new resolve cs w

  -- `_execute`, once the handler has been looked up.
  unfoldable pub dispatch :
      (ℕ → Option (Handler D)) → Option (Handler D) → Command D → World D → World D
  dispatch resolve none c w = (update (set_status CommandStatus.unknown) c w).1
  dispatch resolve (some h) c w =
      if is_late c.deadline_at w.now
      then (let (c', w') = update (set_status CommandStatus.expired) c w in
          after_expired resolve (h.on_expired c') (log (Call.on_expired c.id) w'))
      else (let wait = wait_ms c.ready_at c.delay w.now in
          if ltb 0 wait then add c (some (min wait max_command_delay)) w else process resolve h c w)

  -- `_execute`
  unfoldable pub execute : (ℕ → Option (Handler D)) → Command D → World D → World D
  execute resolve command w =
      let (c, w') = update (λ r. record r { started_at = some w.now }) command w in
      dispatch resolve (resolved resolve c) c w'
