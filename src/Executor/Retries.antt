-- ===== src/Executor/Retries.antt =====
-- Commands run one after another, and one run of a command that asks for another try.
use trex_dkg.Prelude.{
  ℕ, zero, suc, ◌+◌, ◌-◌, ◌≤◌, ◌<◌, ◌≡◌, refl, ◌∙◌, false, Option, none, some, List, [], ◌∷◌, max,
  ltb, leb, if◌then◌else◌, arith, lt→ltb,
}
use trex_dkg.Executor.Data.{
  CommandStatus, Command, Execution, retry, Handler, Timer, World, Call, max_command_delay,
  value_or,
}
use trex_dkg.Executor.Queue.{update, add, push_after, postpone, clamp_delay}
use trex_dkg.Executor.Execute.{
  set_status, log, wait_ms, handle_retry, complete, conclude, process, execute, dispatch, resolved,
}

pub wait_ms_mono : (r d : Option ℕ) (now t : ℕ) → now ≤ t → wait_ms r d now ≡ 0 → wait_ms r d t ≡ 0
wait_ms_mono none d now t le h = refl
wait_ms_mono (some r) none now t le h = refl
wait_ms_mono (some r) (some d) now t le h = omega arith

module _ {D : Type 0} where
  -- The timer that fires first, and the others.
  abbrev earliest : Timer D → List (Timer D) → Timer D × List (Timer D)
  earliest t [] = (t, [])
  earliest t (u ∷ ts) =
      if leb t.due u.due
      then (let r = earliest t ts in (r.0, u ∷ r.1))
      else (let r = earliest u ts in (r.0, t ∷ r.1))

  abbrev fire : World D → Timer D × List (Timer D) → Command D × World D
  fire w (t, ts) = (t.command, record w { now = max w.now t.due; timers = ts })

  -- The next command: the head of the queue, or else what the next timer pushes.
  abbrev pick : World D → List (Command D) → List (Timer D) → Option (Command D × World D)
  pick w (c ∷ cs) ts = some (c, record w { queue = cs })
  pick w [] (t ∷ ts) = some (fire w (earliest t ts))
  pick w [] [] = none

  unfoldable pub next : World D → Option (Command D × World D)
  next w = pick w w.queue w.timers

  -- Commands are run one after another until nothing is queued or waiting; `none` where the fuel
  -- ran out.
  unfoldable pub drive : ℕ → (ℕ → Option (Handler D)) → World D → Option (World D)
  drive zero resolve w = none
  drive (suc fuel) resolve w = elim (next w) [
    | none ↦ some w
    | some (c, w') ↦ drive fuel resolve (execute resolve c w')
  ]

  -- A command alone in the executor, that may run.
  pub record Alone (resolve : ℕ → Option (Handler D)) (h : Handler D) (c : Command D) (w : World D)
      : Type 0 where
    pub handler : resolved resolve c ≡ some h
    pub on_time : c.deadline_at ≡ none
    pub ready : wait_ms c.ready_at c.delay w.now ≡ 0
    pub short : value_or 0 c.period + value_or 0 c.delay ≤ max_command_delay
    pub queue : w.queue ≡ []
    pub timers : w.timers ≡ []

  pub next-add :
      (c : Command D) (d : ℕ) (w : World D)
      → d ≤ max_command_delay
      → w.queue ≡ []
      → w.timers ≡ []
      → (t : ℕ) × (w.now ≤ t)
        × (next (add c (some d) w) ≡ some (c, record w { now = t; queue = []; timers = [] }))
  unfolding next add push_after postpone clamp_delay
  next-add c zero w h q ts = (w.now, omega arith, ground arith)
  next-add c (suc d) w h q ts = (w.now + suc d, omega arith, ground arith)

  dispatch-process :
      (resolve : ℕ → Option (Handler D)) (o : Option (Handler D)) (h : Handler D) (c : Command D)
      (w : World D)
      → o ≡ some h
      → c.deadline_at ≡ none
      → wait_ms c.ready_at c.delay w.now ≡ 0
      → dispatch resolve o c w ≡ process resolve h c w
  unfolding dispatch
  dispatch-process resolve none h c w e t r = cc
  dispatch-process resolve (some k) h c w e t r = ground arith

  -- The command and the world as `_execute` and `_process` leave them for the handler.
  abbrev pub begun : Handler D → Command D → World D → Command D
  begun h c w = record c {
    started_at = some w.now;
    status = CommandStatus.started;
    contents = h.unpack c.contents;
  }

  abbrev pub begun_world : Command D → World D → World D
  begun_world c w =
      let (c1, w1) = update (λ r. record r { started_at = some w.now }) c w in
      let (c2, w2) = update (set_status CommandStatus.started) c1 w1 in log (Call.execute c2.id) w2

  pub execute-conclude :
      (resolve : ℕ → Option (Handler D)) (h : Handler D) (c : Command D) (w : World D)
      (x : Execution D)
      → Alone resolve h c w
      → h.execute (begun h c w) ≡ (begun h c w, x)
      → (before : World D) × (execute resolve c w
          ≡ conclude resolve h before (begun h c w) x (begun_world c w))
  unfolding execute update process
  execute-conclude resolve h c w x a e =
      let (c1, w1) = update (λ r. record r { started_at = some w.now }) c w in
      (
        w1,
        dispatch-process resolve (resolved resolve c1) h c1 w1 a.handler a.on_time a.ready ∙ rw e,
      )

  -- What `_handleRetry` writes, and the command and the world that it leaves.
  abbrev pub put_back : Handler D → Command D → World D → Command D × World D
  put_back h c w =
      let c1 : Command D = record (begun h c w) { contents = h.pack (h.unpack c.contents) } in
      update
        (λ r. record r {
          status = CommandStatus.pending;
          contents = c1.contents;
          retries = c1.retries - 1;
          message = c1.message;
        })
        c1 (begun_world c w)

  pub execute-retry :
      (resolve : ℕ → Option (Handler D)) (h : Handler D) (c : Command D) (w : World D)
      → Alone resolve h c w
      → h.execute (begun h c w) ≡ (begun h c w, retry)
      → 1 < c.retries
      → execute resolve c w
        ≡ add
            (put_back h c w).0
            (some (value_or 0 c.period + value_or 0 c.delay))
            (put_back h c w).1
  unfolding conclude handle_retry update
  execute-retry resolve h c w a e more =
      let (before, eq) = execute-conclude resolve h c w retry a e in
      eq ∙ rw (lt→ltb 1 c.retries more)

  pub execute-finished :
      (resolve : ℕ → Option (Handler D)) (h : Handler D) (c : Command D) (w : World D)
      → Alone resolve h c w
      → h.execute (begun h c w) ≡ (begun h c w, retry)
      → h.retry_finished (begun h c w) ≡ none
      → c.retries ≤ 1
      → execute resolve c w
        ≡ complete resolve (begun h c w) [] (log (Call.retry_finished c.id) (begun_world c w))
  unfolding conclude handle_retry update
  execute-finished resolve h c w a e f few =
      let (before, eq) = execute-conclude resolve h c w retry a e in
      let no : ltb 1 c.retries ≡ false = ground arith in eq ∙ rw (no, f)
