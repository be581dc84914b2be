-- ===== src/Executor/Lifetime.antt =====
-- How often a command is run that never succeeds.
use trex_dkg.Prelude.{
  ℕ, zero, suc, ◌+◌, ◌≤◌, ◌≡◌, refl, ◌∙◌, ap, Bool, true, false, Option, none, some, List, [], ◌∷◌,
  ◌++◌, max, if◌then◌else◌, arith,
}
use trex_dkg.Executor.Data.{Command, retry, Handler, World, Call, value_or}
use trex_dkg.Executor.Queue.{update, add}
use trex_dkg.Executor.Execute.{log, insert_all, add_all, complete, execute}
use trex_dkg.Executor.Calls.{executions, executions-append_one}
use trex_dkg.Executor.Retries.{
  wait_ms_mono, next, drive, Alone, next-add, begun, begun_world, put_back, execute-retry,
  execute-finished,
}

abbrev is_given_up : Call → Bool
is_given_up (Call.retry_finished i) = true
is_given_up _ = false

-- How often a handler has been told that the retries are used up.
unfoldable pub given_up : List Call → ℕ
given_up [] = 0
given_up (x ∷ xs) = (if is_given_up x then 1 else 0) + given_up xs

given_up-append_one :
    (l : List Call) (x : Call)
    → given_up (l ++ x ∷ []) ≡ given_up l + (if is_given_up x then 1 else 0)
unfolding given_up
given_up-append_one [] x = omega arith
given_up-append_one (y ∷ l) x = omega (arith, given_up-append_one l x)

module _ {D : Type 0} where
  -- A handler that asks for another try whenever it is run, and does not throw at the end.
  pub record AlwaysRetries (h : Handler D) : Type 0 where
    pub again : (c : Command D) → h.execute c ≡ (c, retry)
    pub quiet : (c : Command D) → h.retry_finished c ≡ none

  drive-next :
      (fuel : ℕ) (resolve : ℕ → Option (Handler D)) (c : Command D) (v w : World D)
      → next v ≡ some (c, w)
      → drive (suc fuel) resolve v ≡ drive fuel resolve (execute resolve c w)
  unfolding drive
  drive-next fuel resolve c v w e = rw (e, drive)

  drive-idle :
      (fuel : ℕ) (resolve : ℕ → Option (Handler D)) (v : World D)
      → v.queue ≡ []
      → v.timers ≡ []
      → drive (suc fuel) resolve v ≡ some v
  unfolding drive next
  drive-idle fuel resolve v q ts = ground arith

  -- The last run.
  lifetime_last :
      (resolve : ℕ → Option (Handler D)) (h : Handler D) (fuel : ℕ) (c : Command D) (v w : World D)
      → AlwaysRetries h
      → next v ≡ some (c, w)
      → Alone resolve h c w
      → c.retries ≤ 1
      → (w' : World D) × (drive (suc (suc fuel)) resolve v ≡ some w')
        × (executions w'.calls ≡ executions w.calls + 1)
        × (given_up w'.calls ≡ given_up w.calls + 1)
  unfolding update complete insert_all add_all
  lifetime_last resolve h fuel c v w s e a few =
      let last =
        execute-finished resolve h c w a (s.again (begun h c w)) (s.quiet (begun h c w)) few in
      let w' : World D =
        complete resolve (begun h c w) [] (log (Call.retry_finished c.id) (begun_world c w)) in
      (
        w',
        drive-next (suc fuel) resolve c v w e
            ∙ ap (drive (suc fuel) resolve) last
            ∙ drive-idle fuel resolve w' a.queue a.timers,
        grind (arith, executions-append_one),
        grind (arith, given_up-append_one),
      )

  -- A command whose handler asks for another try whenever it is run, alone in the executor, without
  -- deadline, ready, and with period and delay within the maximal delay, is done after finitely
  -- many steps: with two steps more than its retries the executor is idle again, the handler has
  -- been run as often as there are retries, but at least once, and has been told exactly once that
  -- they are used up.
  pub lifetime :
      (resolve : ℕ → Option (Handler D)) (h : Handler D) (n : ℕ) (c : Command D) (v w : World D)
      → AlwaysRetries h
      → next v ≡ some (c, w)
      → Alone resolve h c w
      → c.retries ≡ n
      → (w' : World D) × (drive (suc (suc n)) resolve v ≡ some w')
        × (executions w'.calls ≡ executions w.calls + max 1 n)
        × (given_up w'.calls ≡ given_up w.calls + 1)
  unfolding update
  lifetime resolve h zero c v w s e a r = lifetime_last resolve h 0 c v w s e a (omega arith)
  lifetime resolve h (suc zero) c v w s e a r = lifetime_last resolve h 1 c v w s e a (omega arith)
  lifetime resolve h (suc (suc n)) c v w s e a r =
      let c1 : Command D = (put_back h c w).0 in
      let w1 : World D = (put_back h c w).1 in
      let d : ℕ = value_or 0 c.period + value_or 0 c.delay in
      let (t, le, nx) = next-add c1 d w1 a.short a.queue a.timers in
      let step = execute-retry resolve h c w a (s.again (begun h c w)) (omega arith) in
      let a1 : Alone resolve h c1 (record w1 { now = t; queue = []; timers = [] }) = record {
        handler = a.handler;
        on_time = a.on_time;
        ready = wait_ms_mono c.ready_at c.delay w.now t le a.ready;
        short = a.short;
        queue = refl;
        timers = refl;
      } in
      let (w', run, ex, up) =
        lifetime resolve h (suc n) c1 (add c1 (some d) w1)
          (record w1 { now = t; queue = []; timers = [] }) s nx a1 (omega arith) in
      (
        w',
        drive-next (suc (suc (suc n))) resolve c v w e
            ∙ ap (drive (suc (suc (suc n))) resolve) step
            ∙ run,
        omega (arith, executions-append_one w.calls (Call.execute c.id), ex),
        omega (arith, given_up-append_one w.calls (Call.execute c.id), up),
      )
