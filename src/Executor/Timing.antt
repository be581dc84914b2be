-- ===== src/Executor/Timing.antt =====
-- When a command runs: not before its time, not after its deadline; and how long a timer waits.
use trex_dkg.Prelude.{
  ℕ, ◌+◌, ◌<◌, ◌≡◌, Bool, true, false, not, Option, none, some, refl, ◌⊎◌, ◌↔◌, Option-cases, inl,
  inr, ◌≤◌, Bool-cases, zero, suc, [], ◌∷◌, ◌++◌, ltb, ◌&&◌, if◌then◌else◌, arith,
}
use trex_dkg.Executor.Data.{
  Call, CommandStatus, Command, Execution, Handler, World, max_command_delay,
}
use trex_dkg.Executor.Queue.{
  resolve_name, fill, update, insert_command, add_new, push_after, postpone, clamp_delay,
}
use trex_dkg.Executor.Execute.{
  log, set_status, dispatch, is_late, wait_ms, process, execute, resolved,
}
use trex_dkg.Executor.Swapped.{with_execute, other, resolve_name-other, after_expired-other}
use trex_dkg.Executor.Calls.{
  executions, executions-append_one, add_calls, add_all_new_calls, executions-conclude,
}

-- The deadline, if there is one other than 0, is not before the time.
abbrev pub OnTime : Option ℕ → ℕ → Type 0
OnTime none now = Unit
OnTime (some d) now = (d ≡ 0) ⊎ (now ≤ d)

-- The delay after the ready time is over.
abbrev pub HasCome : Option ℕ → Option ℕ → ℕ → Type 0
HasCome (some r) (some d) now = r + d ≤ now
HasCome (some r) none now = Unit
HasCome none d now = Unit

is_late-OnTime :
    (deadline : Option ℕ) (now : ℕ) → (is_late deadline now ≡ false) ↔ OnTime deadline now
is_late-OnTime none now = (λ e. tt, λ h. refl)
is_late-OnTime (some zero) now = (λ e. inl refl, λ h. refl)
is_late-OnTime (some (suc d)) now = (λ e. ground arith, λ h. ground arith)

wait_ms-HasCome :
    (ready delay : Option ℕ) (now : ℕ)
    → (ltb 0 (wait_ms ready delay now) ≡ false) ↔ HasCome ready delay now
wait_ms-HasCome none delay now = (λ e. tt, λ h. refl)
wait_ms-HasCome (some r) none now = (λ e. tt, λ h. refl)
wait_ms-HasCome (some r) (some d) now = (λ e. ground arith, λ h. ground arith)

module _ {D : Type 0} where
  executions-process :
      (resolve : ℕ → Option (Handler D)) (h : Handler D) (c : Command D) (w : World D)
      → executions (process resolve h c w).calls ≡ executions w.calls + 1
  unfolding process update
  executions-process resolve h c w = grind (arith, executions-conclude, executions-append_one)

  abbrev pub has_handler : Option (Handler D) → Bool
  has_handler none = false
  has_handler (some h) = true

  -- A command runs if it has a handler, its deadline has not passed and its time has come.
  abbrev pub runs : (ℕ → Option (Handler D)) → Command D → ℕ → Bool
  runs resolve c now =
      has_handler (resolved resolve c)
      && (not (is_late c.deadline_at now) && not (ltb 0 (wait_ms c.ready_at c.delay now)))

  executions_if :
      (resolve : ℕ → Option (Handler D)) (c : Command D) (w : World D)
      → executions (execute resolve c w).calls
        ≡ executions w.calls + (if runs resolve c w.now then 1 else 0)
  unfolding execute dispatch update
  executions_if resolve c w =
      grind (arith, executions-process, add_calls, add_all_new_calls, executions-append_one)

  dispatch-other :
      (f : Command D → Command D × Execution D) (resolve : ℕ → Option (Handler D))
      (found : Option (Handler D)) (c : Command D) (w : World D)
      → has_handler found
          && (not (is_late c.deadline_at w.now) && not (ltb 0 (wait_ms c.ready_at c.delay w.now)))
        ≡ false
      → dispatch (other f resolve) (with_execute f found) c w ≡ dispatch resolve found c w
  unfolding dispatch update
  dispatch-other f resolve none c w h = refl
  dispatch-other f resolve (some handler) c w h = elim (Bool-cases (is_late c.deadline_at w.now)) [
    | inl late ↦
        let expired : Command D = record c { status = CommandStatus.expired } in
        rw late (
          after_expired-other f resolve (handler.on_expired expired)
            (log (Call.on_expired c.id) (update (set_status CommandStatus.expired) c w).1))
    | inr on_time ↦ elim (Bool-cases (ltb 0 (wait_ms c.ready_at c.delay w.now))) [
      | inl waits ↦ rw (on_time, waits) refl
      | inr come ↦ absurd (ground arith)
    ]
  ]

  resolved-other :
      (f : Command D → Command D × Execution D) (resolve : ℕ → Option (Handler D)) (c : Command D)
      → resolved (other f resolve) c ≡ with_execute f (resolved resolve c)
  resolved-other f resolve c = resolve_name-other f resolve c.name

  execute-other :
      (f : Command D → Command D × Execution D) (resolve : ℕ → Option (Handler D)) (c : Command D)
      (w : World D)
      → runs resolve c w.now ≡ false
      → execute (λ n. with_execute f (resolve n)) c w ≡ execute resolve c w
  unfolding execute update
  execute-other f resolve c w h =
      let (c', w') = update (λ r. record r { started_at = some w.now }) c w in
      rw (resolved-other f resolve c') (dispatch-other f resolve (resolved resolve c') c' w' h)

  -- The handler of the command's name, which may run now.
  pub record MayRun (resolve : ℕ → Option (Handler D)) (c : Command D) (now : ℕ) (h : Handler D)
      : Type 0 where
    pub name : ℕ
    pub called : c.name ≡ some name
    pub handler : resolve name ≡ some h
    pub on_time : OnTime c.deadline_at now
    pub has_come : HasCome c.ready_at c.delay now

  resolve_name-some :
      (resolve : ℕ → Option (Handler D)) (name : Option ℕ) (h : Handler D)
      → resolve_name resolve name ≡ some h
      → (n : ℕ) × (name ≡ some n) × (resolve n ≡ some h)
  resolve_name-some resolve none h e = absurd (cc e)
  resolve_name-some resolve (some n) h e = (n, refl, e)

  runs-true :
      (resolve : ℕ → Option (Handler D)) (c : Command D) (now : ℕ)
      → runs resolve c now ≡ true
      → (h : Handler D) × MayRun resolve c now h
  runs-true resolve c now e = elim (Option-cases (resolved resolve c)) [
    | inl lost ↦ absurd (ground arith)
    | inr (h, found) ↦
        let (n, called, handler) = resolve_name-some resolve c.name h found in
        (
          h,
          record {
            name = n;
            called = called;
            handler = handler;
            on_time = (is_late-OnTime c.deadline_at now).0 (ground arith);
            has_come = (wait_ms-HasCome c.ready_at c.delay now).0 (ground arith);
          },
        )
  ]

  MayRun-resolved :
      (resolve : ℕ → Option (Handler D)) (c : Command D) (now : ℕ) (h : Handler D)
      → MayRun resolve c now h
      → resolved resolve c ≡ some h
  MayRun-resolved resolve c now h m = rw m.called m.handler

  runs-MayRun :
      (resolve : ℕ → Option (Handler D)) (c : Command D) (now : ℕ) (h : Handler D)
      → MayRun resolve c now h
      → runs resolve c now ≡ true
  runs-MayRun resolve c now h m =
      let found = MayRun-resolved resolve c now h m in
      let on_time = (is_late-OnTime c.deadline_at now).1 m.on_time in
      let come = (wait_ms-HasCome c.ready_at c.delay now).1 m.has_come in
      rw (found, on_time, come) refl

  execute-process :
      (resolve : ℕ → Option (Handler D)) (c : Command D) (w : World D) (h : Handler D)
      → MayRun resolve c w.now h
      → execute resolve c w ≡ (
          let (c', w') = update (λ r. record r { started_at = some w.now }) c w in
          process resolve h c' w')
  unfolding execute dispatch update
  execute-process resolve c w h m =
      let found = MayRun-resolved resolve c w.now h m in
      let on_time = (is_late-OnTime c.deadline_at w.now).1 m.on_time in
      let come = (wait_ms-HasCome c.ready_at c.delay w.now).1 m.has_come in
      rw (found, on_time, come) refl

  -- A command may run if its name has a handler, the deadline, where there is one other than 0, is
  -- not before now, and the delay after its ready time is over. Executing a command that may run
  -- processes it, as started at that time, with that handler, and runs the handler once, whatever
  -- it returns or throws. Executing any other runs none, and the result is the same with any other
  -- functions as the `execute` of the handlers.
  pub executions-execute :
      (resolve : ℕ → Option (Handler D)) (c : Command D) (w : World D)
      → let after = execute resolve c w in
        ((h : Handler D) × MayRun resolve c w.now h
          × (after ≡ (
              let (c', w') = update (λ r. record r { started_at = some w.now }) c w in
              process resolve h c' w'))
          × (executions after.calls ≡ executions w.calls + 1))
        ⊎ ((¬ ((h : Handler D) × MayRun resolve c w.now h))
            × ((f : Command D → Command D × Execution D)
                → execute (λ n. with_execute f (resolve n)) c w ≡ after)
            × (executions after.calls ≡ executions w.calls))
  executions-execute resolve c w =
      let count = executions_if resolve c w in
      elim (Bool-cases (runs resolve c w.now)) [
        | inl t ↦
            let (h, m) = runs-true resolve c w.now t in
            inl (h, m, execute-process resolve c w h m, rw t at count)
        | inr f ↦ inr (
          λ m. absurd (cc (runs-MayRun resolve c w.now m.0 m.1, f)),
          λ g. execute-other g resolve c w f,
          ground arith,
        )
      ]

  -- The command as it is stored by `add_new` with a delay above the maximum.
  abbrev delayed : (ℕ → Option (Handler D)) → Command D → ℕ → World D → Command D
  delayed resolve c d w = (insert_command resolve (postpone w.now d c) w).0

  -- A new command without a ready time, added with a delay above the maximum, has its timer set to
  -- the maximum, and its handler is not run by an execution before twice the delay has passed.
  pub long_delay_doubled :
      (resolve : ℕ → Option (Handler D)) (c : Command D) (d : ℕ) (w v : World D)
      → max_command_delay < d
      → c.delay ≡ some d
      → c.ready_at ≡ none
      → v.now < w.now + d + d
      → ((add_new resolve c (some d) w).timers
          ≡ w.timers
            ++ record { due = w.now + max_command_delay; command = delayed resolve c d w } ∷ [])
        × (executions (execute resolve (delayed resolve c d w) v).calls ≡ executions v.calls)
  unfolding add_new insert_command push_after postpone clamp_delay fill
  long_delay_doubled resolve c d w v long e r early =
      (ground arith, ground (arith, executions_if resolve (delayed resolve c d w) v))
