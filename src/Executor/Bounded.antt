-- ===== src/Executor/Bounded.antt =====
-- How long timers wait: never longer than the maximal delay, which fits `setTimeout`.
use trex_dkg.Prelude.{
  Bool-cases, Option-cases, inl, inr, ℕ, zero, suc, ◌+◌, ◌≤◌, ◌≡◌, String, Bool, true, false,
  Option, none, some, List, [], ◌∷◌, ◌++◌, ltb, arith,
}
use trex_dkg.Executor.Data.{
  CommandStatus, Command, Execution, repeat, retry, commands, throws, Handler, Timer, World,
  max_command_delay,
}
use trex_dkg.Executor.Queue.{update, insert_command, add, add_new, push_after, clamp_delay}
use trex_dkg.Executor.Execute.{
  after_recover, after_expired, dispatch, rolled_back, after_retry, RetryResult, again, finished,
  raised, is_late, wait_ms, handle_retry, insert_all, add_all, add_all_new, complete,
  repeat_command, handle_error, conclude, process, execute,
}

clamp_delay-le : (d : ℕ) → clamp_delay d ≤ max_command_delay
unfolding clamp_delay
clamp_delay-le d = ground arith

module _ {D : Type 0} where
  abbrev Due : ℕ → List (Timer D) → Type 0
  Due n [] = Unit
  Due n (t ∷ ts) = (t.due ≤ n + max_command_delay) × Due n ts

  -- Every timer of a world at time `n` waits for the maximal delay at most.
  pub record IsBounded (n : ℕ) (w : World D) : Type 0 where
    pub clock : w.now ≡ n
    pub due : Due n w.timers

  Due-append_one :
      (n : ℕ) (ts : List (Timer D)) (t : Timer D)
      → Due n ts
      → t.due ≤ n + max_command_delay
      → Due n (ts ++ t ∷ [])
  Due-append_one n [] t h k = (k, tt)
  Due-append_one n (x ∷ ts) t h k = (h.0, Due-append_one n ts t h.1 k)

  push_after-IsBounded :
      (n d : ℕ) (c : Command D) (w : World D)
      → d ≤ max_command_delay
      → IsBounded n w
      → IsBounded n (push_after d c w)
  unfolding push_after
  push_after-IsBounded n zero c w h b = record { clock = b.clock; due = b.due }
  push_after-IsBounded n (suc d) c w h b = record {
    clock = b.clock;
    due =
        Due-append_one n w.timers (record { due = w.now + suc d; command = c }) b.due
          (omega (arith, b.clock));
  }

  add-IsBounded :
      (n : ℕ) (c : Command D) (d : Option ℕ) (w : World D) → IsBounded n w → IsBounded n (add c d w)
  unfolding add
  add-IsBounded n c d w b = push_after-IsBounded n _ _ w (clamp_delay-le _) b

  add_new-IsBounded :
      (resolve : ℕ → Option (Handler D)) (n : ℕ) (c : Command D) (d : Option ℕ) (w : World D)
      → IsBounded n w
      → IsBounded n (add_new resolve c d w)
  unfolding add_new insert_command
  add_new-IsBounded resolve n c d w b =
      push_after-IsBounded n _ _ _ (clamp_delay-le _) (record { clock = b.clock; due = b.due })

  add_all-IsBounded :
      (n : ℕ) (cs : List (Command D)) (w : World D) → IsBounded n w → IsBounded n (add_all cs w)
  unfolding add_all
  add_all-IsBounded n [] w b = b
  add_all-IsBounded n (c ∷ cs) w b =
      add_all-IsBounded n cs (add c c.delay w) (add-IsBounded n c c.delay w b)

  add_all_new-IsBounded :
      (resolve : ℕ → Option (Handler D)) (n : ℕ) (cs : List (Command D)) (w : World D)
      → IsBounded n w
      → IsBounded n (add_all_new resolve cs w)
  unfolding add_all_new
  add_all_new-IsBounded resolve n [] w b = b
  add_all_new-IsBounded resolve n (c ∷ cs) w b =
      add_all_new-IsBounded resolve n cs (add_new resolve c c.delay w)
        (add_new-IsBounded resolve n c c.delay w b)

  insert_all-IsBounded :
      (resolve : ℕ → Option (Handler D)) (n : ℕ) (cs : List (Command D)) (w : World D)
      → IsBounded n w
      → IsBounded n (insert_all resolve cs w).1
  unfolding insert_all insert_command
  insert_all-IsBounded resolve n [] w b = b
  insert_all-IsBounded resolve n (c ∷ cs) w b =
      insert_all-IsBounded resolve n cs (insert_command resolve c w).1
        (record { clock = b.clock; due = b.due })

  update-IsBounded :
      (f : Command D → Command D) (n : ℕ) (c : Command D) (w : World D)
      → IsBounded n w
      → IsBounded n (update f c w).1
  unfolding update
  update-IsBounded f n c w b = record { clock = b.clock; due = b.due }

  complete-IsBounded :
      (resolve : ℕ → Option (Handler D)) (n : ℕ) (c : Command D) (cs : List (Command D))
      (w : World D)
      → IsBounded n w
      → IsBounded n (complete resolve c cs w)
  unfolding complete
  complete-IsBounded resolve n c cs w b =
      add_all-IsBounded n _ _ (update-IsBounded _ n c _ (insert_all-IsBounded resolve n _ w b))

  repeat_command-IsBounded :
      (h : Handler D) (n p : ℕ) (c : Command D) (w : World D)
      → IsBounded n w
      → IsBounded n (repeat_command h p c w)
  unfolding repeat_command
  repeat_command-IsBounded h n p c w b = add-IsBounded n _ _ _ (update-IsBounded _ n c w b)

  -- A rollback restores rows only.
  rolled_back-IsBounded :
      (n : ℕ) (c : Command D) (before w : World D)
      → IsBounded n w
      → IsBounded n (rolled_back c before w)
  rolled_back-IsBounded n c before w b = elim (Bool-cases c.transactional) [
    | inl e ↦ rw e (record { clock = b.clock; due = b.due })
    | inr e ↦ rw e b
  ]

  handle_retry-IsBounded :
      (h : Handler D) (n : ℕ) (c : Command D) (w : World D)
      → IsBounded n w
      → IsBounded n (handle_retry h c w).1
  unfolding handle_retry
  handle_retry-IsBounded h n c w b = elim (Bool-cases (ltb 1 c.retries)) [
    | inl e ↦ rw e (
        add-IsBounded n _ _ _
          (update-IsBounded _ n (record c { contents = h.pack c.contents }) w b))
    | inr e ↦ elim (Option-cases (h.retry_finished c)) [
      | inl f ↦ rw (e, f, handle_retry) (record { clock = b.clock; due = b.due })
      | inr (m, f) ↦ rw (e, f, handle_retry) (record { clock = b.clock; due = b.due })
    ]
  ]

  after_recover-IsBounded :
      (h : Handler D) (n : ℕ) (c : Command D) (o : Option Bool) (w : World D)
      → IsBounded n w
      → IsBounded n (after_recover h c o w)
  after_recover-IsBounded h n c none w b = b
  after_recover-IsBounded h n c (some false) w b = b
  after_recover-IsBounded h n c (some true) w b = repeat_command-IsBounded h n _ c w b

  handle_error-IsBounded :
      (h : Handler D) (n : ℕ) (c : Command D) (m : String) (w : World D)
      → IsBounded n w
      → IsBounded n (handle_error h c m w)
  unfolding handle_error
  handle_error-IsBounded h n c m w b = elim (Bool-cases (ltb 0 c.retries)) [
    | inl e ↦ rw e (add-IsBounded n _ _ _ (update-IsBounded _ n c w b))
    | inr e ↦
        let f : Command D → Command D =
          λ r. record r { status = CommandStatus.failed; message = some m } in
        let b' = update-IsBounded f n c w b in
        rw e (
          after_recover-IsBounded h n (update f c w).0 (h.recover (update f c w).0) _
            (record { clock = b'.clock; due = b'.due }))
  ]

  after_retry-IsBounded :
      (resolve : ℕ → Option (Handler D)) (h : Handler D) (n : ℕ) (c : Command D) (before : World D)
      (r : RetryResult × World D)
      → IsBounded n r.1
      → IsBounded n (after_retry resolve h c before r)
  after_retry-IsBounded resolve h n c before (again, w) b = b
  after_retry-IsBounded resolve h n c before (finished, w) b = complete-IsBounded resolve n c [] w b
  after_retry-IsBounded resolve h n c before (raised m, w) b =
      handle_error-IsBounded h n c m _ (rolled_back-IsBounded n c before w b)

  conclude-IsBounded :
      (resolve : ℕ → Option (Handler D)) (h : Handler D) (n : ℕ) (before : World D) (c : Command D)
      (x : Execution D) (w : World D)
      → IsBounded n w
      → IsBounded n (conclude resolve h before c x w)
  unfolding conclude
  conclude-IsBounded resolve h n before c repeat w b = repeat_command-IsBounded h n _ c w b
  conclude-IsBounded resolve h n before c retry w b =
      after_retry-IsBounded resolve h n c before (handle_retry h c w)
        (handle_retry-IsBounded h n c w b)
  conclude-IsBounded resolve h n before c (commands cs) w b = complete-IsBounded resolve n c cs w b
  conclude-IsBounded resolve h n before c (throws m) w b =
      handle_error-IsBounded h n c m _ (rolled_back-IsBounded n c before w b)

  process-IsBounded :
      (resolve : ℕ → Option (Handler D)) (h : Handler D) (n : ℕ) (c : Command D) (w : World D)
      → IsBounded n w
      → IsBounded n (process resolve h c w)
  unfolding process update
  process-IsBounded resolve h n c w b =
      conclude-IsBounded resolve h n w _ _ _ (record { clock = b.clock; due = b.due })

  after_expired-IsBounded :
      (resolve : ℕ → Option (Handler D)) (n : ℕ) (o : Option (List (Command D))) (w : World D)
      → IsBounded n w
      → IsBounded n (after_expired resolve o w)
  after_expired-IsBounded resolve n none w b = b
  after_expired-IsBounded resolve n (some cs) w b = add_all_new-IsBounded resolve n cs w b

  dispatch-IsBounded :
      (resolve : ℕ → Option (Handler D)) (n : ℕ) (o : Option (Handler D)) (c : Command D)
      (w : World D)
      → IsBounded n w
      → IsBounded n (dispatch resolve o c w)
  unfolding dispatch update
  dispatch-IsBounded resolve n none c w b = record { clock = b.clock; due = b.due }
  dispatch-IsBounded resolve n (some h) c w b = elim (Bool-cases (is_late c.deadline_at w.now)) [
    | inl e ↦ rw e (after_expired-IsBounded resolve n _ _ (record { clock = b.clock; due = b.due }))
    | inr e ↦ rw e (elim (Bool-cases (ltb 0 (wait_ms c.ready_at c.delay w.now))) [
      | inl f ↦ rw f (add-IsBounded n _ _ w b)
      | inr f ↦ rw f (process-IsBounded resolve h n c w b)
    ])
  ]

  -- Executing a command keeps the invariant that every timer is set to fire within the maximal
  -- command delay from now, whatever the handler does: on each path of repeat, retry, error,
  -- recovery, expiry, children and waiting.
  pub execute-IsBounded :
      (resolve : ℕ → Option (Handler D)) (n : ℕ) (c : Command D) (w : World D)
      → IsBounded n w
      → IsBounded n (execute resolve c w)
  unfolding execute update
  execute-IsBounded resolve n c w b =
      dispatch-IsBounded resolve n _ _ _ (record { clock = b.clock; due = b.due })
