-- ===== src/Executor/Calls.antt =====
-- How often handlers are run by each part of the executor.
use trex_dkg.Prelude.{
  ℕ, zero, suc, ◌+◌, ◌≡◌, refl, ◌∙◌, ap, String, Bool, true, false, Option, List, [], ◌∷◌, ◌++◌,
  if◌then◌else◌, arith,
}
use trex_dkg.Executor.Data.{
  Command, Execution, repeat, retry, commands, throws, Handler, World, Call,
}
use trex_dkg.Executor.Queue.{update, insert_command, add, add_new, push_after}
use trex_dkg.Executor.Execute.{
  handle_retry, insert_all, add_all, add_all_new, complete, repeat_command, handle_error, conclude,
}

abbrev pub is_execute : Call → Bool
is_execute (Call.execute i) = true
is_execute _ = false

-- How often a handler has been run.
unfoldable pub executions : List Call → ℕ
executions [] = 0
executions (x ∷ xs) = (if is_execute x then 1 else 0) + executions xs

pub executions-append_one :
    (l : List Call) (x : Call)
    → executions (l ++ x ∷ []) ≡ executions l + (if is_execute x then 1 else 0)
unfolding executions
executions-append_one [] x = omega arith
executions-append_one (y ∷ l) x = omega (arith, executions-append_one l x)

module _ {D : Type 0} where
  pub push_after_calls : (d : ℕ) (c : Command D) (w : World D) → (push_after d c w).calls ≡ w.calls
  unfolding push_after
  push_after_calls zero c w = refl
  push_after_calls (suc d) c w = refl

  pub add_calls : (c : Command D) (d : Option ℕ) (w : World D) → (add c d w).calls ≡ w.calls
  unfolding add
  add_calls c d w = grind (arith, push_after_calls)

  pub add_new_calls :
      (resolve : ℕ → Option (Handler D)) (c : Command D) (d : Option ℕ) (w : World D)
      → (add_new resolve c d w).calls ≡ w.calls
  unfolding add_new insert_command
  add_new_calls resolve c d w = grind (arith, push_after_calls)

  pub add_all_calls : (cs : List (Command D)) (w : World D) → (add_all cs w).calls ≡ w.calls
  unfolding add_all
  add_all_calls [] w = refl
  add_all_calls (c ∷ cs) w = add_all_calls cs (add c c.delay w) ∙ add_calls c c.delay w

  pub add_all_new_calls :
      (resolve : ℕ → Option (Handler D)) (cs : List (Command D)) (w : World D)
      → (add_all_new resolve cs w).calls ≡ w.calls
  unfolding add_all_new
  add_all_new_calls resolve [] w = refl
  add_all_new_calls resolve (c ∷ cs) w =
      add_all_new_calls resolve cs _ ∙ add_new_calls resolve c c.delay w

  pub insert_all_calls :
      (resolve : ℕ → Option (Handler D)) (cs : List (Command D)) (w : World D)
      → (insert_all resolve cs w).1.calls ≡ w.calls
  unfolding insert_all insert_command
  insert_all_calls resolve [] w = refl
  insert_all_calls resolve (c ∷ cs) w = insert_all_calls resolve cs _

  pub complete_calls :
      (resolve : ℕ → Option (Handler D)) (c : Command D) (cs : List (Command D)) (w : World D)
      → (complete resolve c cs w).calls ≡ w.calls
  unfolding complete update
  complete_calls resolve c cs w = grind (arith, add_all_calls, insert_all_calls)

  pub repeat_command_calls :
      (h : Handler D) (p : ℕ) (c : Command D) (w : World D)
      → (repeat_command h p c w).calls ≡ w.calls
  unfolding repeat_command update
  repeat_command_calls h p c w = grind (arith, add_calls)

  pub executions-handle_error :
      (h : Handler D) (c : Command D) (m : String) (w : World D)
      → executions (handle_error h c m w).calls ≡ executions w.calls
  unfolding handle_error update
  executions-handle_error h c m w =
      grind (arith, add_calls, repeat_command_calls, executions-append_one)

  pub executions-handle_retry :
      (h : Handler D) (c : Command D) (w : World D)
      → executions (handle_retry h c w).1.calls ≡ executions w.calls
  unfolding handle_retry update
  executions-handle_retry h c w = grind (arith, add_calls, executions-append_one)

  pub executions-conclude :
      (resolve : ℕ → Option (Handler D)) (h : Handler D) (before : World D) (c : Command D)
      (e : Execution D) (w : World D)
      → executions (conclude resolve h before c e w).calls ≡ executions w.calls
  unfolding conclude
  executions-conclude resolve h before c repeat w = ap executions (repeat_command_calls h _ c w)
  executions-conclude resolve h before c retry w =
      grind (arith, executions-handle_retry, complete_calls, executions-handle_error)
  executions-conclude resolve h before c (commands cs) w =
      ap executions (complete_calls resolve c cs w)
  executions-conclude resolve h before c (throws m) w = grind (arith, executions-handle_error)
