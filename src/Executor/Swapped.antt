-- ===== src/Executor/Swapped.antt =====
-- `_insert` and `add` of command-executor.js look at a handler's defaults, and not at its `execute`.
use trex_dkg.Prelude.{ℕ, ◌≡◌, Option, none, some, refl, ap, ◌∙◌, List, [], ◌∷◌}
use trex_dkg.Executor.Data.{value_or, Command, Execution, Handler, World}
use trex_dkg.Executor.Queue.{
  first_name, resolve_name, packed, fill, insert_command, add_new, postpone,
}
use trex_dkg.Executor.Execute.{add_all_new, after_expired}

module _ {D : Type 0} where
  -- A handler with another `execute`.
  abbrev pub with_execute :
      (Command D → Command D × Execution D) → Option (Handler D) → Option (Handler D)
  with_execute f none = none
  with_execute f (some h) = some (record h { execute = f })

  packed-with_execute :
      (f : Command D → Command D × Execution D) (found : Option (Handler D)) (contents : Option D)
      → packed (with_execute f found) contents ≡ packed found contents
  packed-with_execute f none contents = refl
  packed-with_execute f (some h) none = refl
  packed-with_execute f (some h) (some x) = refl

  module _ (f : Command D → Command D × Execution D) (resolve : ℕ → Option (Handler D)) where
    abbrev pub other : ℕ → Option (Handler D)
    other n = with_execute f (resolve n)

    pub resolve_name-other :
        (name : Option ℕ) → resolve_name other name ≡ with_execute f (resolve_name resolve name)
    resolve_name-other none = refl
    resolve_name-other (some n) = refl

    fill-other : (now : ℕ) (c : Command D) → fill other now c ≡ fill resolve now c
    unfolding fill
    fill-other now c =
        let name = first_name c.name c.sequence in
        rw (resolve_name-other name, packed-with_execute f (resolve_name resolve name) c.contents)
          refl

    add_new-other :
        (c : Command D) (delay : Option ℕ) (w : World D)
        → add_new other c delay w ≡ add_new resolve c delay w
    unfolding add_new insert_command
    add_new-other c delay w = rw (fill-other w.now (postpone w.now (value_or 0 delay) c)) refl

    add_all_new-other :
        (cs : List (Command D)) (w : World D) → add_all_new other cs w ≡ add_all_new resolve cs w
    unfolding add_all_new
    add_all_new-other [] w = refl
    add_all_new-other (c ∷ cs) w =
        add_all_new-other cs (add_new other c c.delay w)
        ∙ ap (add_all_new resolve cs) (add_new-other c c.delay w)

    pub after_expired-other :
        (cs : Option (List (Command D))) (w : World D)
        → after_expired other cs w ≡ after_expired resolve cs w
    after_expired-other none w = refl
    after_expired-other (some cs) w = add_all_new-other cs w
