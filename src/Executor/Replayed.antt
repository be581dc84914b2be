-- ===== src/Executor/Replayed.antt =====
-- `replayOldCommands` of command-executor.js: which commands are added to the queue.
use trex_dkg.Prelude.{
  ℕ, zero, suc, ◌≡◌, ◌⊎◌, refl, arith, inl, inr, sym, append-nil, append_assoc, Bool, true, false,
  not, Option, none, some, List, [], ◌∷◌, ◌++◌, ◌∙◌, Dict, lookup, ◌==◌, ◌&&◌, if◌then◌else◌,
  Bool-cases,
}
use trex_dkg.Executor.Data.{CommandStatus, Command, World}
use trex_dkg.Executor.Queue.{add, push_after, clamp_delay, postpone}
use trex_dkg.Executor.Replay.{
  includes, is_unfinished, is_completed, not_in, commands_with_status, blocks, may_replay,
  replayable, add_replayed, replay_old_commands,
}

abbrev pub IsIn : ℕ → List ℕ → Type 0
IsIn n [] = ⊥
IsIn n (m ∷ ms) = (n ≡ m) ⊎ IsIn n ms

includes-true : (n : ℕ) (ms : List ℕ) → includes n ms ≡ true → IsIn n ms
includes-true n [] h = absurd (cc h)
includes-true n (m ∷ ms) h = ground (arith, includes-true n ms)

includes-false : (n : ℕ) (ms : List ℕ) → includes n ms ≡ false → ¬ IsIn n ms
includes-false n [] h i = i
includes-false n (m ∷ ms) h (inl e) = ground arith
includes-false n (m ∷ ms) h (inr i) = includes-false n ms (ground arith) i

includes_none : (n : ℕ) (ms : List ℕ) → ¬ IsIn n ms → includes n ms ≡ false
includes_none n [] h = refl
includes_none n (m ∷ ms) h = elim (Bool-cases (n == m)) [
  | inl e ↦ absurd (h (inl (ground arith)))
  | inr e ↦ rw (e, includes_none n ms (λ i. h (inr i))) refl
]

not_in-true :
    (name : Option ℕ) (ms : List ℕ)
    → not_in name ms ≡ true
    → (n : ℕ) × (name ≡ some n) × ¬ IsIn n ms
not_in-true none ms h = absurd (cc h)
not_in-true (some n) ms h = (n, refl, includes-false n ms (ground arith))

IsIn-not_in :
    (name : Option ℕ) (ms : List ℕ)
    → (n : ℕ) × (name ≡ some n) × ¬ IsIn n ms
    → not_in name ms ≡ true
IsIn-not_in name ms (n, e, h) = rw (e, includes_none n ms h) refl

abbrev pub IsUnfinished : CommandStatus → Type 0
IsUnfinished st =
    (st ≡ CommandStatus.pending) ⊎ (st ≡ CommandStatus.started) ⊎ (st ≡ CommandStatus.repeating)

is_unfinished-true : (st : CommandStatus) → is_unfinished st ≡ true → IsUnfinished st
is_unfinished-true CommandStatus.pending h = inl refl
is_unfinished-true CommandStatus.started h = inr (inl refl)
is_unfinished-true CommandStatus.repeating h = inr (inr refl)
is_unfinished-true CommandStatus.failed h = absurd (cc h)
is_unfinished-true CommandStatus.expired h = absurd (cc h)
is_unfinished-true CommandStatus.unknown h = absurd (cc h)
is_unfinished-true CommandStatus.completed h = absurd (cc h)

unfinished_status : (st : CommandStatus) → IsUnfinished st → is_unfinished st ≡ true
unfinished_status st (inl e) = rw e refl
unfinished_status st (inr (inl e)) = rw e refl
unfinished_status st (inr (inr e)) = rw e refl

is_completed-true : (st : CommandStatus) → is_completed st ≡ true → st ≡ CommandStatus.completed
is_completed-true CommandStatus.completed h = refl
is_completed-true CommandStatus.pending h = absurd (cc h)
is_completed-true CommandStatus.started h = absurd (cc h)
is_completed-true CommandStatus.repeating h = absurd (cc h)
is_completed-true CommandStatus.failed h = absurd (cc h)
is_completed-true CommandStatus.expired h = absurd (cc h)
is_completed-true CommandStatus.unknown h = absurd (cc h)

module _ {D : Type 0} where
  -- The command has a parent with a nonzero id, which is completed or no longer stored.
  abbrev pub Ready : Dict (Command D) → Option ℕ → Type 0
  Ready rows none = ⊥
  Ready rows (some zero) = ⊥
  Ready rows (some (suc p)) =
      (lookup (suc p) rows ≡ none)
      ⊎ ((parent : Command D) × (lookup (suc p) rows ≡ some parent)
          × (parent.status ≡ CommandStatus.completed))

  -- What a command is that is replayed.
  pub record IsReplayed (permanent working : List ℕ) (rows : Dict (Command D)) (c : Command D)
      : Type 0 where
    pub unfinished : IsUnfinished c.status
    pub called : (n : ℕ) × (c.name ≡ some n) × ¬ IsIn n permanent
    pub ready : Ready rows c.parent_id
    pub idle : ¬ IsIn c.id working

  -- The commands of a table that have a property, in the order of the table.
  pub data AreSelected (P : Command D → Type 0) : Dict (Command D) → List (Command D) → Type 0 where
    none_left : AreSelected P [] []
    taken :
        {i : ℕ} {c : Command D} {rows : Dict (Command D)} {cs : List (Command D)}
        → P c
        → AreSelected P rows cs
        → AreSelected P ((i, c) ∷ rows) (c ∷ cs)
    left_out :
        {i : ℕ} {c : Command D} {rows : Dict (Command D)} {cs : List (Command D)}
        → ¬ P c
        → AreSelected P rows cs
        → AreSelected P ((i, c) ∷ rows) cs

  -- The tests of the code in one, which the proof goes through.
  abbrev is_replayed : List ℕ → List ℕ → Dict (Command D) → Command D → Bool
  is_replayed permanent working rows c =
      (is_unfinished c.status && not_in c.name permanent)
      && (may_replay rows c && not (includes c.id working))

  unfoldable select : (Command D → Bool) → Dict (Command D) → List (Command D)
  select p [] = []
  select p ((i, c) ∷ rows) = let rest = select p rows in if p c then c ∷ rest else rest

  add_replayed_queue :
      (permanent working : List ℕ) (all rows : Dict (Command D)) (w : World D)
      → (add_replayed working (replayable all (commands_with_status permanent rows)) w).queue
        ≡ w.queue ++ select (is_replayed permanent working all) rows
  unfolding add_replayed replayable commands_with_status select add push_after clamp_delay postpone
  add_replayed_queue permanent working all [] w = sym (append-nil w.queue)
  add_replayed_queue permanent working all ((i, c) ∷ rows) w =
      let same = add_replayed_queue permanent working all rows w in
      let more =
        add_replayed_queue permanent working all rows (record w { queue = w.queue ++ c ∷ [] }) in
      elim (Bool-cases (is_unfinished c.status && not_in c.name permanent)) [
        | inr f ↦ simp (f, same)
        | inl t ↦ elim (Bool-cases (may_replay all c)) [
          | inr g ↦ simp (t, g, same)
          | inl u ↦ elim (Bool-cases (includes c.id working)) [
            | inl h ↦ simp (t, u, h, same)
            | inr h ↦
                simp (t, u, h)
                  (more
                    ∙ append_assoc w.queue (c ∷ [])
                        (select (is_replayed permanent working all) rows))
          ]
        ]
      ]

  blocks-false :
      (p : Option (Command D))
      → blocks p ≡ false
      → (p ≡ none)
        ⊎ ((parent : Command D) × (p ≡ some parent) × (parent.status ≡ CommandStatus.completed))
  blocks-false none h = inl refl
  blocks-false (some parent) h = inr (parent, refl, is_completed-true parent.status (ground arith))

  blocks-true :
      (p : Option (Command D)) (parent : Command D)
      → blocks p ≡ true
      → p ≡ some parent
      → parent.status ≡ CommandStatus.completed
      → ⊥
  blocks-true p parent h e done =
      let blocked : not (is_completed parent.status) ≡ true = rw e at h in cc (rw done at blocked)

  module _ (permanent working : List ℕ) (rows : Dict (Command D)) where
    may_replay-Ready :
        (c : Command D) (parent : Option ℕ)
        → c.parent_id ≡ parent
        → may_replay rows c ≡ true
        → Ready rows parent
    unfolding may_replay
    may_replay-Ready c none e h = absurd (cc (rw e at h))
    may_replay-Ready c (some zero) e h = absurd (cc (rw e at h))
    may_replay-Ready c (some (suc p)) e h =
        let free : not (blocks (lookup (suc p) rows)) ≡ true = rw e at h in
        blocks-false (lookup (suc p) rows) (ground arith)

    may_replay-not-Ready :
        (c : Command D) (parent : Option ℕ)
        → c.parent_id ≡ parent
        → may_replay rows c ≡ false
        → ¬ Ready rows parent
    unfolding may_replay
    may_replay-not-Ready c none e h r = r
    may_replay-not-Ready c (some zero) e h r = r
    may_replay-not-Ready c (some (suc p)) e h (inl gone) =
        let free : not (blocks (lookup (suc p) rows)) ≡ false = rw e at h in cc (rw gone at free)
    may_replay-not-Ready c (some (suc p)) e h (inr (parent, found, done)) =
        let held : not (blocks (lookup (suc p) rows)) ≡ false = rw e at h in
        blocks-true (lookup (suc p) rows) parent (ground arith) found done

    is_replayed-true :
        (c : Command D)
        → is_replayed permanent working rows c ≡ true
        → IsReplayed permanent working rows c
    is_replayed-true c h = record {
      unfinished = is_unfinished-true c.status (ground arith);
      called = not_in-true c.name permanent (ground arith);
      ready = may_replay-Ready c c.parent_id refl (ground arith);
      idle = includes-false c.id working (ground arith);
    }

    is_replayed-false :
        (c : Command D)
        → is_replayed permanent working rows c ≡ false
        → ¬ IsReplayed permanent working rows c
    is_replayed-false c h r =
        let u = unfinished_status c.status r.unfinished in
        let n = IsIn-not_in c.name permanent r.called in
        let i = includes_none c.id working r.idle in
        elim (Bool-cases (may_replay rows c)) [
          | inl t ↦ ground arith
          | inr f ↦ may_replay-not-Ready c c.parent_id refl f r.ready
        ]

  select-AreSelected :
      (p : Command D → Bool) (P : Command D → Type 0)
      → ((c : Command D) → p c ≡ true → P c)
      → ((c : Command D) → p c ≡ false → ¬ P c)
      → (rows : Dict (Command D)) → AreSelected P rows (select p rows)
  unfolding select
  select-AreSelected p P holds fails [] = none_left
  select-AreSelected p P holds fails ((i, c) ∷ rows) = elim (Bool-cases (p c)) [
    | inl t ↦ rw (t, select) (taken (holds c t) (select-AreSelected p P holds fails rows))
    | inr f ↦ rw (f, select) (left_out (fails c f) (select-AreSelected p P holds fails rows))
  ]

  -- After the replay the queue has its own commands and then, in the order of the table, each row
  -- that is pending, started or repeating, has a name other than those of the permanent commands,
  -- has a parent with a nonzero id that is completed or no longer stored, and is not with a worker;
  -- and no other row.
  pub queue-replay_old_commands :
      (permanent working : List ℕ) (w : World D)
      → (cs : List (Command D)) × ((replay_old_commands permanent working w).queue ≡ w.queue ++ cs)
        × AreSelected (IsReplayed permanent working w.rows) w.rows cs
  unfolding replay_old_commands
  queue-replay_old_commands permanent working w = (
    select (is_replayed permanent working w.rows) w.rows,
    add_replayed_queue permanent working w.rows w.rows w,
    select-AreSelected (is_replayed permanent working w.rows) (IsReplayed permanent working w.rows)
        (is_replayed-true permanent working w.rows) (is_replayed-false permanent working w.rows)
        w.rows,
  )
