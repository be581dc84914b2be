-- ===== src/Epoch/Punctual.antt =====
-- Commits are scheduled for what is due.
use trex_dkg.Prelude.{
  ℕ, suc, ◌≤◌, ◌≡◌, ◌⊎◌, inl, inr, refl, ap, ◌∙◌, Bool, true, some, List, [], ◌∷◌, map, take, zero,
  length, arith, Bool-cases,
}
use mathlib.Core.List.{Memᴰ}
use trex_dkg.Epoch.Data.{Agreement, Due}
use trex_dkg.Epoch.Queries.{
  current_epoch, is_eligible_for_commit, rows_where, as_due,
  get_eligible_agreements_for_submit_commit, limit,
}
use trex_dkg.Epoch.Loop.{All, schedule-All, length-schedule}
use trex_dkg.Epoch.Commits.{CommitCommand, Sources, commit_to, schedule_submit_commit_commands}
use trex_dkg.Epoch.Justified.{IsWorthwhile, commit_to-some}

-- A commit of an eligible agreement of the table, for its current epoch.
pub record IsDue (x : Sources) (test : Agreement → Bool) (table : List Agreement)
    (c : CommitCommand) : Type 0 where
  pub row : Agreement
  pub stored : Memᴰ row table
  pub eligible : test row ≡ true
  pub same : c.agreement.agreement_id ≡ row.agreement_id
  pub now : c.epoch ≡ current_epoch x.timestamp row
  pub worthwhile : IsWorthwhile x c

pub cons-Memᴰ : {a b : Agreement} {l : List Agreement} → Memᴰ a (b ∷ l) → (a ≡ b) ⊎ Memᴰ a l
cons-Memᴰ (Memᴰ.head e) = inl e
cons-Memᴰ (Memᴰ.tail i) = inr i

pub rows_where-Memᴰ :
    (test : Agreement → Bool) (table : List Agreement) (a : Agreement)
    → Memᴰ a (rows_where test table)
    → Memᴰ a table × (test a ≡ true)
rows_where-Memᴰ test [] a i = elim i [ ]
rows_where-Memᴰ test (b ∷ table) a i = elim (Bool-cases (test b)) [
  | inl t ↦ elim (cons-Memᴰ (rw t at i)) [
    | inl same ↦ (Memᴰ.head same, ap test same ∙ t)
    | inr j ↦ let (k, e) = rows_where-Memᴰ test table a j in (Memᴰ.tail k, e)
  ]
  | inr f ↦ let (k, e) = rows_where-Memᴰ test table a (rw f at i) in (Memᴰ.tail k, e)
]

pub take-Memᴰ : (n : ℕ) (l : List Agreement) (a : Agreement) → Memᴰ a (take n l) → Memᴰ a l
take-Memᴰ zero l a i = elim i [ ]
take-Memᴰ (suc n) [] a i = elim i [ ]
take-Memᴰ (suc n) (b ∷ l) a (Memᴰ.head e) = Memᴰ.head e
take-Memᴰ (suc n) (b ∷ l) a (Memᴰ.tail i) = Memᴰ.tail (take-Memᴰ n l a i)

pub as_due-Memᴰ :
    (t : ℕ) (l : List Agreement) (r : Due)
    → Memᴰ r (map (as_due t) l)
    → (a : Agreement) × Memᴰ a l × (r ≡ as_due t a)
as_due-Memᴰ t [] r i = elim i [ ]
as_due-Memᴰ t (a ∷ l) r (Memᴰ.head e) = (a, Memᴰ.head refl, e)
as_due-Memᴰ t (a ∷ l) r (Memᴰ.tail i) = let (b, j, e) = as_due-Memᴰ t l r i in (b, Memᴰ.tail j, e)

-- The database puts the rows in some order.
abbrev pub IsOrder : (List Agreement → List Agreement) → Type 0
IsOrder order_by = (l : List Agreement) (a : Agreement) → Memᴰ a (order_by l) → Memᴰ a l

module _ (x : Sources) (order_by : List Agreement → List Agreement) (orders : IsOrder order_by)
    (blockchain perc delay : ℕ) (table : List Agreement) where
  abbrev is_eligible : Agreement → Bool
  is_eligible = is_eligible_for_commit x.timestamp blockchain perc delay

  abbrev rows : List Due
  rows = get_eligible_agreements_for_submit_commit order_by x.timestamp blockchain perc delay table

  commit_to-IsDue :
      (r : Due) (t : List Agreement) (c : CommitCommand)
      → Memᴰ r rows
      → (commit_to x r t).1 ≡ some c
      → IsDue x is_eligible table c
  unfolding get_eligible_agreements_for_submit_commit
  commit_to-IsDue r t c i e =
      let (a, j, same_row) = as_due-Memᴰ x.timestamp _ r i in
      let (stored, eligible) =
        rows_where-Memᴰ is_eligible table a (orders _ a (take-Memᴰ limit _ a j)) in
      let (worthwhile, same, now) = commit_to-some x r t c e in
      record {
        row = a;
        stored = stored;
        eligible = eligible;
        same = same ∙ ap (λ (d : Due). d.agreement.agreement_id) same_row;
        now = now ∙ ap (λ (d : Due). d.current_epoch) same_row;
        worthwhile = worthwhile;
      }

  -- The epoch check schedules at most as many commits as allowed, and each of them is due: it is
  -- for a row of the table that is in its commit window and not committed to in its current epoch,
  -- the node has a rank below R0 in the neighbourhood, and either has the asset or is offered a bid
  -- of at least its ask. With score function 2 the rank is by the edges of the neighbourhood that
  -- getNeighboorhoodEdgeNodes gives, and the commit has their indices; with another it is without
  -- edges, and the commit has none. The database returns rows of those asked for, in some order.
  pub schedule_submit_commit_commands-IsDue :
      (max_transactions : ℕ)
      → let commands =
          (schedule_submit_commit_commands x order_by blockchain max_transactions perc delay
            table).1 in
        (length commands ≤ max_transactions) × All (IsDue x is_eligible table) commands
  unfolding schedule_submit_commit_commands
  schedule_submit_commit_commands-IsDue max_transactions = (
    length-schedule (commit_to x) max_transactions rows table [] (omega arith),
    schedule-All (commit_to x) (IsDue x is_eligible table) max_transactions rows table []
        commit_to-IsDue tt,
  )
