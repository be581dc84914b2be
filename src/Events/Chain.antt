-- ===== src/Events/Chain.antt =====
-- What a blockchain has: for each topic, the events of each block. `queryFilter` answers with those
-- of a range of blocks, in their order.
use trex_dkg.Prelude.{
  ℕ, zero, suc, ◌+◌, ◌≡◌, refl, Bool, List, [], ◌∷◌, ◌++◌, Option, none, some, arith, append_assoc,
  count, count-append,
}
use trex_dkg.Events.Data.{ChainEvent}
use trex_dkg.Events.Fetch.{Query, gather, process_block_range}

abbrev pub Chain : Type 0
Chain = ℕ → ℕ → List ChainEvent

-- The events of `n` blocks.
abbrev pub between : (ℕ → List ChainEvent) → ℕ → ℕ → List ChainEvent
between blocks from_block zero = []
between blocks from_block (suc n) = blocks from_block ++ between blocks (from_block + 1) n

abbrev pub all_between : Chain → List ℕ → ℕ → ℕ → List ChainEvent
all_between chain [] from_block n = []
all_between chain (t ∷ topics) from_block n =
    between (chain t) from_block n ++ all_between chain topics from_block n

-- The answers of a query that does not fail are the chain's events.
abbrev pub IsQueryOf : Chain → Query → Type 0
IsQueryOf chain query =
    (t from_block n : ℕ) (events : List ChainEvent)
    → query t from_block (from_block + n) ≡ some events
    → events ≡ between (chain t) from_block (suc n)

between-add :
    (blocks : ℕ → List ChainEvent) (n m from_block : ℕ)
    → between blocks from_block (n + m)
      ≡ between blocks from_block n ++ between blocks (from_block + n) m
between-add blocks zero m from_block =
    let none_more : 0 + m ≡ m = omega arith in
    let here : from_block + 0 ≡ from_block = omega arith in rw (none_more, here) refl
between-add blocks (suc n) m from_block =
    let one_more : suc n + m ≡ suc (n + m) = omega arith in
    let next : from_block + suc n ≡ from_block + 1 + n = omega arith in
    rw (one_more, next, between-add blocks n m (from_block + 1), append_assoc) refl

pub count-all_between-add :
    (p : ChainEvent → Bool) (chain : Chain) (topics : List ℕ) (n m from_block : ℕ)
    → count p (all_between chain topics from_block (n + m))
      ≡ count p (all_between chain topics from_block n)
        + count p (all_between chain topics (from_block + n) m)
count-all_between-add p chain [] n m from_block = omega arith
count-all_between-add p chain (t ∷ topics) n m from_block = grind (
  arith,
  between-add (chain t) n m from_block,
  count-append,
  count-all_between-add p chain topics n m from_block,
)

gather-some :
    (a b : Option (List ChainEvent)) (events : List ChainEvent)
    → gather a b ≡ some events
    → (x : List ChainEvent) × (y : List ChainEvent) × (a ≡ some x)
      × (b ≡ some y)
      × (events ≡ x ++ y)
gather-some none b events h = cc
gather-some (some x) none events h = cc
gather-some (some x) (some y) events h = (x, y, refl, refl, ground arith)

pub process_block_range_lem :
    (chain : Chain) (query : Query)
    → IsQueryOf chain query
    → (topics : List ℕ) (from_block n : ℕ) (events : List ChainEvent)
    → process_block_range query from_block (from_block + n) topics ≡ some events
    → events ≡ all_between chain topics from_block (suc n)
unfolding process_block_range
process_block_range_lem chain query answers [] from_block n events h = ground arith
process_block_range_lem chain query answers (t ∷ topics) from_block n events h =
    let (x, y, hx, hy, e) = gather-some (query t from_block (from_block + n)) _ events h in
    let first = answers t from_block n x hx in
    let rest = process_block_range_lem chain query answers topics from_block n y hy in
    cc (e, first, rest)
