-- ===== src/Events/Paged.antt =====
-- getAllPastEvents of ot-node-docker/src/modules/blockchain/implementation/web3-service.js: which
-- events are fetched, where no page fails and where one does.
use trex_dkg.Prelude.{
  count, count-append, ℕ, zero, suc, ◌+◌, ◌-◌, ◌≤◌, ◌<◌, ◌≡◌, ◌⊎◌, inl, inr, refl, Bool, true,
  false, List, [], ◌∷◌, ◌++◌, Option, none, some, map, arith, leb, dec_le,
}
use trex_dkg.Events.Data.{EventName, ChainEvent}
use trex_dkg.Events.Fetch.{
  Query, process_block_range, page_end, continue, pages, Filters, topics_of, to_event, Fetched,
  Service, first_block, get_all_past_events,
}
use trex_dkg.Events.Chain.{
  Chain, all_between, IsQueryOf, count-all_between-add, process_block_range_lem,
}

-- All blocks up to the current one have been fetched, or the page from `stop` on has failed.
abbrev pub HasStopped : Query → List ℕ → ℕ → ℕ → ℕ → Type 0
HasStopped query topics current stop last =
    ((stop ≡ current + 1) × (last ≡ current))
    ⊎ ((stop ≤ current)
        × (process_block_range query stop (page_end stop current) topics ≡ none)
        × (last ≡ page_end stop current))

-- The events from `from_block` to the block before `stop`, each as often as the chain has it.
abbrev pub AreBetween : Chain → List ℕ → ℕ → ℕ → List ChainEvent → Type 0
AreBetween chain topics from_block stop events =
    (p : ChainEvent → Bool)
    → count p events ≡ count p (all_between chain topics from_block (stop - from_block))

abbrev pub IsPaged : Chain → Query → List ℕ → ℕ → ℕ → List ChainEvent × ℕ → Type 0
IsPaged chain query topics current from_block (events, last) =
    (stop : ℕ) × (from_block ≤ stop)
    × AreBetween chain topics from_block stop events
    × HasStopped query topics current stop last

AreBetween-append :
    (chain : Chain) (topics : List ℕ) (from_block n stop : ℕ) (more : List ChainEvent)
    → from_block + n ≤ stop
    → AreBetween chain topics (from_block + n) stop more
    → AreBetween chain topics from_block stop (all_between chain topics from_block n ++ more)
AreBetween-append chain topics from_block n stop more h rest p =
    let split : stop - from_block ≡ n + (stop - (from_block + n)) = omega arith in
    rw
      (
        split,
        count-append p (all_between chain topics from_block n) more,
        rest p,
        count-all_between-add p chain topics n (stop - (from_block + n)) from_block,
      )
      refl

all_between_zero :
    (p : ChainEvent → Bool) (chain : Chain) (topics : List ℕ) (from_block : ℕ)
    → count p (all_between chain topics from_block 0) ≡ 0
all_between_zero p chain [] from_block = refl
all_between_zero p chain (t ∷ topics) from_block = all_between_zero p chain topics from_block

AreBetween-nil :
    (chain : Chain) (topics : List ℕ) (from_block : ℕ)
    → AreBetween chain topics from_block from_block []
AreBetween-nil chain topics from_block p =
    let none_left : from_block - from_block ≡ 0 = omega arith in
    rw (none_left, all_between_zero p chain topics from_block) refl

-- A page, and the rest of the pages.
continue-IsPaged :
    (chain : Chain) (query : Query)
    → IsQueryOf chain query
    → (topics : List ℕ) (current from_block : ℕ) (answer : Option (List ChainEvent))
      (rest : List ChainEvent × ℕ)
    → from_block ≤ current
    → process_block_range query from_block (page_end from_block current) topics ≡ answer
    → IsPaged chain query topics current (page_end from_block current + 1) rest
    → IsPaged chain query topics current from_block
        (continue answer (page_end from_block current) rest)
continue-IsPaged chain query answers topics current from_block none rest le fails paged =
    (from_block, omega arith, AreBetween-nil chain topics from_block, inr (le, fails, refl))
continue-IsPaged chain query answers topics current from_block (some events) (more, last) le found
      (stop, after, are, stopped) =
    let n = page_end from_block current - from_block in
    let end : page_end from_block current ≡ from_block + n = omega arith in
    let next : page_end from_block current + 1 ≡ from_block + suc n = omega arith in
    let page =
      process_block_range_lem chain query answers topics from_block n events (rw end at found) in
    (
      stop,
      omega arith,
      rw page (
          AreBetween-append chain topics from_block (suc n) stop more (omega arith)
            (rw next at are)),
      stopped,
    )

pub pages_page :
    (query : Query) (topics : List ℕ) (current fuel from_block to_block : ℕ)
    → from_block ≤ current
    → pages query topics current (suc fuel) from_block to_block
      ≡ continue
          (process_block_range query from_block (page_end from_block current) topics)
          (page_end from_block current)
          (pages query topics current fuel
            (page_end from_block current + 1)
            (page_end from_block current))
unfolding pages
pages_page query topics current fuel from_block to_block le =
    let more : leb from_block current ≡ true = ground arith in rw (more, pages) refl

pages_end :
    (query : Query) (topics : List ℕ) (current fuel from_block to_block : ℕ)
    → current < from_block
    → pages query topics current fuel from_block to_block ≡ ([], to_block)
unfolding pages
pages_end query topics current zero from_block to_block lt = refl
pages_end query topics current (suc fuel) from_block to_block lt =
    let ended : leb from_block current ≡ false = ground arith in rw (ended, pages) refl

pages-IsPaged :
    (chain : Chain) (query : Query)
    → IsQueryOf chain query
    → (topics : List ℕ) (current fuel from_block to_block : ℕ) → current + 1 ≤ fuel + from_block
    → from_block ≤ current + 1
    → (from_block ≡ current + 1 → to_block ≡ current)
    → IsPaged chain query topics current from_block
        (pages query topics current fuel from_block to_block)
pages-IsPaged chain query answers topics current zero from_block to_block enough le at_end =
    let last : from_block ≡ current + 1 = omega arith in
    rw (pages_end query topics current zero from_block to_block (omega arith))
      (from_block, omega arith, AreBetween-nil chain topics from_block, inl (last, at_end last))
pages-IsPaged chain query answers topics current (suc fuel) from_block to_block enough le at_end =
    elim (dec_le from_block current) [
      | yes more ↦
          let last = page_end from_block current in
          rw (pages_page query topics current fuel from_block to_block more) (
            continue-IsPaged chain query answers topics current from_block
              (process_block_range query from_block last topics)
              (pages query topics current fuel (last + 1) last) more refl
              (pages-IsPaged chain query answers topics current fuel (last + 1) last (omega arith)
                (omega arith) (omega arith)))
      | no ended ↦
          let last : from_block ≡ current + 1 = omega arith in
          rw (pages_end query topics current (suc fuel) from_block to_block (omega arith)) (
            from_block,
            omega arith,
            AreBetween-nil chain topics from_block,
            inl (last, at_end last),
          )
    ]

-- The events fetched, as the chain has them.
abbrev pub IsFetched : Chain → Query → List ℕ → ℕ → ℕ → ℕ → ℕ → Fetched → Type 0
IsFetched chain query topics contract blockchain from_block current result =
    (events : List ChainEvent) × (stop : ℕ) × (result.events
      ≡ map (to_event contract blockchain) events)
    × (from_block ≤ stop)
    × AreBetween chain topics from_block stop events
    × HasStopped query topics current stop result.last_checked_block

-- getAllPastEvents returns each event of its topics as often as the chain has it, from the first
-- block that is not checked up to a block where it stops, and no other event. It stops behind the
-- current block, which it then returns as checked; or before a page of blocks that could not be
-- queried, of which it returns the end as checked. The query answers with the events of the range
-- or fails, and the first block is at most the one behind the current block.
pub get_all_past_events-IsFetched :
    (service : Service) (chain : Chain) (query : Query) (contract : ℕ) (filters : Filters)
    (names : List EventName) (last_checked_block current_block : ℕ)
    → IsQueryOf chain query
    → first_block service last_checked_block ≤ current_block + 1
    → IsFetched chain query
        (topics_of names filters)
        contract
        service.blockchain_id
        (first_block service last_checked_block)
        current_block
        (get_all_past_events service query contract
          (some filters)
          names
          last_checked_block
          current_block)
unfolding get_all_past_events
get_all_past_events-IsFetched service chain query contract filters names last_checked_block current
      answers le =
    let from_block = first_block service last_checked_block in
    let topics = topics_of names filters in
    let (stop, after, are, stopped) =
      pages-IsPaged chain query answers topics current (current + 1 - from_block) from_block current
        (omega arith) le (λ e. refl) in
    (
      (pages query topics current (current + 1 - from_block) from_block current).0,
      stop,
      refl,
      after,
      are,
      stopped,
    )
