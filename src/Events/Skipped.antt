-- ===== src/Events/Skipped.antt =====
-- getContractEvents of ot-node-docker/src/service/blockchain-event-listener-service.js: a fetch
-- that fails, and the next one.
use trex_dkg.Prelude.{
  ℕ, suc, ◌+◌, ◌-◌, ◌≤◌, ◌≡◌, ◌≢◌, inl, inr, refl, subst, false, List, [], ◌∷◌, Option, none, some,
  map, arith,
}
use trex_dkg.Events.Data.{EventName, ChainEvent, Mark}
use trex_dkg.Events.Fetch.{
  Query, gather, process_block_range, page_end, Filters, topics_of, to_event, Fetched, Service,
  first_block, is_missed, get_all_past_events, World, get_last_checked_block,
  update_last_checked_block, get_contract_events,
}
use trex_dkg.Events.Chain.{Chain, IsQueryOf}
use trex_dkg.Events.Paged.{AreBetween, HasStopped, pages_page, get_all_past_events-IsFetched}

pub get_last_checked_block-update_last_checked_block :
    (blockchain block contract : ℕ) (marks : List Mark)
    → get_last_checked_block blockchain contract
        (update_last_checked_block blockchain block contract marks)
      ≡ block
unfolding get_last_checked_block update_last_checked_block
get_last_checked_block-update_last_checked_block blockchain block contract [] = ground arith
get_last_checked_block-update_last_checked_block blockchain block contract (m ∷ marks) =
    ground (arith, get_last_checked_block-update_last_checked_block blockchain block contract marks)

gather-ne-none : (a b : Option (List ChainEvent)) → a ≢ none → b ≢ none → gather a b ≢ none
gather-ne-none none b ha hb = absurd (ha refl)
gather-ne-none (some x) none ha hb = absurd (hb refl)
gather-ne-none (some x) (some y) ha hb = cc

process_block_range-ne-none :
    (query : Query)
    → ((t a b : ℕ) → query t a b ≢ none)
    → (topics : List ℕ) (from_block to_block : ℕ)
    → process_block_range query from_block to_block topics ≢ none
unfolding process_block_range
process_block_range-ne-none query works [] from_block to_block = cc
process_block_range-ne-none query works (t ∷ topics) from_block to_block =
    gather-ne-none (query t from_block to_block) _ (works t from_block to_block)
      (process_block_range-ne-none query works topics from_block to_block)

HasStopped-end :
    (query : Query)
    → ((t a b : ℕ) → query t a b ≢ none)
    → (topics : List ℕ) (current stop last : ℕ) → HasStopped query topics current stop last
    → (stop ≡ current + 1) × (last ≡ current)
HasStopped-end query works topics current stop last (inl done) = done
HasStopped-end query works topics current stop last (inr (le, fails, at)) =
    absurd (process_block_range-ne-none query works topics stop (page_end stop current) fails)

-- A fetch whose first page fails.
first_page_fails :
    (service : Service) (query : Query) (contract : ℕ) (filters : Filters) (names : List EventName)
    (last_checked_block current_block : ℕ)
    → let from_block = first_block service last_checked_block in
      let result =
        get_all_past_events service query contract
          (some filters)
          names
          last_checked_block
          current_block in
      from_block ≤ current_block
      → process_block_range query from_block
          (page_end from_block current_block)
          (topics_of names filters)
        ≡ none
      → (result.events ≡ []) × (result.last_checked_block ≡ page_end from_block current_block)
unfolding get_all_past_events
first_page_fails service query contract filters names last_checked_block current le fails =
    let from_block = first_block service last_checked_block in
    let fuel = current - from_block in
    let enough : current + 1 - from_block ≡ suc fuel = omega arith in
    let page = pages_page query (topics_of names filters) current fuel from_block current le in
    (rw (enough, page, fails) refl, rw (enough, page, fails) refl)

-- The fetch of a query that works, from the block after `end`.
abbrev pub HasRest : Chain → List ℕ → ℕ → ℕ → ℕ → ℕ → Fetched → Type 0
HasRest chain topics contract blockchain end later result =
    (events : List ChainEvent) × (result.events ≡ map (to_event contract blockchain) events)
    × AreBetween chain topics (end + 1) (later + 1) events
    × (result.last_checked_block ≡ later)

working_fetch :
    (service : Service) (chain : Chain) (query : Query) (contract : ℕ) (filters : Filters)
    (names : List EventName) (end later : ℕ)
    → IsQueryOf chain query
    → ((t a b : ℕ) → query t a b ≢ none)
    → is_missed service end ≡ false
    → end ≤ later
    → HasRest chain
        (topics_of names filters)
        contract
        service.blockchain_id
        end
        later
        (get_all_past_events service query contract (some filters) names end later)
working_fetch service chain query contract filters names end later answers works not_missed more =
    let topics = topics_of names filters in
    let next : first_block service end ≡ end + 1 = ground arith in
    let (events, stop, found, after, are, stopped) =
      get_all_past_events-IsFetched service chain query contract filters names end later answers
        (omega arith) in
    let (all, at_later) = HasStopped-end query works topics later stop _ stopped in
    let range : AreBetween chain topics (end + 1) (later + 1) events =
      subst (λ s. AreBetween chain topics (end + 1) s events) all
        (subst (λ b. AreBetween chain topics b stop events) next are) in
    (events, found, range, at_later)

-- If the first page of blocks of a fetch cannot be queried, the fetch has no events and the end of
-- that page is recorded as checked; a next fetch, by a query that works, returns only the events of
-- the blocks behind that page, so that those of the page are never fetched. The page is not further
-- back than the service looks at the past.
pub failed_page_skipped :
    (service : Service) (chain : Chain) (query retried : Query) (contract : ℕ) (filters : Filters)
    (names : List EventName) (current_block later : ℕ) (w : World)
    → let last_checked_block = get_last_checked_block service.blockchain_id contract w.marks in
      let from_block = first_block service last_checked_block in
      let end = page_end from_block current_block in
      let (w1, first) =
        get_contract_events service query contract (some filters) names current_block w in
      let (w2, second) =
        get_contract_events service retried contract (some filters) names later w1 in
      IsQueryOf chain retried
      → ((t a b : ℕ) → retried t a b ≢ none)
      → from_block ≤ current_block
      → process_block_range query from_block end (topics_of names filters) ≡ none
      → is_missed service end ≡ false
      → end ≤ later
      → (first ≡ [])
        × (get_last_checked_block service.blockchain_id contract w1.marks ≡ end)
        × (get_last_checked_block service.blockchain_id contract w2.marks ≡ later)
        × (events : List ChainEvent) × (second
            ≡ map (to_event contract service.blockchain_id) events)
        × AreBetween chain (topics_of names filters) (end + 1) (later + 1) events
unfolding get_contract_events
failed_page_skipped service chain query retried contract filters names current later w answers works
      le fails not_missed more =
    let blockchain = service.blockchain_id in
    let last_checked_block = get_last_checked_block blockchain contract w.marks in
    let from_block = first_block service last_checked_block in
    let end = page_end from_block current in
    let topics = topics_of names filters in
    let (nothing, at_end) =
      first_page_fails service query contract filters names last_checked_block current le fails in
    let first =
      get_all_past_events service query contract (some filters) names last_checked_block current in
    let marked : get_last_checked_block blockchain contract
          (update_last_checked_block blockchain first.last_checked_block contract w.marks)
        ≡ end =
      rw (get_last_checked_block-update_last_checked_block, at_end) refl in
    let rest : HasRest chain topics contract blockchain end later (
        get_all_past_events service retried contract (some filters) names
          (get_last_checked_block blockchain contract
            (update_last_checked_block blockchain first.last_checked_block contract w.marks))
          later) =
      rw marked (
        working_fetch service chain retried contract filters names end later answers works
          not_missed more) in
    let (events, found, are, at_later) = rest in
    (
      nothing,
      marked,
      rw (get_last_checked_block-update_last_checked_block) at_later,
      events,
      found,
      are,
    )
