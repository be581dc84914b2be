-- ===== src/Sharding/Bids.antt =====
-- Bids: `getBidSuggestion`, `calculateBidSuggestion` and `findEligibleNodes` of
-- sharding-table-service.js, `calculateBid` and `calculateCurrentEpoch` of
-- service-agreement-service.js, and `validateBid` of handle-protocol-message-command.js.
use trex_dkg.Prelude.{
  ℕ, ◌*◌, ◌/◌, min, Bool, Option, none, some, List, [], ◌∷◌, length, take, get_elem?, ltb, leb,
  ◌==◌, if◌then◌else◌,
}
use trex_dkg.Sharding.Data.{Peer, Found}
use trex_dkg.Sharding.Order.{sort_by}
use trex_dkg.Sharding.Neighbourhood.{find_neighbourhood}

abbrev pub bytes_in_kilobyte : ℕ
bytes_in_kilobyte = 1024

-- BID_SUGGESTION_RANGE_ENUM, and any other string.
pub data BidRange : Type 0 where
  low med high all : BidRange
  unsupported : BidRange

-- What `getBidSuggestion` returns or throws; `no_peers` is the TypeError of taking `undefined` apart.
pub data Suggestion : Type 0 where
  one : ℕ → Suggestion
  three : ℕ → ℕ → ℕ → Suggestion
  unsupported_range : Suggestion
  no_peers : Suggestion

abbrev pub low_offset : ℕ
low_offset = 9

abbrev pub med_offset : ℕ
med_offset = 11

abbrev pub high_offset : ℕ
high_offset = 14

-- The peer that sets the price: `Math.min(askOffset, sorted.length - 1)` is -1 without peers.
unfoldable pub peer_at : ℕ → List Peer → Option Peer
peer_at ask_offset [] = none
peer_at ask_offset (p ∷ ps) = get_elem? (p ∷ ps) (min ask_offset (length ps))

-- At least a kilobyte is paid for.
abbrev pub kb_size_of : ℕ → ℕ
kb_size_of assertion_size =
    if ltb assertion_size bytes_in_kilobyte then bytes_in_kilobyte else assertion_size

-- Asks are whole numbers of the table's column; `to_wei` is the blockchain module's `convertToWei`.
module _ (to_wei : ℕ → ℕ) where
  unfoldable pub price : ℕ → ℕ → ℕ → ℕ → ℕ
  price ask kb_size epochs_number r0 = to_wei ask * kb_size * epochs_number * r0 / bytes_in_kilobyte

  -- `calculateBidSuggestion`
  unfoldable pub calculate_bid_suggestion : ℕ → List Peer → ℕ → ℕ → ℕ → Option ℕ
  calculate_bid_suggestion ask_offset sorted kb_size epochs_number r0 =
      elim (peer_at ask_offset sorted) [
        | none ↦ none
        | some p ↦ some (price p.ask kb_size epochs_number r0)
      ]

  abbrev pub one_or_none : Option ℕ → Suggestion
  one_or_none none = Suggestion.no_peers
  one_or_none (some n) = Suggestion.one n

  abbrev pub three_or_none : Option ℕ → Option ℕ → Option ℕ → Suggestion
  three_or_none (some l) (some m) (some h) = Suggestion.three l m h
  three_or_none _ _ _ = Suggestion.no_peers

  unfoldable pub other_peers : ℕ → List Found → List Peer
  other_peers me [] = []
  other_peers me (f ∷ fs) =
      let rest = other_peers me fs in
      if f.entry.peer.peer_id == me then rest else f.entry.peer ∷ rest

  -- `getBidSuggestion`, after the neighbourhood has been found.
  unfoldable pub suggest : BidRange → ℕ → List Peer → ℕ → ℕ → Suggestion
  suggest range assertion_size peers epochs_number r0 =
      let kb_size = kb_size_of assertion_size in
      let sorted = sort_by (λ (p : Peer). p.ask) peers in
      let at_offset : ℕ → Option ℕ =
        λ offset. calculate_bid_suggestion offset sorted kb_size epochs_number r0 in
      elim range [
        | low ↦ one_or_none (at_offset low_offset)
        | med ↦ one_or_none (at_offset med_offset)
        | high ↦ one_or_none (at_offset high_offset)
        | all ↦ three_or_none (at_offset low_offset) (at_offset med_offset) (at_offset high_offset)
        | unsupported ↦ Suggestion.unsupported_range
      ]

  -- `getBidSuggestion`, with the proximity function, the chosen pair and the key's hash applied.
  unfoldable pub get_bid_suggestion :
      (ℕ → ℕ) → ℕ → ℕ → ℕ → List Peer → BidRange → ℕ → ℕ → ℕ → Suggestion
  get_bid_suggestion distance_of me blockchain r2 table range assertion_size epochs_number r0 =
      suggest range assertion_size
        (other_peers me (find_neighbourhood distance_of blockchain r2 table)) epochs_number r0

-- `node.ask <= bid / r0`: JavaScript divides by 0, too.
abbrev pub affords : ℕ → ℕ → ℕ → Bool
affords bid r0 ask = if r0 == 0 then ltb 0 bid else leb (ask * r0) bid

unfoldable pub eligible : ℕ → ℕ → List Peer → List Peer
eligible bid r0 [] = []
eligible bid r0 (p ∷ ps) =
    let rest = eligible bid r0 ps in if affords bid r0 p.ask then p ∷ rest else rest

-- `findEligibleNodes`
unfoldable pub find_eligible_nodes : List Peer → ℕ → ℕ → ℕ → List Peer
find_eligible_nodes neighbourhood bid r1 r0 = take r1 (eligible bid r0 neighbourhood)
