-- ===== src/Sharding/Precision.antt =====
-- The price that a publisher is told is one that the nodes it was made for accept.
use trex_dkg.Prelude.{
  ℕ, zero, suc, ◌+◌, ◌-◌, ◌*◌, ◌/◌, ◌≤◌, ◌<◌, ◌≡◌, List, [], ◌∷◌, take, length, min, get_elem?,
  arith, some, Option-cases, inl, inr,
}
use trex_dkg.Sharding.Data.{Peer}
use trex_dkg.Sharding.Order.{sort_by, IsSorted, AtLeast-Memᴰ, sort_by-IsSorted}
use trex_dkg.Sharding.Bids.{price, kb_size_of, peer_at, calculate_bid_suggestion}
use trex_dkg.Sharding.Agreements.{
  ℤ, AgreementData, BidVerdict, calculate_current_epoch, epochs_left, calculate_bid, validate_bid,
}
use mathlib.Core.List.{Memᴰ}
use mathlib.Core.List.Memᴰ
use native.Mathlib.Nat.{le-div_iff_mul-le, mul-le-mul, mul-le-mul_left, div-eq_of_lt}
use native.Mathlib.Numerals.{unary_clauses}

-- Rounding down twice costs at most one.
rounding :
    (b size kb rate : ℕ)
    → 0 < rate
    → size ≤ kb
    → 1024 ≤ kb
    → b * (rate * size) ≤ (suc b * kb * rate / 1024) * 1024
rounding b size kb rate some_rate le big =
    let less : b * (rate * size) ≤ b * (rate * kb) = mul-le-mul_left b (mul-le-mul_left rate le) in
    let split : suc b * kb * rate ≡ b * (rate * kb) + rate * kb = omega arith in
    let much : 1 * 1024 ≤ rate * kb = mul-le-mul some_rate big in omega (arith, less, split, much)

enough :
    (b size kb epochs r0 ask tokens : ℕ)
    → 0 < r0
    → 0 < epochs
    → 0 < size
    → size ≤ kb
    → 1024 ≤ kb
    → b < ask
    → ask * kb * epochs * r0 / 1024 ≤ tokens
    → b ≤ tokens * 1024 / (r0 * epochs * size)
enough b size kb epochs r0 zero tokens some_r0 some_epochs some_size le big less paid =
    absurd (omega (arith, less))
enough b size kb epochs r0 (suc a) tokens some_r0 some_epochs some_size le big less paid =
    let some_rate : 1 * 1 ≤ r0 * epochs = mul-le-mul some_r0 some_epochs in
    let some_divisor : 1 * 1 ≤ (r0 * epochs) * size = mul-le-mul some_rate some_size in
    let same : suc a * kb * epochs * r0 ≡ suc a * kb * (r0 * epochs) = omega arith in
    let bound = rounding a size kb (r0 * epochs) some_rate le big in
    let fewer : b * (r0 * epochs * size) ≤ a * (r0 * epochs * size) =
      mul-le-mul {m₂ = r0 * epochs * size} (omega (arith, less)) (omega arith) in
    (le-div_iff_mul-le some_divisor).1 (omega (arith, bound, fewer, rw (same) at paid))

first_epoch-lem :
    (now start_time epoch_length : ℕ)
    → start_time ≤ now
    → now < start_time + epoch_length
    → calculate_current_epoch now start_time epoch_length ≡ some (ℤ.pos 0)
unfolding calculate_current_epoch
first_epoch-lem now start_time epoch_length started first_epoch =
    let none_passed : (now - start_time) / epoch_length ≡ 0 =
      div-eq_of_lt (omega (arith, started, first_epoch)) in
    ground (arith, none_passed, started, first_epoch)

first_bid :
    (now size r0 : ℕ) (d : AgreementData)
    → 0 < r0
    → 0 < d.epochs_number
    → 0 < size
    → d.start_time ≤ now
    → now < d.start_time + d.epoch_length
    → calculate_bid now size d r0
      ≡ some (
          ℤ.pos
            ((d.token_amount + d.update_token_amount) * 1024 / (r0 * d.epochs_number * size) + 1))
unfolding calculate_bid
first_bid now size r0 d some_r0 some_epochs some_size started first_epoch =
    let all_left : epochs_left d.epochs_number (ℤ.pos 0) ≡ ℤ.pos d.epochs_number = ground arith in
    let some_rate : 1 * 1 ≤ r0 * d.epochs_number = mul-le-mul some_r0 some_epochs in
    let some_divisor : 1 * 1 ≤ (r0 * d.epochs_number) * size = mul-le-mul some_rate some_size in
    rw
      (first_epoch-lem now d.start_time d.epoch_length started first_epoch, calculate_bid, all_left)
      (ground (arith, some_divisor))

-- A node accepts a publish in its first epoch whose tokens are at least the price for an ask no
-- smaller than its own.
validate_bid-price :
    (to_wei : ℕ → ℕ) (now max_kb : ℕ) (d : AgreementData) (size r0 ask own_ask : ℕ)
    → 0 < size
    → size ≤ max_kb * 1024
    → 0 < r0
    → 0 < d.epochs_number
    → d.start_time ≤ now
    → now < d.start_time + d.epoch_length
    → price to_wei ask (kb_size_of size) d.epochs_number r0 ≤ d.token_amount
    → own_ask ≤ to_wei ask
    → validate_bid now max_kb (some d) size r0 own_ask ≡ BidVerdict.accepted
unfolding validate_bid price
validate_bid-price to_wei now max_kb d size r0 ask zero some_size fits some_r0 some_epochs started
      first_epoch paid affordable =
    rw (first_bid now size r0 d some_r0 some_epochs some_size started first_epoch)
      (ground (arith, fits))
validate_bid-price to_wei now max_kb d size r0 ask (suc b) some_size fits some_r0 some_epochs
      started first_epoch paid affordable =
    let le : size ≤ kb_size_of size = ground arith in
    let big : 1024 ≤ kb_size_of size = ground arith in
    let high =
      enough b size (kb_size_of size) d.epochs_number r0 (to_wei ask)
        (d.token_amount + d.update_token_amount) some_r0 some_epochs some_size le big affordable
        (omega (arith, paid)) in
    rw (first_bid now size r0 d some_r0 some_epochs some_size started first_epoch)
      (ground (arith, fits, high))

get_elem?-Memᴰ : {A : Type 0} (xs : List A) (i : ℕ) {x : A} → get_elem? xs i ≡ some x → Memᴰ x xs
get_elem?-Memᴰ [] i e = ground (arith, e)
get_elem?-Memᴰ (y ∷ ys) zero e = Memᴰ.head (ground (arith, e))
get_elem?-Memᴰ (y ∷ ys) (suc i) e = Memᴰ.tail (get_elem?-Memᴰ ys i e)

-- The peers that come first by ask ask no more than the one that sets the price.
peer_at-le :
    (offset : ℕ) (sorted : List Peer) (p q : Peer)
    → IsSorted (λ (r : Peer). r.ask) sorted
    → peer_at offset sorted ≡ some q
    → Memᴰ p (take (suc offset) sorted)
    → p.ask ≤ q.ask
unfolding peer_at IsSorted
peer_at-le offset [] p q s e i = elim i [ ]
peer_at-le offset (x ∷ xs) p q (h, hs) e (Memᴰ.head same) =
    elim (Memᴰ.cases_cons (get_elem?-Memᴰ (x ∷ xs) (min offset (length xs)) e)) [
      | inl first ↦ rw (same, first) (omega arith)
      | inr i ↦ rw (same) (AtLeast-Memᴰ (λ (r : Peer). r.ask) xs h i)
    ]
peer_at-le zero (x ∷ xs) p q (h, hs) e (Memᴰ.tail i) = elim i [ ]
peer_at-le (suc offset) (x ∷ []) p q (h, hs) e (Memᴰ.tail i) = elim i [ ]
peer_at-le (suc offset) (x ∷ y ∷ ys) p q (h, hs) e (Memᴰ.tail i) =
    peer_at-le offset (y ∷ ys) p q hs (simp unary_clauses at e) i

-- The price suggested for a rank, from the peers of a neighbourhood, is accepted by every peer up
-- to that rank by ask. The publish pays at least the suggestion for an assertion of the size asked
-- about, which is not empty and within the node's limit, for some epochs and with an R0 that are
-- not 0; the node handles it in the first epoch; and the conversion to wei keeps the order of asks.
pub suggestion_is_accepted :
    (to_wei : ℕ → ℕ)
    → ((a b : ℕ) → a ≤ b → to_wei a ≤ to_wei b)
    → (peers : List Peer) (offset bid now max_kb : ℕ) (d : AgreementData) (size r0 : ℕ) → 0 < size
    → size ≤ max_kb * 1024
    → 0 < r0
    → 0 < d.epochs_number
    → d.start_time ≤ now
    → now < d.start_time + d.epoch_length
    → calculate_bid_suggestion to_wei offset
        (sort_by (λ (r : Peer). r.ask) peers)
        (kb_size_of size)
        d.epochs_number
        r0
      ≡ some bid
    → bid ≤ d.token_amount
    → (p : Peer) → Memᴰ p (take (suc offset) (sort_by (λ (r : Peer). r.ask) peers))
    → validate_bid now max_kb (some d) size r0 (to_wei p.ask) ≡ BidVerdict.accepted
unfolding calculate_bid_suggestion
suggestion_is_accepted to_wei mono peers offset bid now max_kb d size r0 some_size fits some_r0
      some_epochs started first_epoch e paid p i =
    let sorted = sort_by (λ (r : Peer). r.ask) peers in
    elim (Option-cases (peer_at offset sorted)) [
      | inl gone ↦ ground (arith, rw (gone, calculate_bid_suggestion) at e)
      | inr (q, found) ↦
          let le =
            peer_at-le offset sorted p q (sort_by-IsSorted (λ (r : Peer). r.ask) peers) found i in
          let is_price : price to_wei q.ask (kb_size_of size) d.epochs_number r0 ≡ bid =
            ground (arith, rw (found, calculate_bid_suggestion) at e) in
          validate_bid-price to_wei now max_kb d size r0 q.ask (to_wei p.ask) some_size fits some_r0
            some_epochs started first_epoch (rw (is_price) paid) (mono p.ask q.ask le)
    ]
