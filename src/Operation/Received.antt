-- ===== src/Operation/Received.antt =====
-- ot-node-docker/src/commands/protocols/common/handle-protocol-message-command.js: how the init
-- message of a publish is answered.
use trex_dkg.Prelude.{
  ℕ, zero, suc, ◌-◌, ◌≤◌, ◌<◌, ◌≡◌, ◌⊎◌, inl, inr, refl, true, false, Option, none, some, [], ◌∷◌,
  ◌++◌, ltb, arith, Bool-cases,
}
use trex_dkg.Operation.Exchange.{MessageType}
use trex_dkg.Sharding.Neighbourhood.{validate_neighborhood}
use trex_dkg.Sharding.Agreements.{AgreementData, BidVerdict}
use trex_dkg.Operation.Receiving.{
  Facts, Init, Receiver, RemoteStatus, Validation, after_bid, is_assertion, bid_of,
  validate_received_data, set_status, handle_error, after_validation, execute, go_on, receive,
}

-- The node is in the neighbourhood, the assertion is the latest one, and the bid is accepted.
abbrev pub IsJustified : Init → Facts → AgreementData → Type 0
IsJustified m f d =
    (validate_neighborhood m.distance_of m.me m.blockchain f.r2 f.table ≡ true)
    × (f.latest_assertion_id ≡ some m.assertion_id)
    × (f.agreement ≡ some d)
    × (bid_of m f ≡ BidVerdict.accepted)

after_bid-ack :
    (agreement : Option AgreementData) (verdict : BidVerdict) (d : AgreementData)
    → after_bid agreement verdict ≡ Validation.ack d
    → (agreement ≡ some d) × (verdict ≡ BidVerdict.accepted)
after_bid-ack (some e) BidVerdict.accepted d h = (cc h, refl)
after_bid-ack none BidVerdict.accepted d h = absurd (cc h)
after_bid-ack agreement BidVerdict.thrown d h = absurd (cc h)
after_bid-ack agreement BidVerdict.too_low d h = absurd (cc h)
after_bid-ack agreement BidVerdict.too_large d h = absurd (cc h)
after_bid-ack agreement BidVerdict.no_agreement d h = absurd (cc h)

is_assertion_eq : (id : ℕ) (o : Option ℕ) → is_assertion id o ≡ true → o ≡ some id
is_assertion_eq id none h = absurd (cc h)
is_assertion_eq id (some latest) h = ground arith

validate_received_data-ack :
    (m : Init) (f : Facts) (d : AgreementData)
    → validate_received_data m f ≡ Validation.ack d
    → IsJustified m f d
unfolding validate_received_data
validate_received_data-ack m f d h =
    elim (Bool-cases (validate_neighborhood m.distance_of m.me m.blockchain f.r2 f.table)) [
      | inr far ↦ absurd (let e : Validation.nack ≡ Validation.ack d = rw far at h in cc e)
      | inl near ↦ elim (Bool-cases (is_assertion m.assertion_id f.latest_assertion_id)) [
        | inr stale ↦
            absurd (let e : Validation.thrown ≡ Validation.ack d = rw (near, stale) at h in cc e)
        | inl latest ↦
            let e : after_bid f.agreement (bid_of m f) ≡ Validation.ack d =
              rw (near, latest) at h in
            let (agreed, accepted) = after_bid-ack f.agreement (bid_of m f) d e in
            (near, is_assertion_eq m.assertion_id f.latest_assertion_id latest, agreed, accepted)
      ]
    ]

-- One response, and the session is gone.
abbrev pub IsAnswered : Init → (ℕ → Facts) → ℕ → Receiver → Receiver → Type 0
IsAnswered m facts retries x y =
    (y.session ≡ false)
    × ((y.responses ≡ x.responses ++ MessageType.nack ∷ [])
        ⊎ ((k : ℕ) × (d : AgreementData) × (k ≤ retries)
            × (y.responses ≡ x.responses ++ MessageType.ack ∷ [])
            × (y.cached ≡ some d)
            × IsJustified m (facts k) d))

abbrev Answers : Init → (ℕ → Facts) → ℕ → Receiver → Option Receiver → Type 0
Answers m facts retries x o = (y : Receiver) × (o ≡ some y) × IsAnswered m facts retries x y

IsAnswered-le :
    (m : Init) (facts : ℕ → Facts) (few retries : ℕ) (x y : Receiver)
    → few ≤ retries
    → IsAnswered m facts few x y
    → IsAnswered m facts retries x y
IsAnswered-le m facts few retries x y le (gone, inl refused) = (gone, inl refused)
IsAnswered-le m facts few retries x y le (gone, inr (k, d, h, sent, cached, why)) =
    (gone, inr (k, d, omega arith, sent, cached, why))

go_on-answers :
    (fuel : ℕ) (m : Init) (facts : ℕ → Facts) (retries : ℕ) (x : Receiver) (v : Validation)
    → ((r : ℕ) (z : Receiver) → r < fuel → Answers m facts r z (receive fuel m facts r z))
    → retries < suc fuel
    → validate_received_data m (facts retries) ≡ v
    → Answers m facts retries x
        (go_on retries (receive fuel m facts) (after_validation retries v x))
unfolding handle_error
go_on-answers fuel m facts retries x (Validation.ack d) again enough e = (
  _,
  refl,
  (
    refl,
    inr (retries, d, omega arith, refl, refl, validate_received_data-ack m (facts retries) d e),
  ),
)
go_on-answers fuel m facts retries x Validation.nack again enough e = (_, refl, (refl, inl refl))
go_on-answers fuel m facts zero x Validation.thrown again enough e = (_, refl, (refl, inl refl))
go_on-answers fuel m facts (suc zero) x Validation.thrown again enough e =
    (_, refl, (refl, inl refl))
go_on-answers fuel m facts (suc (suc r)) x Validation.thrown again enough e =
    let more : ltb 1 (suc (suc r)) ≡ true = ground arith in
    let less : suc (suc r) - 1 ≡ suc r = omega arith in
    let (y, done, answered) = again (suc r) x (omega arith) in
    rw (more, less)
      (y, done, IsAnswered-le m facts (suc r) (suc (suc r)) x y (omega arith) answered)

-- A node that receives the init message of a publish answers it once, within as many tries as it
-- has retries and one more, and its session is removed then. It acknowledges only if in one of the
-- tries it was in the neighbourhood, the assertion was the latest one on the blockchain, and the
-- bid of the agreement was accepted; the data are then cached with that agreement.
pub receive-IsAnswered :
    (fuel : ℕ) (m : Init) (facts : ℕ → Facts) (retries : ℕ) (x : Receiver)
    → retries < fuel
    → (y : Receiver) × (receive fuel m facts retries x ≡ some y) × IsAnswered m facts retries x y
unfolding receive execute
receive-IsAnswered zero m facts retries x enough = absurd (omega arith)
receive-IsAnswered (suc fuel) m facts retries x enough =
    go_on-answers fuel m facts retries (set_status RemoteStatus.validate_asset_remote_start x)
      (validate_received_data m (facts retries))
      (λ r z less. receive-IsAnswered fuel m facts r z less) enough refl
