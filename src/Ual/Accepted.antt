-- ===== src/Ual/Accepted.antt =====
-- ot-node-docker/src/service/ual-service.js: what `isUAL` accepts, and the UALs of two parts.
use trex_dkg.Prelude.{
  ℕ, ◌≡◌, refl, true, false, not, ◌&&◌, List, [], ◌∷◌, ◌++◌, Option, none, some, arith,
}
use trex_dkg.Ual.Text.{Text, codes, split, all, Lacks, split_one, split-append}
use trex_dkg.Ual.Decimal.{Number, is_nan, decimal, number, is_hex}
use trex_dkg.Ual.Printed.{number-decimal, decimal-Lacks_slash}
use trex_dkg.Ual.Service.{
  is_contract, parts_of, is_ual_two, is_ual_parts, is_ual, Resolved, Result, named_blockchain,
  resolve_to, resolve_two, resolve_parts, resolve_ual,
}
use trex_dkg.Ual.RoundTrip.{parts_of_text, is_contract-Lacks_slash}

-- A result with a contract's address and a token that is a number.
abbrev pub IsResolved : Result → Type 0
IsResolved result =
    (r : Resolved) × (result ≡ Result.resolved r)
    × (is_contract r.contract ≡ true)
    × (is_nan r.token_id ≡ false)

resolve_to-IsResolved :
    (b : Option Text) (c t : Text)
    → (is_contract c && not (is_nan (number t))) ≡ true
    → IsResolved (resolve_to b c t)
resolve_to-IsResolved b c t h =
    let isc : is_contract c ≡ true = ground arith in
    let isn : is_nan (number t) ≡ false = ground arith in
    (record { blockchain = b; contract = c; token_id = number t }, rw isc refl, isc, isn)

resolve_two-IsResolved :
    (ps : List Text) (t : Text) (implementations : List Text) (ual : Text)
    → is_ual_two ps t ≡ true
    → IsResolved (resolve_two ps t implementations ual)
resolve_two-IsResolved [] t implementations ual h = absurd (ground arith)
resolve_two-IsResolved (a ∷ []) t implementations ual h = absurd (ground arith)
resolve_two-IsResolved (a ∷ b ∷ []) t implementations ual h = resolve_to-IsResolved _ b t h
resolve_two-IsResolved (a ∷ b ∷ c ∷ []) t implementations ual h = absurd (ground arith)
resolve_two-IsResolved (a ∷ b ∷ c ∷ d ∷ ps) t implementations ual h = absurd (ground arith)

resolve_parts-IsResolved :
    (ps : List Text) (implementations : List Text) (ual : Text)
    → is_ual_parts ps ≡ true
    → IsResolved (resolve_parts ps implementations ual)
resolve_parts-IsResolved [] implementations ual h = absurd (ground arith)
resolve_parts-IsResolved (a ∷ []) implementations ual h = absurd (ground arith)
resolve_parts-IsResolved (a ∷ t ∷ []) implementations ual h =
    resolve_two-IsResolved (split b':' a) t implementations ual h
resolve_parts-IsResolved (a ∷ c ∷ t ∷ []) implementations ual h = resolve_to-IsResolved _ c t h
resolve_parts-IsResolved (a ∷ b ∷ c ∷ d ∷ ps) implementations ual h = absurd (ground arith)

-- Every text that isUAL accepts, resolveUAL resolves without an exception, to the address of a
-- contract and to a token that is a number.
pub resolve_ual-IsResolved :
    (implementations : List Text) (ual : Text)
    → is_ual ual ≡ true
    → IsResolved (resolve_ual implementations ual)
unfolding is_ual resolve_ual
resolve_ual-IsResolved implementations ual h =
    resolve_parts-IsResolved (parts_of ual) implementations ual (ground arith)

all-is_hex-Lacks_colon : (s : Text) → all is_hex s ≡ true → Lacks b':' s
all-is_hex-Lacks_colon [] h = tt
all-is_hex-Lacks_colon (c ∷ s) h = (ground arith, all-is_hex-Lacks_colon s (ground arith))

is_contract-Lacks_colon : (s : Text) → is_contract s ≡ true → Lacks b':' s
unfolding is_contract
is_contract-Lacks_colon [] h = tt
is_contract-Lacks_colon (z ∷ []) h = absurd (ground arith)
is_contract-Lacks_colon (z ∷ x ∷ s) h =
    (ground arith, (ground arith, all-is_hex-Lacks_colon s (ground arith)))

named_blockchain-none : (implementations : List Text) → named_blockchain none implementations ≡ none
unfolding named_blockchain
named_blockchain-none [] = refl
named_blockchain-none (i ∷ rest) = named_blockchain-none rest

-- `did:dkg:<blockchain>:<contract>/<token>` and `did:dkg:<blockchain>:<id>:<contract>/<token>`.
abbrev pub two_parts : Text → Text → ℕ → Text
two_parts b c t = codes "did:dkg:" ++ ((b ++ b':' ∷ c) ++ b'/' ∷ decimal t)

abbrev pub two_parts_with_id : Text → Text → Text → ℕ → Text
two_parts_with_id b id c t =
    codes "did:dkg:" ++ ((b ++ b':' ∷ (id ++ b':' ∷ c)) ++ b'/' ∷ decimal t)

Lacks-append : (sep : ℕ) (s t : Text) → Lacks sep s → Lacks sep t → Lacks sep (s ++ t)
Lacks-append sep [] t h ht = ht
Lacks-append sep (c ∷ s) t (hc, h) ht = (hc, Lacks-append sep s t h ht)

parts_of_two :
    (p : Text) (t : ℕ)
    → Lacks b'/' p
    → parts_of (codes "did:dkg:" ++ (p ++ b'/' ∷ decimal t)) ≡ p ∷ decimal t ∷ []
parts_of_two p t h =
    rw
      (
        parts_of_text (p ++ b'/' ∷ decimal t),
        split-append b'/' p (decimal t) h,
        split_one b'/' (decimal t) (decimal-Lacks_slash t),
      )
      refl

-- A UAL of two parts with the name of a blockchain is accepted and resolves to no blockchain,
-- whatever blockchains the node has; one with a name and an id is not accepted, and resolves to
-- name and id joined without the colon.
pub resolve_ual-two_parts :
    (implementations : List Text) (blockchain id contract : Text) (token : ℕ)
    → Lacks b'/' blockchain
    → Lacks b':' blockchain
    → Lacks b'/' id
    → Lacks b':' id
    → is_contract contract ≡ true
    → (is_ual (two_parts blockchain contract token) ≡ true)
      × (resolve_ual implementations (two_parts blockchain contract token)
          ≡ Result.resolved
              (record { blockchain = none; contract = contract; token_id = Number.whole token }))
      × (is_ual (two_parts_with_id blockchain id contract token) ≡ false)
      × (resolve_ual implementations (two_parts_with_id blockchain id contract token)
          ≡ Result.resolved (record {
            blockchain = some (blockchain ++ id);
            contract = contract;
            token_id = Number.whole token;
          }))
unfolding is_ual resolve_ual
resolve_ual-two_parts implementations b id c t bs bc is ic hc =
    let slash = is_contract-Lacks_slash c hc in
    let colon = split_one b':' c (is_contract-Lacks_colon c hc) in
    let one =
      parts_of_two (b ++ b':' ∷ c) t (Lacks-append b'/' b (b':' ∷ c) bs (omega arith, slash)) in
    let two = parts_of_two (b ++ b':' ∷ (id ++ b':' ∷ c)) t (
      Lacks-append b'/' b _ bs
        (omega arith, Lacks-append b'/' id (b':' ∷ c) is (omega arith, slash))) in
    let cut_one = split-append b':' b c bc in
    let cut_two = split-append b':' b (id ++ b':' ∷ c) bc in
    let cut_id = split-append b':' id c ic in
    (
      rw (one, cut_one, colon, hc, number-decimal t) refl,
      rw (one, cut_one, colon, hc, named_blockchain-none implementations, number-decimal t) refl,
      rw (two, cut_two, cut_id, colon) refl,
      rw (two, cut_two, cut_id, colon, hc, number-decimal t) refl,
    )
