-- ===== src/Ual/Service.antt =====
-- ot-node-docker/src/service/ual-service.js: UALService. The names of the blockchains that the node
-- has are an argument, `implementations`, and so is what blockchainModuleManager answers.
use trex_dkg.Prelude.{
  ℕ, Bool, true, false, not, ◌&&◌, List, [], ◌∷◌, ◌++◌, Option, none, some, ◌==◌, if◌then◌else◌,
  length, drop,
}
use trex_dkg.Ual.Text.{
  Text, codes, text_eq, starts_with, replace, includes, split, to_lower_case, all,
}
use trex_dkg.Ual.Decimal.{Number, is_nan, decimal, number, is_hex}

unfoldable pub derive_ual : Text → Text → ℕ → Text
derive_ual blockchain contract token =
    codes "did:dkg:"
    ++ (to_lower_case blockchain ++ b'/' ∷ (to_lower_case contract ++ b'/' ∷ decimal token))

-- `/^0x[a-fA-F0-9]{40}$/`
unfoldable pub is_contract : Text → Bool
is_contract s = starts_with (codes "0x") s && (length s == 42) && all is_hex (drop 2 s)

-- The parts of a UAL behind `did:dkg:`.
unfoldable pub parts_of : Text → List Text
parts_of ual = split b'/' (replace (codes "dkg:") [] (replace (codes "did:") [] ual))

abbrev pub is_ual_two : List Text → Text → Bool
is_ual_two (a ∷ b ∷ c ∷ []) token =
    (length (a ∷ b ∷ c ∷ []) == 2) && is_contract c && not (is_nan (number token))
is_ual_two (a ∷ b ∷ []) token = is_contract b && not (is_nan (number token))
is_ual_two _ token = false

abbrev pub is_ual_parts : List Text → Bool
is_ual_parts (a ∷ contract ∷ token ∷ []) = is_contract contract && not (is_nan (number token))
is_ual_parts (a ∷ token ∷ []) = is_ual_two (split b':' a) token
is_ual_parts _ = false

-- A result of undefined counts as false.
unfoldable pub is_ual : Text → Bool
is_ual ual = if starts_with (codes "did:dkg:") ual then is_ual_parts (parts_of ual) else false

-- `blockchain` may be undefined.
pub record Resolved : Type 0 where
  pub blockchain : Option Text
  pub contract : Text
  pub token_id : Number

pub data Result : Type 0 where
  resolved : Resolved → Result
  invalid_contract : Text → Result
  wrong_format : Text → Result

abbrev pub head_text : List Text → Text
head_text [] = []
head_text (p ∷ ps) = p

-- `===` of a text and a variable that may be undefined.
abbrev pub eq_name : Text → Option Text → Bool
eq_name s none = false
eq_name s (some t) = text_eq s t

-- The loop over the implementations: the first of that name, or else the name itself.
unfoldable pub named_blockchain : Option Text → List Text → Option Text
named_blockchain name [] = name
named_blockchain name (implementation ∷ rest) =
    elim (eq_name (head_text (split b':' implementation)) name) [
      | true ↦ some implementation
      | false ↦ named_blockchain name rest
    ]

-- The blockchain of a UAL of three parts.
unfoldable pub blockchain_name : Text → List Text → Option Text
blockchain_name name implementations =
    if length (split b':' name) == 1
    then named_blockchain (some name) implementations
    else some name

abbrev pub resolve_to : Option Text → Text → Text → Result
resolve_to blockchain contract token =
    if is_contract contract
    then Result.resolved
        (record { blockchain = blockchain; contract = contract; token_id = number token })
    else Result.invalid_contract contract

abbrev pub resolve_two : List Text → Text → List Text → Text → Result
resolve_two (a ∷ b ∷ c ∷ []) token implementations ual = resolve_to (some (a ++ b)) c token
resolve_two (a ∷ b ∷ []) token implementations ual =
    resolve_to (named_blockchain none implementations) b token
resolve_two _ token implementations ual = Result.wrong_format ual

abbrev pub resolve_parts : List Text → List Text → Text → Result
resolve_parts (a ∷ contract ∷ token ∷ []) implementations ual =
    resolve_to (blockchain_name a implementations) contract token
resolve_parts (a ∷ token ∷ []) implementations ual =
    resolve_two (split b':' a) token implementations ual
resolve_parts _ implementations ual = Result.wrong_format ual

unfoldable pub resolve_ual : List Text → Text → Result
resolve_ual implementations ual = resolve_parts (parts_of ual) implementations ual

-- The two methods of the module of the blockchains answer with a value, as they are awaited.
unfoldable pub calculate_location_keyword :
    (Text → Text → ℕ → ℕ → Text)
    → (Text → List Text → List Text → Text)
    → Text
    → Text
    → ℕ
    → Option Text
    → Text
calculate_location_keyword get_assertion_id_by_index encode_packed blockchain contract token none =
    encode_packed blockchain (codes "address" ∷ codes "bytes32" ∷ [])
      (contract ∷ get_assertion_id_by_index blockchain contract token 0 ∷ [])
calculate_location_keyword get_assertion_id_by_index encode_packed blockchain contract token
      (some id) =
    encode_packed blockchain (codes "address" ∷ codes "bytes32" ∷ []) (contract ∷ id ∷ [])

unfoldable pub get_ual_without_chain_id : Text → Text → Text
get_ual_without_chain_id ual blockchain =
    if includes blockchain ual
    then replace blockchain (head_text (split b':' blockchain)) ual
    else ual
