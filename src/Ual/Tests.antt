-- ===== src/Ual/Tests.antt =====
-- Tests of the model of ot-node-docker/src/service/ual-service.js, and witnesses.
use trex_dkg.Prelude.{◌≡◌, refl, true, false, List, [], ◌∷◌, none, some, arith}
use trex_dkg.Ual.Text.{Text, codes, replace, includes}
use trex_dkg.Ual.Decimal.{Number, decimal, number}
use trex_dkg.Ual.Service.{
  derive_ual, is_contract, parts_of, is_ual, Result, resolve_ual, get_ual_without_chain_id,
}
use trex_dkg.Ual.RoundTrip.{resolve_ual-derive_ual}
use trex_dkg.Ual.Shortened.{resolve_ual-get_ual_without_chain_id}
use trex_dkg.Ual.Accepted.{
  IsResolved, two_parts, two_parts_with_id, resolve_ual-IsResolved, resolve_ual-two_parts,
}

abbrev storage : Text
storage = codes "0x5CAC41237127F94c2D21dAe0b14bFeFa99880630"

abbrev storage_low : Text
storage_low = codes "0x5cac41237127f94c2d21dae0b14bfefa99880630"

abbrev chains : List Text
chains = codes "gnosis:100" ∷ codes "otp:2043" ∷ []

numbers :
    (number (codes " 12 ") ≡ Number.whole 12)
    × (number (codes "0x1f") ≡ Number.whole 31)
    × (number [] ≡ Number.whole 0)
    × (number (codes "1.5e-3") ≡ Number.other (codes "1.5e-3"))
    × (number (codes "12a") ≡ Number.nan)
    × (number (codes ".") ≡ Number.nan)
    × (decimal 2043 ≡ codes "2043")
unfolding number decimal
numbers = (refl, refl, refl, refl, refl, refl, refl)

short_ual :
    get_ual_without_chain_id (codes "did:dkg:otp:2043/0x1/5") (codes "otp:2043")
    ≡ codes "did:dkg:otp/0x1/5"
unfolding get_ual_without_chain_id replace includes
short_ual = refl

not_a_contract :
    resolve_ual chains (codes "did:dkg:otp/0x1/5") ≡ Result.invalid_contract (codes "0x1")
unfolding resolve_ual parts_of replace is_contract
not_a_contract = refl

no_parts : resolve_ual chains (codes "did:dkg:otp") ≡ Result.wrong_format (codes "did:dkg:otp")
unfolding resolve_ual parts_of replace
no_parts = refl

resolve_ual-derive_ual_example :
    (is_ual (derive_ual (codes "OTP:2043") storage 12) ≡ true)
    × (resolve_ual chains (derive_ual (codes "OTP:2043") storage 12)
        ≡ Result.resolved (record {
          blockchain = some (codes "otp:2043");
          contract = storage_low;
          token_id = Number.whole 12;
        }))
unfolding is_contract
resolve_ual-derive_ual_example =
    resolve_ual-derive_ual chains (codes "OTP:2043") storage 12 (omega arith) (omega arith) refl

resolve_ual-get_ual_without_chain_id_example :
    (is_ual (get_ual_without_chain_id (derive_ual (codes "otp:2043") storage 12) (codes "otp:2043"))
      ≡ true)
    × (resolve_ual chains
          (get_ual_without_chain_id (derive_ual (codes "otp:2043") storage 12) (codes "otp:2043"))
        ≡ Result.resolved (record {
          blockchain = some (codes "otp:2043");
          contract = storage_low;
          token_id = Number.whole 12;
        }))
unfolding is_contract
resolve_ual-get_ual_without_chain_id_example =
    resolve_ual-get_ual_without_chain_id chains b'o' b't' (codes "p") (codes "2043") storage 12 refl
      (omega arith) (omega arith) (omega arith) refl
      ((λ e. absurd (ground arith)), ((λ e. refl), tt)) refl

resolve_ual-IsResolved_example :
    IsResolved (resolve_ual chains (two_parts (codes "otp") storage 12))
unfolding is_ual parts_of replace is_contract number decimal
resolve_ual-IsResolved_example =
    resolve_ual-IsResolved chains (two_parts (codes "otp") storage 12) refl

resolve_ual-two_parts_example :
    (is_ual (two_parts (codes "otp") storage 12) ≡ true)
    × (resolve_ual chains (two_parts (codes "otp") storage 12)
        ≡ Result.resolved
            (record { blockchain = none; contract = storage; token_id = Number.whole 12 }))
    × (is_ual (two_parts_with_id (codes "otp") (codes "2043") storage 12) ≡ false)
    × (resolve_ual chains (two_parts_with_id (codes "otp") (codes "2043") storage 12)
        ≡ Result.resolved (record {
          blockchain = some (codes "otp2043");
          contract = storage;
          token_id = Number.whole 12;
        }))
unfolding is_contract
resolve_ual-two_parts_example =
    resolve_ual-two_parts chains (codes "otp") (codes "2043") storage 12 (omega arith) (omega arith)
      (omega arith) (omega arith) refl
