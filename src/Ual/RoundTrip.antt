-- ===== src/Ual/RoundTrip.antt =====
-- ot-node-docker/src/service/ual-service.js: a UAL that is derived and resolved again.
use trex_dkg.Prelude.{ℕ, ◌≤◌, ◌≡◌, refl, true, List, [], ◌∷◌, ◌++◌, some, arith, length, length-map}
use trex_dkg.Ual.Text.{
  Text, codes, replace, split, push, to_lower_case, all, Lacks, split_one, split-append, lower,
  lower-Lacks_slash,
}
use trex_dkg.Ual.Decimal.{Number, decimal, is_hex}
use trex_dkg.Ual.Printed.{number-decimal, decimal-Lacks_slash}
use trex_dkg.Ual.Service.{
  derive_ual, is_contract, parts_of, is_ual, Result, blockchain_name, resolve_ual,
}

all-is_hex-lower : (s : Text) → all is_hex s ≡ true → all is_hex (to_lower_case s) ≡ true
all-is_hex-lower [] h = refl
all-is_hex-lower (c ∷ s) h = ground (arith, all-is_hex-lower s)

all-is_hex-Lacks_slash : (s : Text) → all is_hex s ≡ true → Lacks b'/' s
all-is_hex-Lacks_slash [] h = tt
all-is_hex-Lacks_slash (c ∷ s) h = (ground arith, all-is_hex-Lacks_slash s (ground arith))

pub is_contract-lower : (s : Text) → is_contract s ≡ true → is_contract (to_lower_case s) ≡ true
unfolding is_contract
is_contract-lower [] h = h
is_contract-lower (z ∷ []) h = absurd (ground arith)
is_contract-lower (z ∷ x ∷ s) h = ground (arith, all-is_hex-lower s, length-map s lower)

pub is_contract-Lacks_slash : (s : Text) → is_contract s ≡ true → Lacks b'/' s
unfolding is_contract
is_contract-Lacks_slash [] h = tt
is_contract-Lacks_slash (z ∷ []) h = absurd (ground arith)
is_contract-Lacks_slash (z ∷ x ∷ s) h =
    (ground arith, (ground arith, all-is_hex-Lacks_slash s (ground arith)))

abbrev pub prefixed : Text → Text → Text → Text
prefixed b c d = codes "did:dkg:" ++ (b ++ b'/' ∷ (c ++ b'/' ∷ d))

pub parts_of_text : (s : Text) → parts_of (codes "did:dkg:" ++ s) ≡ split b'/' s
unfolding parts_of replace
parts_of_text s = refl

pub parts_of-prefixed :
    (b c d : Text)
    → Lacks b'/' b
    → Lacks b'/' c
    → Lacks b'/' d
    → parts_of (prefixed b c d) ≡ b ∷ c ∷ d ∷ []
parts_of-prefixed b c d hb hc hd = rw (
  parts_of_text (b ++ b'/' ∷ (c ++ b'/' ∷ d)),
  split-append b'/' b (c ++ b'/' ∷ d) hb,
  split-append b'/' c d hc,
  split_one b'/' d hd,
)

pub resolve_ual-prefixed :
    (implementations : List Text) (b c : Text) (t : ℕ)
    → Lacks b'/' b
    → is_contract c ≡ true
    → (is_ual (prefixed b c (decimal t)) ≡ true)
      × (resolve_ual implementations (prefixed b c (decimal t))
          ≡ Result.resolved (record {
            blockchain = blockchain_name b implementations;
            contract = c;
            token_id = Number.whole t;
          }))
unfolding is_ual resolve_ual
resolve_ual-prefixed implementations b c t hb hc =
    let parts =
      parts_of-prefixed b c (decimal t) hb (is_contract-Lacks_slash c hc) (decimal-Lacks_slash t) in
    (rw (parts, hc, number-decimal t), rw (parts, hc, number-decimal t))

length-push :
    (c d : ℕ) (ps qs : List Text) → length ps ≡ length qs → length (push c ps) ≡ length (push d qs)
length-push c d [] [] h = refl
length-push c d [] (q ∷ qs) h = absurd (omega arith)
length-push c d (p ∷ ps) [] h = absurd (omega arith)
length-push c d (p ∷ ps) (q ∷ qs) h = h

length-split-lower : (s : Text) → length (split b':' (to_lower_case s)) ≡ length (split b':' s)
length-split-lower [] = refl
length-split-lower (c ∷ s) = ground (
  arith,
  length-split-lower s,
  length-push (lower c) c (split b':' (to_lower_case s)) (split b':' s) (length-split-lower s),
)

-- A UAL that is derived from a blockchain, a contract and a token is accepted by isUAL, and
-- resolveUAL gives back the three, the texts in lower case. The blockchain has an id behind a colon
-- and no slash, and the contract is the address of one.
pub resolve_ual-derive_ual :
    (implementations : List Text) (blockchain contract : Text) (token : ℕ)
    → Lacks b'/' blockchain
    → 2 ≤ length (split b':' blockchain)
    → is_contract contract ≡ true
    → (is_ual (derive_ual blockchain contract token) ≡ true)
      × (resolve_ual implementations (derive_ual blockchain contract token)
          ≡ Result.resolved (record {
            blockchain = some (to_lower_case blockchain);
            contract = to_lower_case contract;
            token_id = Number.whole token;
          }))
unfolding derive_ual blockchain_name
resolve_ual-derive_ual implementations b c t hb two hc =
    let (ok, to) =
      resolve_ual-prefixed implementations (to_lower_case b) (to_lower_case c) t
        (lower-Lacks_slash b hb) (is_contract-lower c hc) in
    (ok, rw to (ground (arith, length-split-lower b)))
