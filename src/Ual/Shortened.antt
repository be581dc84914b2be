-- ===== src/Ual/Shortened.antt =====
-- ot-node-docker/src/service/ual-service.js: a UAL without the id of its blockchain, resolved by the
-- blockchains that the node has.
use trex_dkg.Prelude.{
  ℕ, ◌≡◌, ◌≢◌, refl, Bool, true, false, List, [], ◌∷◌, ◌++◌, some, arith, ◌||◌, inl, inr,
  Bool-cases, ap, subst,
}
use trex_dkg.Ual.Text.{
  Text, codes, text_eq, replace, includes, split, to_lower_case, Lacks, split_one, split-append,
  text_eq_refl, replace_start, includes_start,
}
use trex_dkg.Ual.Decimal.{Number, decimal}
use trex_dkg.Ual.Service.{
  derive_ual, is_contract, is_ual, Result, named_blockchain, blockchain_name, resolve_ual,
  get_ual_without_chain_id, head_text,
}
use trex_dkg.Ual.RoundTrip.{prefixed, resolve_ual-prefixed, is_contract-lower}

text_eq→eq : (s t : Text) → text_eq s t ≡ true → s ≡ t
text_eq→eq [] [] h = refl
text_eq→eq [] (d ∷ t) h = cc
text_eq→eq (c ∷ s) [] h = cc
text_eq→eq (c ∷ s) (d ∷ t) h = ground (arith, text_eq→eq s t)

-- A text whose second character does not stand in `q` occurs neither in `q` nor across its end.
module _ (c1 c2 e : ℕ) (n by s : Text) (ends : c1 ≢ e) where
  replace_behind :
      (q : Text)
      → Lacks c2 (q ++ e ∷ [])
      → replace (c1 ∷ c2 ∷ n) by (q ++ e ∷ s) ≡ q ++ e ∷ replace (c1 ∷ c2 ∷ n) by s
  unfolding replace
  replace_behind [] h = ground arith
  replace_behind (d ∷ []) (hd, (he, h)) = ground (arith, replace_behind [] (he, h))
  replace_behind (d ∷ d' ∷ q) (hd, (hd', h)) = ground (arith, replace_behind (d' ∷ q) (hd', h))

  includes_behind :
      (q : Text) → includes (c1 ∷ c2 ∷ n) s ≡ true → includes (c1 ∷ c2 ∷ n) (q ++ e ∷ s) ≡ true
  unfolding includes
  includes_behind [] h = ground arith
  includes_behind (d ∷ q) h = ground (arith, includes_behind q h)

-- Of the blockchains of that name there is only `b`.
abbrev pub OnlyNamed : Text → Text → List Text → Type 0
OnlyNamed name b [] = Unit
OnlyNamed name b (i ∷ rest) = (head_text (split b':' i) ≡ name → i ≡ b) × OnlyNamed name b rest

abbrev pub has_text : Text → List Text → Bool
has_text b [] = false
has_text b (i ∷ rest) = text_eq i b || has_text b rest

other_has :
    (name b i : Text) (rest : List Text)
    → head_text (split b':' b) ≡ name
    → text_eq (head_text (split b':' i)) name ≡ false
    → has_text b (i ∷ rest) ≡ true
    → has_text b rest ≡ true
other_has name b i rest hb e has = elim (Bool-cases (text_eq i b)) [
  | inl same ↦ absurd (cc (text_eq→eq i b same, text_eq_refl name))
  | inr differs ↦ subst (λ t. (t || has_text b rest) ≡ true) differs has
]

named_blockchain_found :
    (name b : Text) (implementations : List Text)
    → head_text (split b':' b) ≡ name
    → OnlyNamed name b implementations
    → has_text b implementations ≡ true
    → named_blockchain (some name) implementations ≡ some b
unfolding named_blockchain
named_blockchain_found name b [] hb h has = cc
named_blockchain_found name b (i ∷ rest) hb (only, h) has =
    elim (Bool-cases (text_eq (head_text (split b':' i)) name)) [
      | inl e ↦ rw (e, named_blockchain) (ap some (only (text_eq→eq _ name e)))
      | inr e ↦
          rw (e, named_blockchain)
            (named_blockchain_found name b rest hb h (other_has name b i rest hb e has))
    ]

without_chain_id :
    (c1 c2 : ℕ) (n id s : Text)
    → Lacks b':' (c1 ∷ c2 ∷ n)
    → Lacks c2 (codes "did:dkg:")
    → get_ual_without_chain_id
        (codes "did:dkg:" ++ (((c1 ∷ c2 ∷ n) ++ b':' ∷ id) ++ s))
        ((c1 ∷ c2 ∷ n) ++ b':' ∷ id)
      ≡ codes "did:dkg:" ++ ((c1 ∷ c2 ∷ n) ++ s)
unfolding get_ual_without_chain_id
without_chain_id c1 c2 n id s (h1, h) second =
    let b = n ++ b':' ∷ id in
    rw (
      includes_behind c1 c2 b':' b [] ((c1 ∷ c2 ∷ b) ++ s) h1 (codes "did:dkg")
          (includes_start c1 (c2 ∷ b) s),
      split-append b':' (c1 ∷ c2 ∷ n) id (h1, h),
      replace_behind c1 c2 b':' b (c1 ∷ c2 ∷ n) ((c1 ∷ c2 ∷ b) ++ s) h1 (codes "did:dkg") second,
      replace_start c1 (c2 ∷ b) (c1 ∷ c2 ∷ n) s,
    )

derive_ual_low :
    (b contract : Text) (token : ℕ)
    → to_lower_case b ≡ b
    → derive_ual b contract token ≡ prefixed b (to_lower_case contract) (decimal token)
unfolding derive_ual
derive_ual_low b contract token low = rw low refl

-- A UAL from which the id of its blockchain has been taken is accepted, and resolves to what the
-- UAL with the id resolves to: the full name of the blockchain, the contract in lower case, and the
-- token. The blockchain has a name and an id and is written in lower case, it is the only one of
-- that name that the node has, and the second letter of its name does not stand in `did:dkg:`.
pub resolve_ual-get_ual_without_chain_id :
    (implementations : List Text) (c1 c2 : ℕ) (n id contract : Text) (token : ℕ)
    → let name = c1 ∷ c2 ∷ n in
      let b = name ++ b':' ∷ id in
      let ual = get_ual_without_chain_id (derive_ual b contract token) b in
      to_lower_case b ≡ b
      → Lacks b'/' name
      → Lacks b':' name
      → Lacks c2 (codes "did:dkg:")
      → is_contract contract ≡ true
      → OnlyNamed name b implementations
      → has_text b implementations ≡ true
      → (is_ual ual ≡ true)
        × (resolve_ual implementations ual
            ≡ Result.resolved (record {
              blockchain = some b;
              contract = to_lower_case contract;
              token_id = Number.whole token;
            }))
unfolding blockchain_name
resolve_ual-get_ual_without_chain_id implementations c1 c2 n id contract token low hs hl second hc
      only has =
    let name = c1 ∷ c2 ∷ n in
    let b = name ++ b':' ∷ id in
    let c = to_lower_case contract in
    let short = without_chain_id c1 c2 n id (b'/' ∷ (c ++ b'/' ∷ decimal token)) hl second in
    let (ok, to) =
      resolve_ual-prefixed implementations name c token hs (is_contract-lower contract hc) in
    let found =
      named_blockchain_found name b implementations (ap head_text (split-append b':' name id hl))
        only has in
    let low_ual = derive_ual_low b contract token low in
    (rw (low_ual, short) ok, rw (low_ual, short, to, split_one b':' name hl, found) refl)
