-- ===== src/Sharding/Pulled.antt =====
-- What a pull reads from a blockchain.
use trex_dkg.Prelude.{
  ℕ, zero, suc, ◌<◌, ◌≤◌, ◌≡◌, refl, sym, ap, ◌∙◌, some, List, [], ◌∷◌, ◌++◌, length, length-append,
  append_assoc, drop, arith,
}
use trex_dkg.Sharding.Pull.{ChainNode, page_size, named, last_of, pulled, pull}

-- An entry that is not filled: all of its fields are zero.
abbrev pub empty_node : ChainNode
empty_node = record { node_id = 0; identity_id = 0; ask = 0; stake = 0 }

-- An array of `n` entries, of which the first are the nodes of a list.
abbrev pub padded : ℕ → List ChainNode → List ChainNode
padded zero ys = []
padded (suc n) [] = empty_node ∷ padded n []
padded (suc n) (y ∷ ys) = y ∷ padded n ys

-- `_getShardingTable` of dkg-evm-module/contracts/v2/ShardingTable.sol: the page that starts at a
-- node of the table has the nodes from there on, in the table's order, and is padded with empty
-- entries to the length that is asked for.
abbrev pub IsPaged : List ChainNode → (ℕ → ℕ → List ChainNode) → Type 0
IsPaged chain page =
    (xs : List ChainNode) (y : ChainNode) (ys : List ChainNode) (n : ℕ)
    → chain ≡ xs ++ y ∷ ys
    → page y.identity_id n ≡ padded n (y ∷ ys)

-- A page either ends in one of the nodes, or has all of them and ends in an empty entry.
pub data Cut (n : ℕ) (ys : List ChainNode) : Type 0 where
  within :
      (before : List ChainNode) (last : ChainNode) (after : List ChainNode)
      → ys ≡ before ++ last ∷ after
      → padded n ys ≡ before ++ last ∷ []
      → length after < length ys
      → Cut n ys
  beyond : last_of (padded n ys) ≡ some empty_node → named (padded n ys) ≡ named ys → Cut n ys

pub named-padded : (n : ℕ) → named (padded n []) ≡ []
named-padded zero = refl
named-padded (suc n) = named-padded n

pub last_of-padded : (n : ℕ) → last_of (padded (suc n) []) ≡ some empty_node
last_of-padded zero = refl
last_of-padded (suc n) = last_of-padded n

Cut-cons :
    (n : ℕ) (z z' : ChainNode) (zs : List ChainNode)
    → Cut (suc n) (z' ∷ zs)
    → Cut (suc (suc n)) (z ∷ z' ∷ zs)
Cut-cons n z z' zs (within before last after whole taken shorter) =
    within (z ∷ before) last after (ap (◌∷◌ z) whole) (ap (◌∷◌ z) taken) (omega (arith, shorter))
Cut-cons n z z' zs (beyond last all) = beyond last (ground (arith, all))

pub cut : (n : ℕ) (z : ChainNode) (zs : List ChainNode) → Cut (suc n) (z ∷ zs)
cut zero z zs = within [] z zs refl refl (omega arith)
cut (suc n) z [] = beyond (last_of-padded n) (ground (arith, named-padded n))
cut (suc n) z (z' ∷ zs) = Cut-cons n z z' zs (cut n z' zs)

pub last_of-append_one : (xs : List ChainNode) (z : ChainNode) → last_of (xs ++ z ∷ []) ≡ some z
last_of-append_one [] z = refl
last_of-append_one (x ∷ []) z = refl
last_of-append_one (x ∷ x' ∷ xs) z = last_of-append_one (x' ∷ xs) z

pub named-append : (xs ys : List ChainNode) → named (xs ++ ys) ≡ named xs ++ named ys
named-append [] ys = refl
named-append (x ∷ xs) ys = ground (arith, named-append xs ys)

pub length-named : (xs : List ChainNode) → length (named xs) ≤ length xs
length-named [] = omega arith
length-named (x ∷ xs) = ground (arith, length-named xs)

module _ (page : ℕ → ℕ → List ChainNode) where
  -- A step of the loop that is not the last.
  pub pull_step :
      (fuel total start slice : ℕ) (table : List ChainNode) (last : ChainNode)
      → length table < total
      → last_of (page start page_size) ≡ some last
      → pull page (suc fuel) total start slice table
        ≡ pull page fuel total last.identity_id 1
            (table ++ named (drop slice (page start page_size)))
  unfolding pull
  pull_step fuel total start slice table last less e = ground arith

  pull_done :
      (fuel total start slice : ℕ) (table : List ChainNode)
      → total ≤ length table
      → pull page fuel total start slice table ≡ pulled table
  unfolding pull
  pull_done zero total start slice table h = ground arith
  pull_done (suc fuel) total start slice table h = ground arith

pub regroup :
    (xs : List ChainNode) (y : ChainNode) (bs : List ChainNode) (z : ChainNode)
    → (xs ++ y ∷ []) ++ (bs ++ z ∷ []) ≡ (xs ++ y ∷ bs) ++ z ∷ []
regroup [] y bs z = refl
regroup (x ∷ xs) y bs z = ap (◌∷◌ x) (regroup xs y bs z)

module _ (chain : List ChainNode) (page : ℕ → ℕ → List ChainNode) (paged : IsPaged chain page) where
  short :
      (xs : List ChainNode) (y z : ChainNode) (zs : List ChainNode)
      → chain ≡ xs ++ y ∷ z ∷ zs
      → length (named (xs ++ y ∷ [])) < length chain
  short xs y z zs e =
      let len = ap length e in
      omega (
        arith,
        len,
        length-named (xs ++ y ∷ []),
        length-append xs (y ∷ []),
        length-append xs (y ∷ z ∷ zs),
      )

  all_taken :
      (xs : List ChainNode) (y : ChainNode) (ys : List ChainNode)
      → named chain ≡ chain
      → chain ≡ xs ++ y ∷ ys
      → named (xs ++ y ∷ []) ++ named ys ≡ chain
  all_taken xs y ys all e =
      sym (named-append (xs ++ y ∷ []) ys) ∙ ap named (append_assoc xs (y ∷ []) ys ∙ sym e) ∙ all

  -- From a node on, with fuel for each node after it, the pull gives the whole table.
  abbrev EndsFrom : ℕ → Type 0
  EndsFrom fuel =
      (xs : List ChainNode) (y : ChainNode) (ys : List ChainNode)
      → chain ≡ xs ++ y ∷ ys
      → length ys ≤ fuel
      → pull page fuel (length chain) y.identity_id 1 (named (xs ++ y ∷ [])) ≡ pulled chain

  pull_page :
      (fuel : ℕ) (xs : List ChainNode) (y z : ChainNode) (zs : List ChainNode)
      → named chain ≡ chain
      → chain ≡ xs ++ y ∷ z ∷ zs
      → length (z ∷ zs) ≤ suc fuel
      → Cut 9 (z ∷ zs)
      → EndsFrom fuel
      → pull page (suc fuel) (length chain) y.identity_id 1 (named (xs ++ y ∷ [])) ≡ pulled chain
  pull_page fuel xs y z zs all e fits (within before last after whole taken shorter) next =
      let here : page y.identity_id page_size ≡ y ∷ before ++ last ∷ [] =
        paged xs y (z ∷ zs) page_size e ∙ ap (◌∷◌ y) taken in
      pull_step page fuel (length chain) y.identity_id 1 (named (xs ++ y ∷ [])) last
        (short xs y z zs e) (rw here (last_of-append_one (y ∷ before) last))
      ∙ ap (λ t. pull page fuel (length chain) last.identity_id 1 t)
          (rw here (
            sym (named-append (xs ++ y ∷ []) (before ++ last ∷ []))
            ∙ ap named (regroup xs y before last)))
      ∙ next (xs ++ y ∷ before) last after
          (e ∙ ap (λ t. xs ++ y ∷ t) whole ∙ sym (append_assoc xs (y ∷ before) (last ∷ after)))
          (omega (arith, shorter))
  pull_page fuel xs y z zs all e fits (beyond last rest) next =
      let here : page y.identity_id page_size ≡ y ∷ padded 9 (z ∷ zs) =
        paged xs y (z ∷ zs) page_size e in
      let full : named (xs ++ y ∷ []) ++ named (padded 9 (z ∷ zs)) ≡ chain =
        ap (λ t. named (xs ++ y ∷ []) ++ t) rest ∙ all_taken xs y (z ∷ zs) all e in
      pull_step page fuel (length chain) y.identity_id 1 (named (xs ++ y ∷ [])) empty_node
        (short xs y z zs e) (rw here last)
      ∙ ap (λ t. pull page fuel (length chain) 0 1 t) (rw here full)
      ∙ pull_done page fuel (length chain) 0 1 chain (omega arith)

  pull_from : (fuel : ℕ) → named chain ≡ chain → EndsFrom fuel
  pull_from fuel all xs y [] e fits =
      pull_done page fuel (length chain) y.identity_id 1 (named (xs ++ y ∷ []))
        (rw (← e) (omega (arith, ap length all)))
      ∙ ap pulled (rw (← e) all)
  pull_from zero all xs y (z ∷ zs) e fits = absurd (omega arith)
  pull_from (suc fuel) all xs y (z ∷ zs) e fits =
      pull_page fuel xs y z zs all e fits (cut 8 z zs) (pull_from fuel all)

  pull_first :
      (fuel : ℕ) (y : ChainNode) (ys : List ChainNode)
      → named chain ≡ chain
      → chain ≡ y ∷ ys
      → length chain ≤ suc fuel
      → Cut 10 (y ∷ ys)
      → pull page (suc fuel) (length chain) y.identity_id 0 [] ≡ pulled chain
  pull_first fuel y ys all e fits (within before last after whole taken shorter) =
      let here : page y.identity_id page_size ≡ before ++ last ∷ [] =
        paged [] y ys page_size e ∙ taken in
      pull_step page fuel (length chain) y.identity_id 0 [] last (omega (arith, ap length e))
        (rw here (last_of-append_one before last))
      ∙ ap (λ t. pull page fuel (length chain) last.identity_id 1 (named t)) here
      ∙ pull_from fuel all before last after (e ∙ whole) (omega (arith, shorter, ap length e))
  pull_first fuel y ys all e fits (beyond last rest) =
      let here : page y.identity_id page_size ≡ padded 10 (y ∷ ys) = paged [] y ys page_size e in
      pull_step page fuel (length chain) y.identity_id 0 [] empty_node (omega (arith, ap length e))
        (rw here last)
      ∙ ap (λ t. pull page fuel (length chain) 0 1 (named t)) here
      ∙ ap (λ t. pull page fuel (length chain) 0 1 t) (rest ∙ ap named (sym e) ∙ all)
      ∙ pull_done page fuel (length chain) 0 1 chain (omega arith)

  pub pull_all :
      (fuel : ℕ) (y : ChainNode) (ys : List ChainNode)
      → named chain ≡ chain
      → chain ≡ y ∷ ys
      → length chain ≤ fuel
      → pull page fuel (length chain) y.identity_id 0 [] ≡ pulled chain
  pull_all zero y ys all e fits = absurd (omega (arith, ap length e))
  pull_all (suc fuel) y ys all e fits = pull_first fuel y ys all e fits (cut 9 y ys)
