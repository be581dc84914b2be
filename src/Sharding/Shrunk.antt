-- ===== src/Sharding/Shrunk.antt =====
-- `pullBlockchainShardingTable` of ot-node-docker/src/service/sharding-table-service.js, where a node
-- has left the table since its length was read.
use trex_dkg.Prelude.{
  ℕ, zero, suc, ◌<◌, ◌≡◌, sym, ap, ◌∙◌, List, [], ◌∷◌, ◌++◌, length, length-append, append-nil,
  append_assoc, arith,
}
use trex_dkg.Sharding.Pull.{ChainNode, page_size, named, running, pull}
use trex_dkg.Sharding.Pulled.{
  empty_node, padded, IsPaged, Cut, within, beyond, cut, last_of-padded, last_of-append_one,
  named-append, length-named, pull_step, regroup,
}

module _ (page : ℕ → ℕ → List ChainNode) (empties : (n : ℕ) → page 0 n ≡ padded n []) where
  pull_out :
      (total start slice : ℕ) (table : List ChainNode)
      → length table < total
      → pull page 0 total start slice table ≡ running
  unfolding pull
  pull_out total start slice table h = ground arith

  -- A page of empty entries leads to the next one.
  stuck_zero :
      (fuel total : ℕ) (table : List ChainNode)
      → length table < total
      → pull page fuel total 0 1 table ≡ running
  stuck_zero zero total table h = pull_out total 0 1 table h
  stuck_zero (suc fuel) total table h =
      let here : page 0 page_size ≡ padded 10 [] = empties page_size in
      pull_step page fuel total 0 1 table empty_node h (rw here (last_of-padded 9))
      ∙ ap (λ t. pull page fuel total 0 1 t) (rw here (append-nil table))
      ∙ stuck_zero fuel total table h

  module _ (chain : List ChainNode) (paged : IsPaged chain page) (total : ℕ)
      (left : length chain < total) where
    short :
        (xs : List ChainNode) (y : ChainNode) (ys : List ChainNode)
        → chain ≡ xs ++ y ∷ ys
        → length (named (xs ++ y ∷ [])) < total
    short xs y ys e = omega (
      arith,
      ap length e,
      length-named (xs ++ y ∷ []),
      length-append xs (y ∷ []),
      length-append xs (y ∷ ys),
    )

    short_all :
        (xs : List ChainNode) (y : ChainNode) (ys : List ChainNode)
        → chain ≡ xs ++ y ∷ ys
        → length (named (xs ++ y ∷ []) ++ named ys) < total
    short_all xs y ys e = omega (
      arith,
      ap length e,
      length-append (named (xs ++ y ∷ [])) (named ys),
      length-named (xs ++ y ∷ []),
      length-named ys,
      length-append xs (y ∷ []),
      length-append xs (y ∷ ys),
    )

    -- The pull that starts at a node does not end.
    abbrev IsStuck : ℕ → Type 0
    IsStuck fuel =
        (xs : List ChainNode) (y : ChainNode) (ys : List ChainNode)
        → chain ≡ xs ++ y ∷ ys
        → pull page fuel total y.identity_id 1 (named (xs ++ y ∷ [])) ≡ running

    stuck_page :
        (fuel : ℕ) (xs : List ChainNode) (y z : ChainNode) (zs : List ChainNode)
        → chain ≡ xs ++ y ∷ z ∷ zs
        → Cut 9 (z ∷ zs)
        → IsStuck fuel
        → pull page (suc fuel) total y.identity_id 1 (named (xs ++ y ∷ [])) ≡ running
    stuck_page fuel xs y z zs e (within before last after whole taken shorter) next =
        let here : page y.identity_id page_size ≡ y ∷ before ++ last ∷ [] =
          paged xs y (z ∷ zs) page_size e ∙ ap (◌∷◌ y) taken in
        pull_step page fuel total y.identity_id 1 (named (xs ++ y ∷ [])) last
          (short xs y (z ∷ zs) e) (rw here (last_of-append_one (y ∷ before) last))
        ∙ ap (λ t. pull page fuel total last.identity_id 1 t)
            (rw here (
              sym (named-append (xs ++ y ∷ []) (before ++ last ∷ []))
              ∙ ap named (regroup xs y before last)))
        ∙ next (xs ++ y ∷ before) last after
            (e ∙ ap (λ t. xs ++ y ∷ t) whole ∙ sym (append_assoc xs (y ∷ before) (last ∷ after)))
    stuck_page fuel xs y z zs e (beyond last rest) next =
        let here : page y.identity_id page_size ≡ y ∷ padded 9 (z ∷ zs) =
          paged xs y (z ∷ zs) page_size e in
        pull_step page fuel total y.identity_id 1 (named (xs ++ y ∷ [])) empty_node
          (short xs y (z ∷ zs) e) (rw here last)
        ∙ ap (λ t. pull page fuel total 0 1 t) (rw here (ap (λ t. named (xs ++ y ∷ []) ++ t) rest))
        ∙ stuck_zero fuel total (named (xs ++ y ∷ []) ++ named (z ∷ zs)) (short_all xs y (z ∷ zs) e)

    pull-IsStuck : (fuel : ℕ) → IsStuck fuel
    pull-IsStuck zero xs y ys e = pull_out total y.identity_id 1 _ (short xs y ys e)
    pull-IsStuck (suc fuel) xs y [] e =
        let here : page y.identity_id page_size ≡ y ∷ padded 9 [] = paged xs y [] page_size e in
        pull_step page fuel total y.identity_id 1 (named (xs ++ y ∷ [])) empty_node
          (short xs y [] e) (rw here (last_of-padded 8))
        ∙ ap (λ t. pull page fuel total 0 1 t) (rw here (append-nil (named (xs ++ y ∷ []))))
        ∙ stuck_zero fuel total (named (xs ++ y ∷ [])) (short xs y [] e)
    pull-IsStuck (suc fuel) xs y (z ∷ zs) e =
        stuck_page fuel xs y z zs e (cut 8 z zs) (pull-IsStuck fuel)

    stuck_first :
        (fuel : ℕ) (y : ChainNode) (ys : List ChainNode)
        → chain ≡ y ∷ ys
        → Cut 10 (y ∷ ys)
        → pull page (suc fuel) total y.identity_id 0 [] ≡ running
    stuck_first fuel y ys e (within before last after whole taken shorter) =
        let here : page y.identity_id page_size ≡ before ++ last ∷ [] =
          paged [] y ys page_size e ∙ taken in
        pull_step page fuel total y.identity_id 0 [] last (omega arith)
          (rw here (last_of-append_one before last))
        ∙ ap (λ t. pull page fuel total last.identity_id 1 (named t)) here
        ∙ pull-IsStuck fuel before last after (e ∙ whole)
    stuck_first fuel y ys e (beyond last rest) =
        let here : page y.identity_id page_size ≡ padded 10 (y ∷ ys) = paged [] y ys page_size e in
        pull_step page fuel total y.identity_id 0 [] empty_node (omega arith) (rw here last)
        ∙ ap (λ t. pull page fuel total 0 1 (named t)) here
        ∙ ap (λ t. pull page fuel total 0 1 t) rest
        ∙ stuck_zero fuel total (named (y ∷ ys)) (omega (arith, length-named (y ∷ ys), ap length e))

    -- If the table on the blockchain has fewer nodes than were counted before its pages are read,
    -- as when a node leaves in between, the loop of a pull does not end, with whatever fuel. The
    -- contract returns pages of the table, padded with empty entries behind its end, and for
    -- identity 0 a page of empty entries; the table begins with a first node.
    pub shrunk_pull_never_ends :
        (fuel : ℕ) (y : ChainNode) (ys : List ChainNode)
        → chain ≡ y ∷ ys
        → pull page fuel total y.identity_id 0 [] ≡ running
    shrunk_pull_never_ends zero y ys e = pull_out total y.identity_id 0 [] (omega arith)
    shrunk_pull_never_ends (suc fuel) y ys e = stuck_first fuel y ys e (cut 9 y ys)
