-- ===== src/Sharding/PullTests.antt =====
-- A table of twelve nodes on a blockchain, which takes two pages.
use trex_dkg.Prelude.{
  ℕ, zero, suc, ◌+◌, ◌*◌, false, ◌≡◌, refl, ap, ◌∙◌, none, some, List, [], ◌∷◌, ◌++◌, map, length,
  drop, arith,
}
use trex_dkg.Sharding.Data.{Peer}
use trex_dkg.Sharding.Neighbourhood.{peers_of}
use trex_dkg.Sharding.Pull.{ChainNode, running, pull, peer_of_node, pull_blockchain_sharding_table}
use trex_dkg.Sharding.Pulled.{padded, IsPaged}
use trex_dkg.Sharding.Shrunk.{shrunk_pull_never_ends}
use trex_dkg.Sharding.PulledTable.{AreNew, pull_blockchain_sharding_table_lem}

abbrev node_at : ℕ → ChainNode
node_at k = record { node_id = k + 100; identity_id = k + 1; ask = 7; stake = 50000 }

abbrev nodes_from : ℕ → ℕ → List ChainNode
nodes_from k zero = []
nodes_from k (suc m) = node_at k ∷ nodes_from (k + 1) m

-- A contract that returns the nodes from a position on; the first has position 1, and 0 is none.
abbrev page_from : List ChainNode → ℕ → ℕ → List ChainNode
page_from chain zero n = padded n []
page_from chain (suc i) n = padded n (drop i chain)

-- A node's identity is its position.
abbrev IsNumbered : List ChainNode → Type 0
IsNumbered chain =
    (xs : List ChainNode) (y : ChainNode) (ys : List ChainNode)
    → chain ≡ xs ++ y ∷ ys
    → y.identity_id ≡ suc (length xs)

drop-append : (xs ys : List ChainNode) → drop (length xs) (xs ++ ys) ≡ ys
drop-append [] ys = refl
drop-append (x ∷ xs) ys = drop-append xs ys

page_from-IsPaged : (chain : List ChainNode) → IsNumbered chain → IsPaged chain (page_from chain)
page_from-IsPaged chain numbered xs y ys n e =
    ap (λ i. page_from chain i n) (numbered xs y ys e)
    ∙ ap (padded n) (ap (drop (length xs)) e ∙ drop-append xs (y ∷ ys))

abbrev HasIds : ℕ → List ChainNode → Type 0
HasIds k [] = Unit
HasIds k (n ∷ ns) = (n.identity_id ≡ k + 1) × HasIds (k + 1) ns

identity_lem :
    (k : ℕ) (chain xs : List ChainNode) (y : ChainNode) (ys : List ChainNode)
    → HasIds k chain
    → chain ≡ xs ++ y ∷ ys
    → y.identity_id ≡ k + length xs + 1
identity_lem k [] [] y ys h e = absurd (grind (arith, e))
identity_lem k [] (x ∷ xs) y ys h e = absurd (grind (arith, e))
identity_lem k (n ∷ ns) [] y ys h e = grind (arith, e, h.0)
identity_lem k (n ∷ ns) (x ∷ xs) y ys h e = grind (arith, e, identity_lem (k + 1) ns xs y ys h.1)

HasIds-IsNumbered : (chain : List ChainNode) → HasIds 0 chain → IsNumbered chain
HasIds-IsNumbered chain h xs y ys e = identity_lem 0 chain xs y ys h e ∙ omega arith

nodes_from-HasIds : (k m : ℕ) → HasIds k (nodes_from k m)
nodes_from-HasIds k zero = tt
nodes_from-HasIds k (suc m) = (refl, nodes_from-HasIds (k + 1) m)

abbrev nodes : List ChainNode
nodes = nodes_from 0 12

abbrev kept_rows : List Peer
kept_rows =
    record {
      peer_id = 3;
      blockchain_id = 1;
      ask = 1;
      stake = 2;
      last_seen = 3;
      last_dialed = 4;
      sha256 = 5;
    }
    ∷ record {
      peer_id = 8;
      blockchain_id = 2;
      ask = 1;
      stake = 2;
      last_seen = 3;
      last_dialed = 4;
      sha256 = 5;
    }
    ∷ []

abbrev row_of : ChainNode → Peer
row_of = peer_of_node (λ n. n) (λ n. n) (λ n. n * 3) 1

pull_blockchain_sharding_table_lem_example :
    (t : List Peer) × (pull_blockchain_sharding_table
        (λ n. n)
        (λ n. n)
        (λ n. n * 3)
        12
        (page_from nodes)
        12
        1
        1
        false
        none
        1000
        kept_rows
      ≡ some t)
    × (peers_of 1 t ≡ map row_of nodes)
    × (peers_of 2 t ≡ peers_of 2 kept_rows)
unfolding peers_of
pull_blockchain_sharding_table_lem_example =
    pull_blockchain_sharding_table_lem (λ n. n) (λ n. n) (λ n. n * 3) nodes (nodes_from 1 11)
      (node_at 0) (page_from nodes) 12 1 2 1000 none kept_rows
      (page_from-IsPaged nodes (HasIds-IsNumbered nodes (nodes_from-HasIds 0 12))) refl refl new
      refl (omega arith) (omega arith)
  where
    new : AreNew 1 (map row_of nodes) []
    new = (
      refl,
      refl,
      (
        refl,
        refl,
        (
          refl,
          refl,
          (
            refl,
            refl,
            (
              refl,
              refl,
              (
                refl,
                refl,
                (
                  refl,
                  refl,
                  (refl, refl, (refl, refl, (refl, refl, (refl, refl, (refl, refl, tt))))),
                ),
              ),
            ),
          ),
        ),
      ),
    )

-- Three nodes are left of four.
shrunk_pull_never_ends_example : pull (page_from (nodes_from 0 3)) 1000 4 1 0 [] ≡ running
shrunk_pull_never_ends_example =
    shrunk_pull_never_ends (page_from (nodes_from 0 3)) (λ n. refl) (nodes_from 0 3)
      (page_from-IsPaged (nodes_from 0 3)
        (HasIds-IsNumbered (nodes_from 0 3) (nodes_from-HasIds 0 3)))
      4 (omega arith) 1000 (node_at 0) (nodes_from 1 2) refl
