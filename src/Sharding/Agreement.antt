-- ===== src/Sharding/Agreement.antt =====
-- Nodes that know the same peers compute the same neighbourhood.
use trex_dkg.Prelude.{ℕ, zero, suc, ◌≡◌, refl, sym, ap, ◌∙◌, List, [], ◌∷◌, map, take}
use trex_dkg.Sharding.Data.{Peer, Indexed, Found}
use trex_dkg.Sharding.Order.{sort_by, sort_by-Permᴰ}
use trex_dkg.Sharding.Stable.{HasDistinctKeys, sort_by_of_Permᴰ, map-sort_by, Memᴰ-Permᴰ}
use trex_dkg.Sharding.Neighbourhood.{
  peers_of, get_all_peer_records, indexed, with_distance, sort_peers, find_neighbourhood,
}
use mathlib.Core.List.{Permᴰ}
use mathlib.Core.List.Permᴰ

-- What all nodes know alike of a peer; what they have seen of it, and the index, differ.
pub record Identity : Type 0 where
  pub peer_id : ℕ
  pub sha256 : ℕ

abbrev pub identity : Peer → Identity
identity p = record { peer_id = p.peer_id; sha256 = p.sha256 }

abbrev pub identities : List Found → List Identity
identities fs = map (λ (f : Found). identity f.entry.peer) fs

module _ {A B : Type 0} where
  map-Permᴰ : (f : A → B) {xs ys : List A} → Permᴰ xs ys → Permᴰ (map f xs) (map f ys)
  map-Permᴰ f Permᴰ.nil = Permᴰ.nil
  map-Permᴰ f (Permᴰ.cons e p) = Permᴰ.cons (ap f e) (map-Permᴰ f p)
  map-Permᴰ f (Permᴰ.swap e g) = Permᴰ.swap (ap f e) (ap f g)
  map-Permᴰ f (Permᴰ.trans p q) = Permᴰ.trans (map-Permᴰ f p) (map-Permᴰ f q)

  map-take : (f : A → B) (n : ℕ) (xs : List A) → map f (take n xs) ≡ take n (map f xs)
  map-take f zero xs = refl
  map-take f (suc n) [] = refl
  map-take f (suc n) (x ∷ xs) = ap (◌∷◌ (f x)) (map-take f n xs)

module _ (distance_of : ℕ → ℕ) where
  -- The distance of a peer, known by its identity.
  abbrev pub identity_distance : Identity → ℕ
  identity_distance i = distance_of i.sha256

  entry_identity : Indexed → Identity
  entry_identity e = identity e.peer

  map-indexed : (i : ℕ) (ps : List Peer) → map entry_identity (indexed i ps) ≡ map identity ps
  unfolding entry_identity
  map-indexed i [] = refl
  map-indexed i (p ∷ ps) = ap (◌∷◌ (identity p)) (map-indexed (suc i) ps)

  identities-found :
      (es : List Indexed) → identities (map (with_distance distance_of) es) ≡ map entry_identity es
  unfolding entry_identity
  identities-found [] = refl
  identities-found (e ∷ es) = ap (◌∷◌ (identity e.peer)) (identities-found es)

  identities-sort_peers :
      (es : List Indexed) (count : ℕ)
      → identities (sort_peers distance_of es count)
        ≡ take count (sort_by identity_distance (map entry_identity es))
  unfolding sort_peers entry_identity
  identities-sort_peers es count =
      map-take (λ (f : Found). identity f.entry.peer) count
        (sort_by (λ (f : Found). f.distance) (map (with_distance distance_of) es))
      ∙ ap (take count) (
          ap identities
            (sym (map-sort_by (λ (f : Found). f.distance) (with_distance distance_of) es))
          ∙ identities-found (sort_by (λ (e : Indexed). distance_of e.peer.sha256) es)
          ∙ map-sort_by identity_distance entry_identity es)

  neighbourhood_of_identities :
      (blockchain r2 : ℕ) (table : List Peer)
      → HasDistinctKeys identity_distance (map identity (peers_of blockchain table))
      → identities (find_neighbourhood distance_of blockchain r2 table)
        ≡ take r2 (sort_by identity_distance (map identity (peers_of blockchain table)))
  unfolding find_neighbourhood get_all_peer_records
  neighbourhood_of_identities blockchain r2 table d =
      let ps = peers_of blockchain table in
      let perm = map-Permᴰ identity (sort_by-Permᴰ (λ (p : Peer). p.sha256) ps) in
      identities-sort_peers (indexed 0 (sort_by (λ (p : Peer). p.sha256) ps)) r2
      ∙ ap (λ l. take r2 (sort_by identity_distance l))
          (map-indexed 0 (sort_by (λ (p : Peer). p.sha256) ps))
      ∙ ap (take r2) (sym (sort_by_of_Permᴰ identity_distance (Permᴰ.symm perm) d))

  -- Two nodes whose tables list the same peers of a blockchain, in any order and with any asks,
  -- stakes and times, find the same neighbourhood in the same order, if no two of the peers are at
  -- the same distance.
  pub find_neighbourhood_agrees :
      (blockchain r2 : ℕ) (table table' : List Peer)
      → Permᴰ (map identity (peers_of blockchain table)) (map identity (peers_of blockchain table'))
      → HasDistinctKeys identity_distance (map identity (peers_of blockchain table))
      → identities (find_neighbourhood distance_of blockchain r2 table)
        ≡ identities (find_neighbourhood distance_of blockchain r2 table')
  find_neighbourhood_agrees blockchain r2 table table' p d =
      neighbourhood_of_identities blockchain r2 table d
      ∙ ap (take r2) (sort_by_of_Permᴰ identity_distance p d)
      ∙ sym (
          neighbourhood_of_identities blockchain r2 table' (λ x y i j.
            d x y (Memᴰ-Permᴰ identity_distance p i) (Memᴰ-Permᴰ identity_distance p j)))
