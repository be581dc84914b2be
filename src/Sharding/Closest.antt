-- ===== src/Sharding/Closest.antt =====
-- What a neighbourhood is: the closest peers.
use trex_dkg.Prelude.{
  ℕ, suc, ◌≤◌, ◌≡◌, refl, ap, ◌∙◌, List, ◌++◌, map, length, drop, min, length-take,
  take-append-drop,
}
use trex_dkg.Sharding.Data.{Indexed, Found}
use trex_dkg.Sharding.Order.{
  sort_by, sort_by-Permᴰ, sort_by-IsSorted, IsSorted, take-le-drop, take-IsSorted,
}
use trex_dkg.Sharding.Neighbourhood.{with_distance, sort_peers}
use mathlib.Core.List.{Permᴰ, Memᴰ}

-- The first `count` elements of a list by distance: they are in order, there are `count` of them or
-- all, and with those left out, none of which is closer, they are the list.
pub record IsClosest (peers : List Found) (count : ℕ) (result : List Found) : Type 0 where
  pub is_sorted : IsSorted (λ (f : Found). f.distance) result
  pub has_length : length result ≡ min count (length peers)
  pub rest : List Found
  pub is_split : Permᴰ (result ++ rest) peers
  pub none_closer : (x y : Found) → Memᴰ x result → Memᴰ y rest → x.distance ≤ y.distance

length-Permᴰ : {xs ys : List Found} → Permᴰ xs ys → length xs ≡ length ys
length-Permᴰ Permᴰ.nil = refl
length-Permᴰ (Permᴰ.cons e p) = ap suc (length-Permᴰ p)
length-Permᴰ (Permᴰ.swap e f) = refl
length-Permᴰ (Permᴰ.trans p q) = length-Permᴰ p ∙ length-Permᴰ q

module _ (distance_of : ℕ → ℕ) where
  -- Sorting peers by distance and cutting gives the closest ones: the result is in order, has the
  -- asked count of peers or all of them, and with the peers left out, none of which is closer than
  -- one in the result, it is a permutation of the peers given.
  pub sort_peers-IsClosest :
      (peers : List Indexed) (count : ℕ)
      → IsClosest (map (with_distance distance_of) peers) count (sort_peers distance_of peers count)
  unfolding sort_peers
  sort_peers-IsClosest peers count =
      let found = map (with_distance distance_of) peers in
      let sorted = sort_by (λ (f : Found). f.distance) found in
      let ordered = sort_by-IsSorted (λ (f : Found). f.distance) found in
      let perm = sort_by-Permᴰ (λ (f : Found). f.distance) found in
      record {
        is_sorted = take-IsSorted (λ (f : Found). f.distance) count sorted ordered;
        has_length = length-take count sorted ∙ ap (min count) (length-Permᴰ perm);
        rest = drop count sorted;
        is_split = rw (take-append-drop count sorted) perm;
        none_closer = λ x y i j. take-le-drop (λ (f : Found). f.distance) count sorted ordered i j;
      }
