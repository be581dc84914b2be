-- ===== src/Epoch/Rank.antt =====
-- The rank of a node in a neighbourhood.
use trex_dkg.Prelude.{
  ℕ, ◌+◌, ◌≡◌, refl, ap, ◌∙◌, true, false, not, ◌&&◌, Option, some, List, [], ◌∷◌, ◌++◌, ◌==◌,
  arith, Option-cases, inl, inr,
}
use trex_dkg.Sharding.Data.{Found}
use trex_dkg.Epoch.Ranks.{
  Edges, is_among, scores_of, calculate_rank, Score, sort_scores, find_index,
}
use trex_dkg.Epoch.Scores.{
  above, at_least, lacks_peer, above-sort_scores, lacks_peer-sort_scores, is_sorted-sort_scores,
  score_of, score_of-insert_score, score_of-insert_score_self, find_index-insert_score,
  find_index-insert_score_self,
}

find_index-sort_scores :
    (m : Score) (before after : List Score)
    → lacks_peer m.peer_id before ≡ true
    → lacks_peer m.peer_id after ≡ true
    → (find_index m.peer_id (sort_scores (before ++ m ∷ after))
        ≡ some (at_least m.score before + above m.score after))
      × (score_of m.peer_id (sort_scores (before ++ m ∷ after)) ≡ some m.score)
find_index-sort_scores m [] after hb ha =
    let lacking = lacks_peer-sort_scores m.peer_id after ∙ ha in
    (
      find_index-insert_score_self m (sort_scores after) lacking (is_sorted-sort_scores after)
          ∙ ap (λ (n : ℕ). some n) (omega (arith, above-sort_scores m.score after)),
      score_of-insert_score_self m (sort_scores after) lacking,
    )
find_index-sort_scores m (x ∷ before) after hb ha =
    let other : (x.peer_id == m.peer_id) ≡ false = ground arith in
    let (at, scored) = find_index-sort_scores m before after (ground arith) ha in
    (
      find_index-insert_score m.peer_id m.score (at_least m.score before + above m.score after) x
            (sort_scores (before ++ m ∷ after)) other (is_sorted-sort_scores (before ++ m ∷ after))
            scored at
          ∙ ap (λ (n : ℕ). some n) (omega arith),
      score_of-insert_score m.peer_id x (sort_scores (before ++ m ∷ after)) other ∙ scored,
    )

lacks_peer-append :
    (me : ℕ) (xs ys : List Score)
    → lacks_peer me (xs ++ ys) ≡ (lacks_peer me xs && lacks_peer me ys)
lacks_peer-append me [] ys = refl
lacks_peer-append me (x ∷ xs) ys = ground (arith, lacks_peer-append me xs ys)

module _ (calculate_score : Option Edges → Found → Option ℕ) where
  is_among-scores_of :
      (me : ℕ) (edges : Option Edges) (fs : List Found) (ss : List Score)
      → scores_of calculate_score edges fs ≡ some ss
      → is_among me fs ≡ not (lacks_peer me ss)
  is_among-scores_of me edges [] ss e = grind (arith, e)
  is_among-scores_of me edges (f ∷ fs) ss e = elim (Option-cases (calculate_score edges f)) [
    | inl thrown ↦ absurd (ground (arith, rw (thrown, scores_of) at e))
    | inr (n, scored) ↦ elim (Option-cases (scores_of calculate_score edges fs)) [
      | inl thrown ↦ absurd (ground (arith, rw (scored, thrown, scores_of) at e))
      | inr (rest, all) ↦
          let first : Score = record { score = n; peer_id = f.entry.peer.peer_id } in
          let made : some (first ∷ rest) ≡ some ss = rw (scored, all, scores_of) at e in
          grind (arith, made, is_among-scores_of me edges fs rest all)
    ]
  ]

  -- The rank of a node is the number of nodes of the neighbourhood before it, in the order of
  -- distance, with at least its score, and of those after it with a higher one. The scores can be
  -- computed, and the node is in the neighbourhood once.
  pub calculate_rank_lem :
      (edges : Option Edges) (neighbourhood : List Found) (before after : List Score) (m : Score)
      → scores_of calculate_score edges neighbourhood ≡ some (before ++ m ∷ after)
      → lacks_peer m.peer_id before ≡ true
      → lacks_peer m.peer_id after ≡ true
      → calculate_rank calculate_score m.peer_id neighbourhood edges
        ≡ some (some (at_least m.score before + above m.score after))
  unfolding calculate_rank
  calculate_rank_lem edges neighbourhood before after m e hb ha =
      let among = is_among-scores_of m.peer_id edges neighbourhood (before ++ m ∷ after) e in
      ground (
        arith,
        lacks_peer-append m.peer_id before (m ∷ after),
        (find_index-sort_scores m before after hb ha).0,
      )
