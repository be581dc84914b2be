-- ===== src/Epoch/Scores.antt =====
-- The order of scores, and where a node stands in it.
use trex_dkg.Prelude.{
  ℕ, suc, ◌+◌, ◌≤◌, ◌≡◌, refl, ◌∙◌, Bool, true, false, not, ◌&&◌, Option, none, some, List, [], ◌∷◌,
  ltb, leb, ◌==◌, if◌then◌else◌, arith, Bool-cases, Option-cases, inl, inr,
}
use trex_dkg.Epoch.Ranks.{Score, insert_score, sort_scores, find_index}

-- How many scores are above one, and how many are not below it.
abbrev pub above : ℕ → List Score → ℕ
above s [] = 0
above s (x ∷ xs) = (if ltb s x.score then 1 else 0) + above s xs

abbrev pub at_least : ℕ → List Score → ℕ
at_least s [] = 0
at_least s (x ∷ xs) = (if leb s x.score then 1 else 0) + at_least s xs

abbrev pub lacks_peer : ℕ → List Score → Bool
lacks_peer me [] = true
lacks_peer me (x ∷ xs) = let rest = lacks_peer me xs in not (x.peer_id == me) && rest

-- The best score comes first.
abbrev below_all : ℕ → List Score → Bool
below_all s [] = true
below_all s (x ∷ xs) = let rest = below_all s xs in leb x.score s && rest

abbrev pub is_sorted : List Score → Bool
is_sorted [] = true
is_sorted (x ∷ xs) = let rest = is_sorted xs in below_all x.score xs && rest

below_all-insert_score :
    (s : ℕ) (x : Score) (l : List Score)
    → x.score ≤ s
    → below_all s l ≡ true
    → below_all s (insert_score x l) ≡ true
below_all-insert_score s x [] h k = ground arith
below_all-insert_score s x (y ∷ l) h k = ground (arith, below_all-insert_score s x l h)

below_all_mono : (s t : ℕ) (l : List Score) → s ≤ t → below_all s l ≡ true → below_all t l ≡ true
below_all_mono s t [] h k = refl
below_all_mono s t (y ∷ l) h k = ground (arith, below_all_mono s t l h)

is_sorted-insert_score :
    (x : Score) (l : List Score) → is_sorted l ≡ true → is_sorted (insert_score x l) ≡ true
is_sorted-insert_score x [] h = ground arith
is_sorted-insert_score x (y ∷ l) h = ground (
  arith,
  is_sorted-insert_score x l,
  below_all-insert_score y.score x l,
  below_all_mono y.score x.score l,
)

pub is_sorted-sort_scores : (l : List Score) → is_sorted (sort_scores l) ≡ true
is_sorted-sort_scores [] = refl
is_sorted-sort_scores (x ∷ l) = is_sorted-insert_score x (sort_scores l) (is_sorted-sort_scores l)

above-insert_score :
    (s : ℕ) (x : Score) (l : List Score)
    → above s (insert_score x l) ≡ (if ltb s x.score then 1 else 0) + above s l
above-insert_score s x [] = omega arith
above-insert_score s x (y ∷ l) = ground (arith, above-insert_score s x l)

pub above-sort_scores : (s : ℕ) (l : List Score) → above s (sort_scores l) ≡ above s l
above-sort_scores s [] = refl
above-sort_scores s (x ∷ l) =
    above-insert_score s x (sort_scores l) ∙ omega (arith, above-sort_scores s l)

lacks_peer-insert_score :
    (me : ℕ) (x : Score) (l : List Score)
    → lacks_peer me (insert_score x l) ≡ (not (x.peer_id == me) && lacks_peer me l)
lacks_peer-insert_score me x [] = refl
lacks_peer-insert_score me x (y ∷ l) = ground (arith, lacks_peer-insert_score me x l)

pub lacks_peer-sort_scores :
    (me : ℕ) (l : List Score) → lacks_peer me (sort_scores l) ≡ lacks_peer me l
lacks_peer-sort_scores me [] = refl
lacks_peer-sort_scores me (x ∷ l) =
    ground (arith, lacks_peer-insert_score me x (sort_scores l), lacks_peer-sort_scores me l)

above-below_all : (s t : ℕ) (l : List Score) → t ≤ s → below_all t l ≡ true → above s l ≡ 0
above-below_all s t [] h k = refl
above-below_all s t (x ∷ l) h k = ground (arith, above-below_all s t l h)

-- A node that is put into a sorted list.
pub find_index-insert_score_self :
    (m : Score) (l : List Score)
    → lacks_peer m.peer_id l ≡ true
    → is_sorted l ≡ true
    → find_index m.peer_id (insert_score m l) ≡ some (above m.score l)
find_index-insert_score_self m [] h k = ground arith
find_index-insert_score_self m (y ∷ l) h k = elim (Bool-cases (leb y.score m.score)) [
  | inl low ↦
      let none_above = above-below_all m.score y.score l (ground arith) in
      ground (arith, none_above)
  | inr high ↦ let e = find_index-insert_score_self m l in ground (arith, e)
]

abbrev pub score_of : ℕ → List Score → Option ℕ
score_of me [] = none
score_of me (x ∷ xs) = let rest = score_of me xs in if x.peer_id == me then some x.score else rest

score_of-below_all :
    (me s t : ℕ) (l : List Score) → below_all t l ≡ true → score_of me l ≡ some s → s ≤ t
score_of-below_all me s t [] h k = absurd (ground (arith, k))
score_of-below_all me s t (x ∷ l) h k = elim (Bool-cases (x.peer_id == me)) [
  | inl here ↦ let e : some x.score ≡ some s = rw here at k in grind (arith, e)
  | inr there ↦ score_of-below_all me s t l (ground arith) (rw there at k)
]

pub score_of-insert_score :
    (me : ℕ) (x : Score) (l : List Score)
    → (x.peer_id == me) ≡ false
    → score_of me (insert_score x l) ≡ score_of me l
score_of-insert_score me x [] h = ground arith
score_of-insert_score me x (y ∷ l) h = ground (arith, score_of-insert_score me x l h)

pub score_of-insert_score_self :
    (m : Score) (l : List Score)
    → lacks_peer m.peer_id l ≡ true
    → score_of m.peer_id (insert_score m l) ≡ some m.score
score_of-insert_score_self m [] h = ground arith
score_of-insert_score_self m (y ∷ l) h = ground (arith, score_of-insert_score_self m l)

-- Another node that is put in moves it back if its score is not lower.
pub find_index-insert_score :
    (me s i : ℕ) (x : Score) (l : List Score)
    → (x.peer_id == me) ≡ false
    → is_sorted l ≡ true
    → score_of me l ≡ some s
    → find_index me l ≡ some i
    → find_index me (insert_score x l) ≡ some ((if leb s x.score then 1 else 0) + i)
find_index-insert_score me s i x [] other h k e = absurd (ground (arith, e))
find_index-insert_score me s i x (y ∷ l) other h k e = elim (Bool-cases (y.peer_id == me)) [
  | inl here ↦
      let at : some 0 ≡ some i = rw here at e in
      let same : some y.score ≡ some s = rw here at k in
      let i0 : i ≡ 0 = grind (arith, at) in
      let s0 : s ≡ y.score = grind (arith, same) in ground arith
  | inr there ↦ elim (Option-cases (find_index me l)) [
    | inl lost ↦ absurd (ground (arith, rw (there, lost) at e))
    | inr (j, found) ↦
        let next : some (suc j) ≡ some i = rw (there, found) at e in
        let i1 : i ≡ suc j = grind (arith, next) in
        let k1 : score_of me l ≡ some s = rw there at k in
        let top = score_of-below_all me s y.score l (ground arith) k1 in
        let rest = find_index-insert_score me s j x l other (ground arith) k1 found in ground arith
  ]
]
