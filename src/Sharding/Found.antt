-- ===== src/Sharding/Found.antt =====
-- find-nodes-command.js: which nodes an operation is sent to.
use trex_dkg.Prelude.{
  ℕ, ◌≤◌, ◌≡◌, ◌≢◌, refl, sym, ap, arith, true, false, none, some, List, [], ◌∷◌, length, ltb, leb,
  ◌==◌, Bool-cases, ◌⊎◌, inl, inr, ◌<◌, ◌↔◌, leb→le, ltb→lt,
}
use trex_dkg.Sharding.Data.{Peer, Found}
use trex_dkg.Sharding.Neighbourhood.{available, others, find_nodes, leftover_of, find_neighbourhood}
use mathlib.Core.List.{Memᴰ}
use mathlib.Core.List.Memᴰ

-- What a node that is contacted is to the node that looks for it.
abbrev pub IsReachable : ℕ → List Found → ℕ → Type 0
IsReachable me neighbourhood n =
    (n ≢ me)
    × ((f : Found) × Memᴰ f neighbourhood
        × (f.entry.peer.peer_id ≡ n)
        × (f.entry.peer.last_dialed ≤ f.entry.peer.last_seen))

module _ (distance_of : ℕ → ℕ) where
  later :
      (me : ℕ) (f : Found) (fs : List Found) (n : ℕ)
      → IsReachable me fs n
      → IsReachable me (f ∷ fs) n
  later me f fs n (ne, (g, i, e, le)) = (ne, (g, Memᴰ.tail i, e, le))

  others-cons :
      (me n m : ℕ) (ns : List ℕ)
      → Memᴰ n (others distance_of me (m ∷ ns))
      → ((n ≢ me) × (n ≡ m)) ⊎ Memᴰ n (others distance_of me ns)
  unfolding others
  others-cons me n m ns i = elim (Bool-cases (m == me)) [
    | inl t ↦ inr (rw (t) at i)
    | inr f ↦ elim (Memᴰ.cases_cons (rw (f) at i)) [
      | inl e ↦ inl (ground (arith, e), e)
      | inr j ↦ inr j
    ]
  ]

  IsReachable-of_others :
      (me : ℕ) (fs : List Found) (n : ℕ)
      → Memᴰ n (others distance_of me (available distance_of fs))
      → IsReachable me fs n
  unfolding available others
  IsReachable-of_others me [] n i = elim i [ ]
  IsReachable-of_others me (f ∷ fs) n i =
      elim (Bool-cases (leb f.entry.peer.last_dialed f.entry.peer.last_seen)) [
        | inr no_answer ↦ later me f fs n (IsReachable-of_others me fs n (rw (no_answer) at i))
        | inl seen ↦
            elim (others-cons me n f.entry.peer.peer_id (available distance_of fs)
              (rw (seen) at i)) [
                | inl (ne, e) ↦ (
                  ne,
                  (
                    f,
                    Memᴰ.head refl,
                    sym e,
                    leb→le f.entry.peer.last_dialed f.entry.peer.last_seen seen,
                  ),
                )
                | inr j ↦ later me f fs n (IsReachable-of_others me fs n j)
              ]
      ]

  answers :
      (g : Found)
      → g.entry.peer.last_dialed ≤ g.entry.peer.last_seen
      → leb g.entry.peer.last_dialed g.entry.peer.last_seen ≡ true
  answers g le = ground arith

  others-Memᴰ : (me n : ℕ) (ns : List ℕ) → n ≢ me → Memᴰ n ns → Memᴰ n (others distance_of me ns)
  unfolding others
  others-Memᴰ me n [] ne i = i
  others-Memᴰ me n (m ∷ ns) ne (Memᴰ.head e) = rw (not_same) (Memᴰ.head e)
    where
      not_same : (m == me) ≡ false
      not_same = grind (arith, e, ne)
  others-Memᴰ me n (m ∷ ns) ne (Memᴰ.tail i) = elim (Bool-cases (m == me)) [
    | inl t ↦ rw (t) (others-Memᴰ me n ns ne i)
    | inr f ↦ rw (f) (Memᴰ.tail (others-Memᴰ me n ns ne i))
  ]

  available-Memᴰ :
      (fs : List Found) (f : Found)
      → Memᴰ f fs
      → f.entry.peer.last_dialed ≤ f.entry.peer.last_seen
      → Memᴰ f.entry.peer.peer_id (available distance_of fs)
  unfolding available
  available-Memᴰ [] f i le = elim i [ ]
  available-Memᴰ (g ∷ fs) f (Memᴰ.head e) le =
      rw (answers g (rw e at le)) (Memᴰ.head (ap (λ (h : Found). h.entry.peer.peer_id) e))
  available-Memᴰ (g ∷ fs) f (Memᴰ.tail i) le =
      elim (Bool-cases (leb g.entry.peer.last_dialed g.entry.peer.last_seen)) [
        | inl t ↦ rw (t) (Memᴰ.tail (available-Memᴰ fs f i le))
        | inr n ↦ rw (n) (available-Memᴰ fs f i le)
      ]

  -- The sequence goes on with the nodes found exactly when the required number of acknowledgements
  -- could be had from them; they are then the neighbours that answered when last dialled, without
  -- the node itself, and all of them. Otherwise the operation is failed.
  pub leftover_lem :
      (me min_ack_responses blockchain r2 : ℕ) (table : List Peer)
      → ((nodes : List ℕ) × (leftover_of distance_of me min_ack_responses blockchain r2 table
            ≡ some nodes)
          × (min_ack_responses ≤ length nodes)
          × ((n : ℕ)
              → Memᴰ n nodes
                ↔ IsReachable me (find_neighbourhood distance_of blockchain r2 table) n))
        ⊎ ((leftover_of distance_of me min_ack_responses blockchain r2 table ≡ none)
            × (length (others distance_of me (find_nodes distance_of blockchain r2 table))
                < min_ack_responses))
  unfolding leftover_of find_nodes
  leftover_lem me min_ack_responses blockchain r2 table =
      let neighbourhood = find_neighbourhood distance_of blockchain r2 table in
      let nodes = others distance_of me (available distance_of neighbourhood) in
      elim (Bool-cases (ltb (length nodes) min_ack_responses)) [
        | inl few ↦ inr (rw (few) refl, ltb→lt (length nodes) min_ack_responses few)
        | inr enough ↦ inl (
          nodes,
          rw (enough) refl,
          ground (arith, enough),
          λ n. (IsReachable-of_others me neighbourhood n, λ h. reached n h),
        )
      ]
    where
      reached :
          (n : ℕ)
          → IsReachable me (find_neighbourhood distance_of blockchain r2 table) n
          → Memᴰ n (
              others distance_of me
                (available distance_of (find_neighbourhood distance_of blockchain r2 table)))
      reached n (ne, (f, i, e, le)) =
          others-Memᴰ me n
            (available distance_of (find_neighbourhood distance_of blockchain r2 table)) ne
            (Memᴰ.cast (sym e)
              (available-Memᴰ (find_neighbourhood distance_of blockchain r2 table) f i le))
