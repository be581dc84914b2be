-- ===== src/Events/Plan.antt =====
-- handleBlockchainEvents of ot-node-docker/src/service/blockchain-event-listener-service.js: the
-- batches of events that are handled one after the other.
use trex_dkg.Prelude.{
  ℕ, ◌+◌, ◌≤◌, ◌≡◌, refl, subst, Bool, true, false, List, [], ◌∷◌, ◌++◌, ◌==◌, arith, append-nil,
  append_assoc, inl, inr, Bool-cases, count, count-append,
}
use trex_dkg.Sharding.Order.{ordered_insert, sort_by, AtLeast, IsSorted}
use trex_dkg.Events.Data.{EventName, same_name, Row}
use trex_dkg.Events.Handle.{block_of, Batches, add_to_batch}

abbrev pub flat : Batches → List Row
flat [] = []
flat ((name, rows) ∷ batches) = rows ++ flat batches

-- The batches of all blocks, one after the other.
abbrev pub plan : List Row → Batches → ℕ → Batches
plan [] batched current_block = batched
plan (r ∷ rows) batched current_block = elim (block_of r == current_block) [
  | true ↦ plan rows (add_to_batch r batched) current_block
  | false ↦ batched ++ plan rows (add_to_batch r []) (block_of r)
]

flat-append : (a b : Batches) → flat (a ++ b) ≡ flat a ++ flat b
flat-append [] b = refl
flat-append ((name, rows) ∷ a) b = rw (flat-append a b, append_assoc) refl

count-flat-append :
    (p : Row → Bool) (a b : Batches) → count p (flat (a ++ b)) ≡ count p (flat a) + count p (flat b)
count-flat-append p a b = rw (flat-append a b) (count-append p (flat a) (flat b))

count-flat-add_to_batch :
    (p : Row → Bool) (r : Row) (batches : Batches)
    → count p (flat (add_to_batch r batches)) ≡ count p (r ∷ []) + count p (flat batches)
unfolding add_to_batch
count-flat-add_to_batch p r [] = ground arith
count-flat-add_to_batch p r ((name, rows) ∷ batches) = ground (
  arith,
  count-flat-add_to_batch p r batches,
  count-append p (rows ++ r ∷ []) (flat batches),
  count-append p rows (r ∷ []),
  count-append p rows (flat batches),
  count-append p rows (flat (add_to_batch r batches)),
)

pub count-flat-plan :
    (p : Row → Bool) (rows : List Row) (batched : Batches) (current_block : ℕ)
    → count p (flat (plan rows batched current_block)) ≡ count p (flat batched) + count p rows
count-flat-plan p [] batched current_block = omega arith
count-flat-plan p (r ∷ rows) batched current_block = ground (
  arith,
  count-flat-plan p rows (add_to_batch r batched) current_block,
  count-flat-plan p rows (add_to_batch r []) (block_of r),
  count-flat-add_to_batch p r batched,
  count-flat-add_to_batch p r [],
  count-flat-append p batched (plan rows (add_to_batch r []) (block_of r)),
)

count-ordered_insert :
    (p : Row → Bool) (r : Row) (rows : List Row)
    → count p (ordered_insert block_of r rows) ≡ count p (r ∷ rows)
count-ordered_insert p r [] = refl
count-ordered_insert p r (q ∷ rows) = ground (arith, count-ordered_insert p r rows)

pub count-sort_by :
    (p : Row → Bool) (rows : List Row) → count p (sort_by block_of rows) ≡ count p rows
unfolding sort_by
count-sort_by p [] = refl
count-sort_by p (r ∷ rows) =
    ground (arith, count-sort_by p rows, count-ordered_insert p r (sort_by block_of rows))

-- All events of the list are of the block.
abbrev pub AtBlock : ℕ → List Row → Type 0
AtBlock b [] = Unit
AtBlock b (r ∷ rows) = (block_of r ≡ b) × AtBlock b rows

AtBlock-append : (b : ℕ) (xs ys : List Row) → AtBlock b xs → AtBlock b ys → AtBlock b (xs ++ ys)
AtBlock-append b [] ys hx hy = hy
AtBlock-append b (x ∷ xs) ys (h, hx) hy = (h, AtBlock-append b xs ys hx hy)

AtBlock-split : (b : ℕ) (xs ys : List Row) → AtBlock b (xs ++ ys) → AtBlock b xs × AtBlock b ys
AtBlock-split b [] ys h = (tt, h)
AtBlock-split b (x ∷ xs) ys (hx, h) = let (hxs, hys) = AtBlock-split b xs ys h in ((hx, hxs), hys)

AtBlock-add_to_batch :
    (b : ℕ) (r : Row) (batches : Batches)
    → block_of r ≡ b
    → AtBlock b (flat batches)
    → AtBlock b (flat (add_to_batch r batches))
unfolding add_to_batch
AtBlock-add_to_batch b r [] hr h = (hr, h)
AtBlock-add_to_batch b r ((name, rows) ∷ batches) hr h =
    let (hrows, hrest) = AtBlock-split b rows (flat batches) h in
    elim (Bool-cases (same_name name r.event.event)) [
      | inl e ↦
          rw (e, add_to_batch)
            (AtBlock-append b (rows ++ r ∷ []) (flat batches)
              (AtBlock-append b rows (r ∷ []) hrows (hr, tt)) hrest)
      | inr e ↦
          rw (e, add_to_batch)
            (AtBlock-append b rows (flat (add_to_batch r batches)) hrows
              (AtBlock-add_to_batch b r batches hr hrest))
    ]

AtLeast-append :
    (m : ℕ) (xs ys : List Row)
    → AtLeast block_of m xs
    → AtLeast block_of m ys
    → AtLeast block_of m (xs ++ ys)
unfolding AtLeast
AtLeast-append m [] ys hx hy = hy
AtLeast-append m (x ∷ xs) ys (h, hx) hy = (h, AtLeast-append m xs ys hx hy)

AtBlock→AtLeast : (m b : ℕ) (xs : List Row) → m ≤ b → AtBlock b xs → AtLeast block_of m xs
unfolding AtLeast
AtBlock→AtLeast m b [] le h = tt
AtBlock→AtLeast m b (x ∷ xs) le (hx, h) = (omega arith, AtBlock→AtLeast m b xs le h)

IsSorted-append :
    (b : ℕ) (xs ys : List Row)
    → AtBlock b xs
    → AtLeast block_of b ys
    → IsSorted block_of ys
    → IsSorted block_of (xs ++ ys)
unfolding IsSorted
IsSorted-append b [] ys hx hy sorted = sorted
IsSorted-append b (x ∷ xs) ys (h, hx) hy sorted = (
  rw h (AtLeast-append b xs ys (AtBlock→AtLeast b b xs (omega arith) hx) hy),
  IsSorted-append b xs ys hx hy sorted,
)

-- The blocks of a plan are not below those of its events.
AtLeast-flat-plan :
    (m : ℕ) (rows : List Row) (batched : Batches) (b : ℕ)
    → m ≤ b
    → AtBlock b (flat batched)
    → AtLeast block_of m rows
    → AtLeast block_of m (flat (plan rows batched b))
unfolding AtLeast
AtLeast-flat-plan m [] batched b le h hr = AtBlock→AtLeast m b (flat batched) le h
AtLeast-flat-plan m (r ∷ rows) batched b le h (hr, rest) = elim (Bool-cases (block_of r == b)) [
  | inl e ↦
      rw (e, plan)
        (AtLeast-flat-plan m rows (add_to_batch r batched) b le
          (AtBlock-add_to_batch b r batched (ground arith) h) rest)
  | inr e ↦
      rw (e, plan, flat-append batched (plan rows (add_to_batch r []) (block_of r)))
        (AtLeast-append m (flat batched) _ (AtBlock→AtLeast m b (flat batched) le h) (
          AtLeast-flat-plan m rows (add_to_batch r []) (block_of r) hr
            (AtBlock-add_to_batch (block_of r) r [] refl tt) rest))
]

pub flat-plan-IsSorted :
    (rows : List Row) (batched : Batches) (b : ℕ)
    → AtBlock b (flat batched)
    → AtLeast block_of b rows
    → IsSorted block_of rows
    → IsSorted block_of (flat (plan rows batched b))
unfolding AtLeast IsSorted
flat-plan-IsSorted [] batched b h hr sorted =
    subst (IsSorted block_of) (append-nil (flat batched))
      (IsSorted-append b (flat batched) [] h tt tt)
flat-plan-IsSorted (r ∷ rows) batched b h (hr, rest) (low, sorted) =
    elim (Bool-cases (block_of r == b)) [
      | inl e ↦
          rw (e, plan)
            (flat-plan-IsSorted rows (add_to_batch r batched) b
              (AtBlock-add_to_batch b r batched (ground arith) h) rest sorted)
      | inr e ↦
          let one = AtBlock-add_to_batch (block_of r) r [] refl tt in
          rw (e, plan, flat-append batched (plan rows (add_to_batch r []) (block_of r)))
            (IsSorted-append b (flat batched) _ h
              (AtLeast-flat-plan b rows (add_to_batch r []) (block_of r) hr one rest)
              (flat-plan-IsSorted rows (add_to_batch r []) (block_of r) one low sorted))
    ]

-- The events of the list have the name.
abbrev pub HaveName : EventName → List Row → Type 0
HaveName name [] = Unit
HaveName name (r ∷ rows) = (same_name name r.event.event ≡ true) × HaveName name rows

abbrev pub AreNamed : Batches → Type 0
AreNamed [] = Unit
AreNamed ((name, rows) ∷ batches) = HaveName name rows × AreNamed batches

HaveName-snoc :
    (name : EventName) (rows : List Row) (r : Row)
    → HaveName name rows
    → same_name name r.event.event ≡ true
    → HaveName name (rows ++ r ∷ [])
HaveName-snoc name [] r h e = (e, tt)
HaveName-snoc name (q ∷ rows) r (hq, h) e = (hq, HaveName-snoc name rows r h e)

AreNamed-append : (a b : Batches) → AreNamed a → AreNamed b → AreNamed (a ++ b)
AreNamed-append [] b ha hb = hb
AreNamed-append ((name, rows) ∷ a) b (h, ha) hb = (h, AreNamed-append a b ha hb)

add_to_batch-AreNamed :
    (r : Row) (batches : Batches) → AreNamed batches → AreNamed (add_to_batch r batches)
unfolding add_to_batch
add_to_batch-AreNamed r [] h = ((ground arith, tt), tt)
add_to_batch-AreNamed r ((name, rows) ∷ batches) (hn, h) =
    elim (Bool-cases (same_name name r.event.event)) [
      | inl e ↦ rw (e, add_to_batch) (HaveName-snoc name rows r hn e, h)
      | inr e ↦ rw (e, add_to_batch) (hn, add_to_batch-AreNamed r batches h)
    ]

pub plan-AreNamed :
    (rows : List Row) (batched : Batches) (b : ℕ)
    → AreNamed batched
    → AreNamed (plan rows batched b)
plan-AreNamed [] batched b h = h
plan-AreNamed (r ∷ rows) batched b h = elim (Bool-cases (block_of r == b)) [
  | inl e ↦
      rw (e, plan)
        (plan-AreNamed rows (add_to_batch r batched) b (add_to_batch-AreNamed r batched h))
  | inr e ↦
      rw (e, plan)
        (AreNamed-append batched _ h
          (plan-AreNamed rows (add_to_batch r []) (block_of r) (add_to_batch-AreNamed r [] tt)))
]
