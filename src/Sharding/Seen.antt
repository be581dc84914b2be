-- ===== src/Sharding/Seen.antt =====
-- What the times in the `shard` table and in memory say of each other, whoever is dialled and when.
use trex_dkg.Prelude.{
  ℕ, ◌+◌, ◌<◌, ◌≤◌, ◌≡◌, ◌≢◌, ◌⊎◌, inl, inr, refl, sym, ap, ◌∙◌, arith, true, false, some, List, [],
  ◌∷◌, map, lookup, insert, lookup-insert, ◌==◌, ◌||◌, Bool-cases, Option-cases, ℕ_discrete,
}
use trex_dkg.Sharding.Data.{Peer}
use trex_dkg.Sharding.Dial.{
  peer_record_update_delay, Cached, World, cached_or_zero, has_peer, when_peer, is_old,
  update_peer_record_last_seen_and_last_dialed, update_peer_record_last_dialed, Network, dial,
  is_empty, find_peer_address_and_protocols,
}
use mathlib.Core.List.{Memᴰ}

-- A peer that was not seen when it was last dialled had not been seen for the whole delay.
abbrev pub IsPlausible : ℕ → Cached → Type 0
IsPlausible now c =
    (c.last_dialed ≤ now)
    × ((c.last_seen ≡ c.last_dialed) ⊎ (c.last_seen + peer_record_update_delay < c.last_dialed))

-- A peer that memory has as seen when last dialled is one in the table, too.
abbrev pub IsKnown : Cached → Peer → Type 0
IsKnown c p = 0 < c.last_dialed → c.last_seen ≡ c.last_dialed → p.last_dialed ≤ p.last_seen

abbrev pub IsEntry : ℕ → List Peer → ℕ → Cached → Type 0
IsEntry now table peer c =
    IsPlausible now c × ((p : Peer) → Memᴰ p table → p.peer_id ≡ peer → IsKnown c p)

abbrev pub IsConsistent : World → Type 0
IsConsistent w =
    (peer : ℕ) (c : Cached) → lookup peer w.cache ≡ some c → IsEntry w.now w.table peer c

-- A row after a write to the rows of one peer.
written :
    (peer : ℕ) (f : Peer → Peer) {q : Peer} (ps : List Peer)
    → Memᴰ q (map (when_peer peer f) ps)
    → ((p : Peer) × Memᴰ p ps × (p.peer_id ≡ peer) × (q ≡ f p)) ⊎ (Memᴰ q ps × (q.peer_id ≢ peer))
written peer f [] i = elim i [ ]
written peer f {q} (p ∷ ps) (Memᴰ.head e) = elim (Bool-cases (p.peer_id == peer)) [
  | inl t ↦ inl (p, Memᴰ.head refl, ground (arith, t), rw (t) at e)
  | inr n ↦
      let e' : q ≡ p = rw (n) at e in
      inr (Memᴰ.head e', λ same. absurd (ground (arith, n, same, ap (λ (r : Peer). r.peer_id) e')))
]
written peer f (p ∷ ps) (Memᴰ.tail i) = elim (written peer f ps i) [
  | inl (p', j, same, e) ↦ inl (p', Memᴰ.tail j, same, e)
  | inr (j, n) ↦ inr (Memᴰ.tail j, n)
]

has_peer_of_Memᴰ : (p : Peer) (ps : List Peer) → Memᴰ p ps → has_peer p.peer_id ps ≡ true
has_peer_of_Memᴰ p [] i = elim i [ ]
has_peer_of_Memᴰ p (q ∷ ps) (Memᴰ.head e) =
    let same : p.peer_id ≡ q.peer_id = ap (λ (r : Peer). r.peer_id) e in ground (arith, same)
has_peer_of_Memᴰ p (q ∷ ps) (Memᴰ.tail i) = ground (arith, has_peer_of_Memᴰ p ps i)

absent :
    (peer : ℕ) (p : Peer) (ps : List Peer) → has_peer peer ps ≡ false → Memᴰ p ps → p.peer_id ≢ peer
absent peer p ps gone i same = ground (arith, gone, rw (same) at (has_peer_of_Memᴰ p ps i))

-- The entry that the code works with, whether it was there or not.
IsEntry-cached :
    (w : World) (peer : ℕ)
    → IsConsistent w
    → IsEntry w.now w.table peer (cached_or_zero (lookup peer w.cache))
IsEntry-cached w peer h = elim (Option-cases (lookup peer w.cache)) [
  | inl e ↦ rw (e) ((omega arith, inl refl), λ p i same pos eq. absurd (omega (arith, pos)))
  | inr (c, e) ↦ rw (e) (h peer c e)
]

inserted :
    (w : World) (peer : ℕ) (c : Cached) (table : List Peer)
    → IsEntry w.now table peer c
    → ((other : ℕ) (c' : Cached)
        → other ≢ peer
        → lookup other w.cache ≡ some c'
        → IsEntry w.now table other c')
    → IsConsistent (record w { table = table; cache = insert peer c w.cache })
inserted w peer c table entry rest other c' e = elim (ℕ_discrete other peer) [
  | yes same ↦
      let e' : c' ≡ c = grind (arith, lookup-insert peer other c w.cache, e, same) in
      rw (same, e') entry
  | no differs ↦
      rest other c' differs (grind (arith, lookup-insert peer other c w.cache, e, differs))
]

-- Writing the rows of one peer leaves the entries of the others as true as they were.
renewed :
    (w : World) (peer : ℕ) (c : Cached) (f : Peer → Peer)
    → IsConsistent w
    → ((p : Peer) → (f p).peer_id ≡ p.peer_id)
    → IsPlausible w.now c
    → ((p : Peer) → Memᴰ p w.table → p.peer_id ≡ peer → IsKnown c (f p))
    → IsConsistent
        (record w { table = map (when_peer peer f) w.table; cache = insert peer c w.cache })
renewed w peer c f h keeps plausible known =
    inserted w peer c (map (when_peer peer f) w.table) (plausible, own) others
  where
    own : (q : Peer) → Memᴰ q (map (when_peer peer f) w.table) → q.peer_id ≡ peer → IsKnown c q
    own q i is_peer = elim (written peer f w.table i) [
      | inl (p, j, same, e) ↦ rw (e) (known p j same)
      | inr (j, n) ↦ absurd (n is_peer)
    ]

    others :
        (other : ℕ) (c' : Cached)
        → other ≢ peer
        → lookup other w.cache ≡ some c'
        → IsEntry w.now (map (when_peer peer f) w.table) other c'
    others other c' differs e = (
      (h other c' e).0,
      λ q i is_other. elim (written peer f w.table i) [
        | inl (p, j, same, e') ↦
            absurd (differs (sym is_other ∙ ap (λ (r : Peer). r.peer_id) e' ∙ keeps p ∙ same))
        | inr (j, n) ↦ (h other c' e).1 q j is_other
      ],
    )

kept :
    (w : World) (peer : ℕ)
    → IsConsistent w
    → IsConsistent (record w { cache = insert peer (cached_or_zero (lookup peer w.cache)) w.cache })
kept w peer h =
    inserted w peer (cached_or_zero (lookup peer w.cache)) w.table (IsEntry-cached w peer h)
      (λ other c' differs e. h other c' e)

-- The invariant holds after a peer was seen and dialled.
pub update_peer_record_last_seen_and_last_dialed-IsConsistent :
    (peer : ℕ) (w : World)
    → IsConsistent w
    → IsConsistent (update_peer_record_last_seen_and_last_dialed peer w)
unfolding update_peer_record_last_seen_and_last_dialed
update_peer_record_last_seen_and_last_dialed-IsConsistent peer w h =
    let c = cached_or_zero (lookup peer w.cache) in
    let both : Peer → Peer = λ p. record p { last_dialed = w.now; last_seen = w.now } in
    elim (Bool-cases (is_old w.now c.last_seen || is_old w.now c.last_dialed)) [
      | inr recent ↦ rw (recent) (kept w peer h)
      | inl old ↦ rw (old) (elim (Bool-cases (has_peer peer w.table)) [
        | inl there ↦ rw (there) (
            renewed w peer (record { last_dialed = w.now; last_seen = w.now }) both h (λ p. refl)
              (omega arith, inl refl) (λ p i same pos eq. omega arith))
        | inr gone ↦ rw (gone) (
            renewed w peer c both h (λ p. refl) (IsEntry-cached w peer h).0
              (λ p i same. absurd (absent peer p w.table gone i same)))
      ])
    ]

-- The invariant holds after a peer was dialled in vain.
pub update_peer_record_last_dialed-IsConsistent :
    (peer : ℕ) (w : World) → IsConsistent w → IsConsistent (update_peer_record_last_dialed peer w)
unfolding update_peer_record_last_dialed
update_peer_record_last_dialed-IsConsistent peer w h =
    let c = cached_or_zero (lookup peer w.cache) in
    let one : Peer → Peer = λ p. record p { last_dialed = w.now } in
    elim (Bool-cases (is_old w.now c.last_dialed)) [
      | inr recent ↦ rw (recent) (kept w peer h)
      | inl old ↦ rw (old) (elim (Bool-cases (has_peer peer w.table)) [
        | inl there ↦ rw (there) (
            renewed w peer (record c { last_dialed = w.now }) one h (λ p. refl)
              (omega arith, inr (gap old)) (λ p i same pos eq. absurd (omega (arith, gap old, eq))))
        | inr gone ↦ rw (gone) (
            renewed w peer c one h (λ p. refl) (IsEntry-cached w peer h).0
              (λ p i same. absurd (absent peer p w.table gone i same)))
      ])
    ]
  where
    gap :
        is_old w.now (cached_or_zero (lookup peer w.cache)).last_dialed ≡ true
        → (cached_or_zero (lookup peer w.cache)).last_seen + peer_record_update_delay < w.now
    gap old = elim (IsEntry-cached w peer h).0.1 [
      | inl same ↦ ground (arith, old, same)
      | inr before ↦ ground (arith, old, before)
    ]

-- A dial keeps the times consistent, whatever the network answers: for each peer in memory, the
-- last dial is not in the future, the peer was seen then or had not been seen for the whole update
-- delay, and if memory has it seen when last dialled then so has each row of the table.
pub dial-IsConsistent :
    (network : Network) (peer : ℕ) (w : World) → IsConsistent w → IsConsistent (dial network peer w)
unfolding dial
dial-IsConsistent network peer w h =
    elim (Bool-cases (is_empty (find_peer_address_and_protocols network peer).addresses)) [
      | inl none_found ↦ rw (none_found) (update_peer_record_last_dialed-IsConsistent peer w h)
      | inr found ↦ rw (found) (elim (Bool-cases (peer == network.own_id)) [
        | inl own ↦ rw (own) (update_peer_record_last_seen_and_last_dialed-IsConsistent peer w h)
        | inr other ↦ rw (other) (elim (Bool-cases (network.dial peer)) [
          | inl done ↦ rw (done) (
              update_peer_record_last_seen_and_last_dialed-IsConsistent peer
                (record w { dialed = peer ∷ w.dialed }) h)
          | inr lost ↦ rw (lost) (
              update_peer_record_last_dialed-IsConsistent peer
                (record w { dialed = peer ∷ w.dialed }) h)
        ])
      ])
    ]

seen_lem :
    (peer : ℕ) (w : World)
    → IsConsistent w
    → peer_record_update_delay < w.now
    → (p : Peer) → Memᴰ p (update_peer_record_last_seen_and_last_dialed peer w).table
    → p.peer_id ≡ peer
    → p.last_dialed ≤ p.last_seen
unfolding update_peer_record_last_seen_and_last_dialed
seen_lem peer w h late p i same =
    let c = cached_or_zero (lookup peer w.cache) in
    let (plausible, known) = IsEntry-cached w peer h in
    elim (Bool-cases (is_old w.now c.last_seen || is_old w.now c.last_dialed)) [
      | inl old ↦
          elim (written peer (λ p. record p { last_dialed = w.now; last_seen = w.now }) w.table
            (rw (old) at i)) [
              | inl (q, j, is_peer, e) ↦ rw (e) (omega arith)
              | inr (j, n) ↦ absurd (n same)
            ]
      | inr recent ↦
          known p (rw (recent) at i) same (ground (arith, recent, late)) (elim (plausible.1) [
            | inl e ↦ e
            | inr before ↦ absurd (ground (arith, recent, before, plausible.0, late))
          ])
    ]

-- A peer that is dialled with success is one that the next operation is sent to, though the table
-- is not always written: from consistent times, while the clock is past the update delay and an
-- address of the peer is found, each row of the peer then has it seen no earlier than dialled.
pub dialed_is_available :
    (network : Network) (peer : ℕ) (w : World)
    → IsConsistent w
    → peer_record_update_delay < w.now
    → is_empty (find_peer_address_and_protocols network peer).addresses ≡ false
    → network.dial peer ≡ true
    → (p : Peer) → Memᴰ p (dial network peer w).table
    → p.peer_id ≡ peer
    → p.last_dialed ≤ p.last_seen
unfolding dial
dialed_is_available network peer w h late found done p i same =
    elim (Bool-cases (peer == network.own_id)) [
      | inl own ↦ seen_lem peer w h late p (rw (found, own) at i) same
      | inr other ↦
          seen_lem peer (record w { dialed = peer ∷ w.dialed }) h late p
            (rw (found, other, done) at i) same
    ]
