-- ===== src/Sharding/PulledTable.antt =====
-- The table after a pull.
use trex_dkg.Prelude.{
  ℕ, ◌≤◌, ◌≡◌, ◌≢◌, refl, sym, ap, ◌∙◌, Bool, false, Option, some, List, [], ◌∷◌, ◌++◌, map, length,
  append-nil, append_assoc, ◌==◌, ◌||◌, arith,
}
use trex_dkg.Sharding.Data.{Peer}
use trex_dkg.Sharding.Neighbourhood.{peers_of}
use trex_dkg.Sharding.Pull.{
  ChainNode, named, remove_rows, create_peer_record, create_many_peer_records, is_recent,
  peer_of_node, pull_blockchain_sharding_table,
}
use trex_dkg.Sharding.Pulled.{IsPaged, pull_all}

abbrev pub has_peer_id : ℕ → List Peer → Bool
has_peer_id k [] = false
has_peer_id k (p ∷ ps) = p.peer_id == k || has_peer_id k ps

-- Peers of one blockchain whose ids are neither in a list nor repeated.
abbrev pub AreNew : ℕ → List Peer → List Peer → Type 0
AreNew blockchain [] l = Unit
AreNew blockchain (x ∷ xs) l =
    (x.blockchain_id ≡ blockchain)
    × (has_peer_id x.peer_id l ≡ false)
    × AreNew blockchain xs (l ++ x ∷ [])

peers_of-remove_rows : (b : ℕ) (table : List Peer) → peers_of b (remove_rows b table) ≡ []
unfolding peers_of
peers_of-remove_rows b [] = refl
peers_of-remove_rows b (p ∷ ps) = ground (arith, peers_of-remove_rows b ps)

peers_of-remove_rows_ne :
    (b other : ℕ) (table : List Peer)
    → other ≢ b
    → peers_of other (remove_rows b table) ≡ peers_of other table
unfolding peers_of
peers_of-remove_rows_ne b other [] h = refl
peers_of-remove_rows_ne b other (p ∷ ps) h = ground (arith, peers_of-remove_rows_ne b other ps h)

peers_of-create_peer_record :
    (x : Peer) (table : List Peer)
    → has_peer_id x.peer_id (peers_of x.blockchain_id table) ≡ false
    → peers_of x.blockchain_id (create_peer_record x table)
      ≡ peers_of x.blockchain_id table ++ x ∷ []
unfolding peers_of
peers_of-create_peer_record x [] h = ground arith
peers_of-create_peer_record x (p ∷ ps) h = ground (arith, peers_of-create_peer_record x ps)

peers_of-create_peer_record_ne :
    (x : Peer) (other : ℕ) (table : List Peer)
    → other ≢ x.blockchain_id
    → peers_of other (create_peer_record x table) ≡ peers_of other table
unfolding peers_of
peers_of-create_peer_record_ne x other [] h = ground arith
peers_of-create_peer_record_ne x other (p ∷ ps) h =
    ground (arith, peers_of-create_peer_record_ne x other ps h)

peers_of-create_many_peer_records :
    (b : ℕ) (xs table : List Peer)
    → AreNew b xs (peers_of b table)
    → peers_of b (create_many_peer_records xs table) ≡ peers_of b table ++ xs
peers_of-create_many_peer_records b [] table h = sym (append-nil (peers_of b table))
peers_of-create_many_peer_records b (x ∷ xs) table (same, fresh, rest) =
    let step : peers_of b (create_peer_record x table) ≡ peers_of b table ++ x ∷ [] =
      rw (← same) (peers_of-create_peer_record x table (rw same fresh)) in
    peers_of-create_many_peer_records b xs (create_peer_record x table) (rw step rest)
    ∙ ap (λ t. t ++ xs) step
    ∙ append_assoc (peers_of b table) (x ∷ []) xs

peers_of-create_many_peer_records_ne :
    (b other : ℕ) (xs l table : List Peer)
    → other ≢ b
    → AreNew b xs l
    → peers_of other (create_many_peer_records xs table) ≡ peers_of other table
peers_of-create_many_peer_records_ne b other [] l table h new = refl
peers_of-create_many_peer_records_ne b other (x ∷ xs) l table h (same, fresh, rest) =
    peers_of-create_many_peer_records_ne b other xs (l ++ x ∷ []) (create_peer_record x table) h
      rest
    ∙ peers_of-create_peer_record_ne x other table (λ e. h (e ∙ same))

module _ (convert_hex_to_ascii convert_from_wei sha256 : ℕ → ℕ) where
  -- A pull that is not forced, with no recent check, ends, with as much fuel as the table on the
  -- blockchain has nodes, and the rows of the blockchain are then the nodes of that table, all of
  -- them and in its order, whatever rows there were; those of any other blockchain are as before.
  -- The contract returns pages of the table, padded with empty entries behind its end, and the
  -- table does not change meanwhile. It begins with a first node; each node has an id, and no two
  -- rows made of them have the same.
  pub pull_blockchain_sharding_table_lem :
      (chain ys : List ChainNode) (y : ChainNode) (page : ℕ → ℕ → List ChainNode)
      (fuel b other now : ℕ) (last_checked : Option ℕ) (table : List Peer)
      → IsPaged chain page
      → chain ≡ y ∷ ys
      → named chain ≡ chain
      → AreNew b (map (peer_of_node convert_hex_to_ascii convert_from_wei sha256 b) chain) []
      → is_recent last_checked now ≡ false
      → length chain ≤ fuel
      → other ≢ b
      → (t : List Peer) × (pull_blockchain_sharding_table convert_hex_to_ascii convert_from_wei
            sha256 fuel page
            (length chain)
            y.identity_id
            b
            false
            last_checked
            now
            table
          ≡ some t)
        × (peers_of b t ≡ map (peer_of_node convert_hex_to_ascii convert_from_wei sha256 b) chain)
        × (peers_of other t ≡ peers_of other table)
  unfolding pull_blockchain_sharding_table
  pull_blockchain_sharding_table_lem chain ys y page fuel b other now last_checked table paged e all
        new old fits ne =
      let rows = map (peer_of_node convert_hex_to_ascii convert_from_wei sha256 b) chain in
      let none_left = peers_of-remove_rows b table in
      (
        create_many_peer_records rows (remove_rows b table),
        ground (arith, pull_all chain page paged fuel y ys all e fits),
        peers_of-create_many_peer_records b rows (remove_rows b table) (rw none_left new)
            ∙ ap (λ t. t ++ rows) none_left,
        peers_of-create_many_peer_records_ne b other rows [] (remove_rows b table) ne new
            ∙ peers_of-remove_rows_ne b other table ne,
      )
