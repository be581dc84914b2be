-- ===== src/Operation/FetchEnds.antt =====
-- How a get ends.
use trex_dkg.Prelude.{ℕ, ◌≡◌, Option, some, List, ◌++◌}
use trex_dkg.Operation.Data.{StoreCall, CommandData, World}
use trex_dkg.Operation.Fetching.{Answer, first_found, result_of, stores_of}
use trex_dkg.Operation.Searching.{Searching, Over}

module _ (answer : ℕ → Answer) where
  -- The end of a get whose nodes found are those left over and the ones that have missed.
  Ends : CommandData → List StoreCall → World → Option World → Type 0
  Ends d l w r =
      (w' : World) × (r ≡ some w')
      × Over d (result_of (first_found answer d.leftover_nodes))
          (l ++ stores_of d (first_found answer d.leftover_nodes)) w'
