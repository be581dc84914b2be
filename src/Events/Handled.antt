-- ===== src/Events/Handled.antt =====
-- handleBlockchainEvents of ot-node-docker/src/service/blockchain-event-listener-service.js: which
-- events are handled, in which order, and which are then marked as processed.
use trex_dkg.Prelude.{
  ℕ, ◌≡◌, ◌⊎◌, Bool, false, ◌&&◌, ◌||◌, List, [], ◌∷◌, ◌++◌, map, Option, none, some,
}
use trex_dkg.Events.Data.{EventName, Row}
use trex_dkg.Events.Handle.{has_id, Batches, Call, Node}

abbrev pub batches_of : List Call → Batches
batches_of [] = []
batches_of (c ∷ calls) = (c.name, c.rows) ∷ batches_of calls

abbrev pub succeeded : Option Bool → Bool
succeeded none = false
succeeded (some ok) = ok

-- The event was passed to a handler that returned.
abbrev pub is_handled : List Call → ℕ → Bool
is_handled [] id = false
is_handled (c ∷ calls) id = (succeeded c.returned && has_id id c.rows) || is_handled calls id

abbrev pub processed_by : List Call → Row → Row
processed_by calls r = record r { processed = r.processed || is_handled calls r.id }

module _ {S : Type 0} (handler : EventName → Option (List Row → S → S × Bool)) where
  -- The call is of the handler that the event's name has, with the rows, and gives the state `t`.
  abbrev pub IsRun : S → Call → S → Type 0
  IsRun s c t =
      ((handler c.name ≡ none) × (c.returned ≡ none) × (t ≡ s))
      ⊎ ((handle : List Row → S → S × Bool) × (handler c.name ≡ some handle)
          × (ok : Bool) × (handle c.rows s ≡ (t, ok))
          × (c.returned ≡ some ok))

  -- The calls follow one another.
  abbrev pub AreRun : S → List Call → S → Type 0
  AreRun s [] t = t ≡ s
  AreRun s (c ∷ calls) t = (m : S) × IsRun s c m × AreRun m calls t

  abbrev pub HasHandled : Batches → Node handler → Node handler → Type 0
  HasHandled batches before after =
      (calls : List Call) × (after.calls ≡ before.calls ++ calls)
      × (batches_of calls ≡ batches)
      × (after.world.rows ≡ map (processed_by calls) before.world.rows)
      × AreRun before.state calls after.state
