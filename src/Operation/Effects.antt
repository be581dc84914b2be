-- ===== src/Operation/Effects.antt =====
-- What each outcome of a response changes: the status of the operation, the commands that are
-- scheduled and the events; and what it leaves alone.
use trex_dkg.Prelude.{
  ℕ, ◌+◌, ◌≡◌, refl, sym, ◌∙◌, append-nil, String, Bool, true, false, Option, none, some, List, [],
  ◌∷◌, ◌++◌, map, change, ◌==◌, ◌&&◌, if◌then◌else◌, arith,
}
use trex_dkg.Operation.Data.{
  OperationName, same_operation, OperationStatus, IdStatus, ErrorType, Event, OperationRow,
  Scheduled, CommandData, World,
}
use trex_dkg.Operation.Ids.{update_operation_id_status}
use trex_dkg.Operation.Service.{
  Service, set_status, update_operation_status, update_id_statuses, mark_operation_as_completed,
  mark_operation_as_failed, schedule_operation_for_leftover_nodes,
}
use trex_dkg.Operation.Outcome.{Outcome, completes, fails, next, waits, apply}

-- What the rest of an operation leaves alone.
update_id_statuses_frame :
    (id b : ℕ) (l : List IdStatus) (w : World)
    → let w' = update_id_statuses id b l w in
      (w'.responses ≡ w.responses) × (w'.operations ≡ w.operations) × (w'.scheduled ≡ w.scheduled)
unfolding update_id_statuses
update_id_statuses_frame id b [] w = (refl, refl, refl)
update_id_statuses_frame id b (x ∷ l) w =
    update_id_statuses_frame id b l (update_operation_id_status id b x none none w)

pub apply_responses :
    (s : Service) (d : CommandData) (o : Outcome) (w : World)
    → (apply s d o w).responses ≡ w.responses
unfolding apply mark_operation_as_completed mark_operation_as_failed update_operation_status
    update_operation_id_status schedule_operation_for_leftover_nodes
apply_responses s d completes w =
    (update_id_statuses_frame d.operation_id d.blockchain s.completed_statuses _).0
apply_responses s d fails w = refl
apply_responses s d next w = refl
apply_responses s d waits w = refl

-- The status of an operation: that of its first row.
unfoldable pub row_status : OperationName → ℕ → List OperationRow → Option OperationStatus
row_status operation operation_id [] = none
row_status operation operation_id (r ∷ rs) =
    let rest = row_status operation operation_id rs in
    if same_operation r.operation operation && r.operation_id == operation_id
    then some r.status
    else rest

pub row_status-set_status :
    (o : OperationName) (id : ℕ) (st : OperationStatus) (rs : List OperationRow)
    → row_status o id (map (set_status o id st) rs) ≡ change (λ _. st) (row_status o id rs)
unfolding row_status
row_status-set_status o id st [] = refl
row_status-set_status o id st (r ∷ rs) = ground (arith, row_status-set_status o id st rs)

abbrev pub status_after : Outcome → OperationStatus → OperationStatus
status_after completes st = OperationStatus.completed
status_after fails st = OperationStatus.failed
status_after _ st = st

-- The status of the operation that a command belongs to.
abbrev pub status_of : Service → CommandData → World → Option OperationStatus
status_of s d w = row_status s.operation_name d.operation_id w.operations

pub apply_status :
    (s : Service) (d : CommandData) (o : Outcome) (w : World) {st : OperationStatus}
    → status_of s d w ≡ some st
    → status_of s d (apply s d o w) ≡ some (status_after o st)
unfolding apply mark_operation_as_completed mark_operation_as_failed update_operation_status
    update_operation_id_status schedule_operation_for_leftover_nodes
apply_status s d completes w h = ground (
  arith,
  update_id_statuses_frame d.operation_id d.blockchain s.completed_statuses
      (update_operation_status s.operation_name d.operation_id OperationStatus.completed w),
  row_status-set_status s.operation_name d.operation_id OperationStatus.completed w.operations,
)
apply_status s d fails w h = ground (
  arith,
  row_status-set_status s.operation_name d.operation_id OperationStatus.failed w.operations,
)
apply_status s d next w h = h
apply_status s d waits w h = h

abbrev pub scheduled_after : Service → CommandData → Outcome → List Scheduled
scheduled_after s d next = record { operation = s.operation_name; command = d } ∷ []
scheduled_after s d _ = []

pub apply_scheduled :
    (s : Service) (d : CommandData) (o : Outcome) (w : World)
    → (apply s d o w).scheduled ≡ w.scheduled ++ scheduled_after s d o
unfolding apply mark_operation_as_completed mark_operation_as_failed update_operation_status
    update_operation_id_status schedule_operation_for_leftover_nodes
apply_scheduled s d completes w =
    (update_id_statuses_frame d.operation_id d.blockchain s.completed_statuses _).2
    ∙ sym (append-nil w.scheduled)
apply_scheduled s d fails w = sym (append-nil w.scheduled)
apply_scheduled s d next w = refl
apply_scheduled s d waits w = sym (append-nil w.scheduled)

abbrev pub is_final : IdStatus → Bool
is_final IdStatus.completed = true
is_final _ = false

-- How often an operation id has been reported as completed.
unfoldable pub finished : ℕ → List Event → ℕ
finished id [] = 0
finished id (e ∷ es) =
    (if is_final e.last_event && e.operation_id == id then 1 else 0) + finished id es

pub finished-append :
    (id : ℕ) (es fs : List Event) → finished id (es ++ fs) ≡ finished id es + finished id fs
unfolding finished
finished-append id [] fs = omega arith
finished-append id (e ∷ es) fs = ground (arith, finished-append id es fs)

-- How many of a service's final statuses are COMPLETED.
unfoldable pub finals : List IdStatus → ℕ
finals [] = 0
finals (x ∷ l) = (if is_final x then 1 else 0) + finals l

finished-update_operation_id_status :
    (id b : ℕ) (x : IdStatus) (m : Option String) (t : Option ErrorType) (w : World)
    → finished id (update_operation_id_status id b x m t w).events
      ≡ finished id w.events + (if is_final x then 1 else 0)
unfolding update_operation_id_status finished
finished-update_operation_id_status id b x none t w = ground (
  arith,
  finished-append id w.events (
      record { last_event = x; operation_id = id; blockchain = some b; value1 = none; value2 = t }
      ∷ []),
)
finished-update_operation_id_status id b x (some m) t w = ground (
  arith,
  finished-append id w.events (
      record { last_event = x; operation_id = id; blockchain = some b; value1 = some m; value2 = t }
      ∷ []),
)

finished-update_id_statuses :
    (id b : ℕ) (l : List IdStatus) (w : World)
    → finished id (update_id_statuses id b l w).events ≡ finished id w.events + finals l
unfolding update_id_statuses finals
finished-update_id_statuses id b [] w = omega arith
finished-update_id_statuses id b (x ∷ l) w = ground (
  arith,
  finished-update_id_statuses id b l (update_operation_id_status id b x none none w),
  finished-update_operation_id_status id b x none none w,
)

abbrev pub finished_after : Outcome → ℕ
finished_after completes = 1
finished_after _ = 0

pub finished-apply :
    (s : Service) (d : CommandData) (o : Outcome) (w : World)
    → finals s.completed_statuses ≡ 1
    → finished d.operation_id (apply s d o w).events
      ≡ finished d.operation_id w.events + finished_after o
unfolding apply mark_operation_as_completed mark_operation_as_failed update_operation_status
    schedule_operation_for_leftover_nodes
finished-apply s d completes w h = ground (
  arith,
  finished-update_id_statuses d.operation_id d.blockchain s.completed_statuses
      (update_operation_status s.operation_name d.operation_id OperationStatus.completed w),
)
finished-apply s d fails w h = ground (
  arith,
  finished-update_operation_id_status d.operation_id d.blockchain IdStatus.failed
      (some "Not replicated to enough nodes!") (some s.error_type)
      (update_operation_status s.operation_name d.operation_id OperationStatus.failed w),
)
finished-apply s d next w h = omega arith
finished-apply s d waits w h = omega arith
