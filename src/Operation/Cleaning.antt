-- ===== src/Operation/Cleaning.antt =====
-- ot-node-docker/src/commands/cleaners/operation-id-cleaner-command.js: every day the rows of ended
-- operations and the results that are too old are removed.
use trex_dkg.Prelude.{
  ℕ, ◌+◌, ◌-◌, ◌≡◌, refl, Bool, true, false, ◌&&◌, Option, none, some, [], ◌∷◌, Dict, lookup,
  distinct, ltb, if◌then◌else◌, arith,
}
use trex_dkg.Operation.Data.{IdStatus, IdRow, Payload, CacheEntry, World}
use trex_dkg.Operation.Ids.{
  keep_live, remove_expired_operation_id_memory_cache, remove_expired_operation_id_file_cache,
}

-- OPERATION_ID_COMMAND_CLEANUP_TIME_MILLS, 24 hours.
abbrev pub cleanup_time : ℕ
cleanup_time = 86400000

abbrev pub is_ended : IdStatus → Bool
is_ended IdStatus.completed = true
is_ended IdStatus.failed = true
is_ended _ = false

-- `removeOperationIdRecord`
abbrev pub remove_operation_id_record : ℕ → Dict IdRow → Dict IdRow
remove_operation_id_record time_to_be_deleted [] = []
remove_operation_id_record time_to_be_deleted ((k, row) ∷ d) =
    let rest = remove_operation_id_record time_to_be_deleted d in
    if ltb row.timestamp time_to_be_deleted && is_ended row.status then rest else (k, row) ∷ rest

module _ (byte_length : Payload → ℕ) where
  -- `OperationIdCleanerCommand.execute`.
  unfoldable pub clean : World → World
  unfolding remove_expired_operation_id_memory_cache remove_expired_operation_id_file_cache
  clean w =
      let w1 : World = record w {
        operation_ids = remove_operation_id_record (w.now - cleanup_time) w.operation_ids;
      } in
      let (w2, freed) = remove_expired_operation_id_memory_cache byte_length cleanup_time w1 in
      let (w3, removed) = remove_expired_operation_id_file_cache cleanup_time w2 in w3

-- What a sweep keeps.
abbrev pub live : ℕ → ℕ → Option CacheEntry → Option CacheEntry
live now timeout none = none
live now timeout (some e) = if ltb (e.timestamp + timeout) now then none else some e

pub lookup-keep_live :
    (k now timeout : ℕ) (d : Dict CacheEntry)
    → distinct d ≡ true
    → lookup k (keep_live now timeout d) ≡ live now timeout (lookup k d)
unfolding keep_live
lookup-keep_live k now timeout [] h = refl
lookup-keep_live k now timeout ((j, e) ∷ d) h = grind (arith, lookup-keep_live k now timeout d)

pub distinct-keep_live :
    (now timeout : ℕ) (d : Dict CacheEntry)
    → distinct d ≡ true
    → distinct (keep_live now timeout d) ≡ true
unfolding keep_live
distinct-keep_live now timeout [] h = refl
distinct-keep_live now timeout ((j, e) ∷ d) h =
    ground (arith, distinct-keep_live now timeout d, lookup-keep_live j now timeout d)
