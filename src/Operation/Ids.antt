-- ===== src/Operation/Ids.antt =====
-- ot-node-docker/src/service/operation-id-service.js: the status of an operation id, its events,
-- and the cache of results in memory and in files.
use trex_dkg.Prelude.{
  ℕ, ◌+◌, String, Option, none, some, [], ◌∷◌, ◌++◌, Dict, lookup, insert, erase, modify, ltb,
  if◌then◌else◌,
}
use trex_dkg.Operation.Data.{IdStatus, ErrorType, Failure, Payload, CacheEntry, World}

-- `emitChangeEvent`
unfoldable pub emit_change_event :
    IdStatus → ℕ → Option ℕ → Option String → Option ErrorType → World → World
emit_change_event status operation_id blockchain value1 value2 w = record w {
  events =
      w.events
      ++ record {
        last_event = status;
        operation_id = operation_id;
        blockchain = blockchain;
        value1 = value1;
        value2 = value2;
      }
        ∷ [];
}

-- `generateOperationId`: the id is the one that the database gave the new row.
unfoldable pub generate_operation_id : IdStatus → ℕ → World → ℕ × World
unfolding emit_change_event
generate_operation_id status fresh w = (
  fresh,
  emit_change_event status fresh none none none (record w {
    operation_ids =
        insert fresh (record { status = status; failure = none; timestamp = w.now })
          w.operation_ids;
  }),
)

-- `updateOperationIdStatusWithValues`
unfoldable pub update_operation_id_status_with_values :
    ℕ → ℕ → IdStatus → Option String → World → World
unfolding emit_change_event
update_operation_id_status_with_values operation_id blockchain status value1 w =
    let w' = emit_change_event status operation_id (some blockchain) value1 none w in
    record w' {
      operation_ids =
          modify operation_id (λ row. record row { status = status; timestamp = w.now })
            w'.operation_ids;
    }

-- `removeOperationIdMemoryCache`
unfoldable pub remove_operation_id_memory_cache : ℕ → World → World
remove_operation_id_memory_cache operation_id w = record w {
  memory_cache = erase operation_id w.memory_cache;
}

-- `removeOperationIdCache`
unfoldable pub remove_operation_id_cache : ℕ → World → World
unfolding remove_operation_id_memory_cache
remove_operation_id_cache operation_id w =
    remove_operation_id_memory_cache operation_id (record w { files = erase operation_id w.files })

abbrev drop_cache : ℕ → Option String → World → World
unfolding remove_operation_id_cache
drop_cache operation_id none w = w
drop_cache operation_id (some message) w = remove_operation_id_cache operation_id w

abbrev new_failure : Option String → Option ErrorType → Option Failure → Option Failure
new_failure none error_type old = old
new_failure (some message) error_type old =
    some (record { error_message = message; error_type = error_type })

-- `updateOperationIdStatus`: with an error message the row gets it, and the cached result goes.
unfoldable pub update_operation_id_status :
    ℕ → ℕ → IdStatus → Option String → Option ErrorType → World → World
unfolding emit_change_event drop_cache remove_operation_id_cache
update_operation_id_status operation_id blockchain status error_message error_type w =
    let w' =
      emit_change_event status operation_id (some blockchain) error_message error_type
        (drop_cache operation_id error_message w) in
    record w' {
      operation_ids =
          modify operation_id
            (λ row. record row {
              status = status;
              failure = new_failure error_message error_type row.failure;
            })
            w'.operation_ids;
    }

-- `cacheOperationIdData`
unfoldable pub cache_operation_id_data : ℕ → Payload → World → World
cache_operation_id_data operation_id contents w =
    let entry : CacheEntry = record { contents = contents; timestamp = w.now } in
    record w {
      files = insert operation_id entry w.files;
      memory_cache = insert operation_id entry w.memory_cache;
    }

abbrev contents_of : Option CacheEntry → Option Payload
contents_of none = none
contents_of (some e) = some e.contents

-- `getCachedOperationIdData`: memory first, then the file if there is one.
unfoldable pub get_cached_operation_id_data : ℕ → World → Option Payload
get_cached_operation_id_data operation_id w = elim (lookup operation_id w.memory_cache) [
  | some e ↦ some e.contents
  | none ↦ contents_of (lookup operation_id w.files)
]

-- The entries that are kept by a sweep at `now`, and the entries that go.
unfoldable pub keep_live : ℕ → ℕ → Dict CacheEntry → Dict CacheEntry
keep_live now timeout [] = []
keep_live now timeout ((k, e) ∷ d) =
    let rest = keep_live now timeout d in
    if ltb (e.timestamp + timeout) now then rest else (k, e) ∷ rest

module _ (byte_length : Payload → ℕ) where
  -- Bytes freed, as `Buffer.from(JSON.stringify(data)).byteLength` counts them.
  expired_bytes : ℕ → ℕ → Dict CacheEntry → ℕ
  expired_bytes now timeout [] = 0
  expired_bytes now timeout ((k, e) ∷ d) =
      (if ltb (e.timestamp + timeout) now then byte_length e.contents else 0)
      + expired_bytes now timeout d

  -- `removeExpiredOperationIdMemoryCache`
  unfoldable pub remove_expired_operation_id_memory_cache : ℕ → World → World × ℕ
  unfolding keep_live expired_bytes
  remove_expired_operation_id_memory_cache timeout w = (
    record w { memory_cache = keep_live w.now timeout w.memory_cache },
    expired_bytes w.now timeout w.memory_cache,
  )

-- The number of files that a sweep removes.
count_expired : ℕ → ℕ → Dict CacheEntry → ℕ
count_expired now timeout [] = 0
count_expired now timeout ((k, e) ∷ d) =
    (if ltb (e.timestamp + timeout) now then 1 else 0) + count_expired now timeout d

-- `removeExpiredOperationIdFileCache`. The batches only bound how many removals run at once.
unfoldable pub remove_expired_operation_id_file_cache : ℕ → World → World × ℕ
unfolding keep_live count_expired
remove_expired_operation_id_file_cache timeout w =
    (record w { files = keep_live w.now timeout w.files }, count_expired w.now timeout w.files)
